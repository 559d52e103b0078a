-- ===== src/OpenId/Path/Escapes.antt =====
-- Escape sequences in quoted identifiers. `escaped` is called with the text behind the backslash, and
-- takes `str[1]` for the escape character: the character directly behind the backslash is skipped.
use Prim.Native.Nat.{◌<◌}
use Prim.Native.Char.{Char, char, code}
use Prim.Native.String.{String, [], ◌∷◌, ◌++◌}
use text.Mathlib.TextLemmas.{nil-append, cons-append}
use istio_oidc.Common.{ℕ, zero, suc, ◌≡◌, none, false, arith, eqb}
use istio_oidc.OpenId.Chars.{UnicodeTables, text_length}
use istio_oidc.OpenId.Path.{
  err, unknown_escape, simple_escape, escape, escaped, quoted_loop, quoted, identifier, path_loop,
  parse_role_path,
}
use istio_oidc.OpenId.Path.Written.{quote_mark, IsPlain, text_length-append}

abbrev pub backslash : Char
backslash = char 0x5c tt

-- A character that is none of those that may follow a backslash in JSON.
abbrev pub IsUnknown : Char → Type 0
IsUnknown r =
    (eqb (code r) b'"' ≡ false)
    × (eqb (code r) 0x5c ≡ false)
    × (eqb (code r) b'/' ≡ false)
    × (eqb (code r) b'b' ≡ false)
    × (eqb (code r) b'f' ≡ false)
    × (eqb (code r) b'n' ≡ false)
    × (eqb (code r) b'r' ≡ false)
    × (eqb (code r) b't' ≡ false)
    × (eqb (code r) b'u' ≡ false)

simple_escape-IsUnknown : (r : Char) → IsUnknown r → simple_escape (code r) ≡ none
unfolding simple_escape
simple_escape-IsUnknown r h = rw (h.0, h.1, h.2, h.3, h.4, h.5, h.6, h.7)

escape-IsUnknown : (r : Char) (s : String) → IsUnknown r → escape r s ≡ err (unknown_escape r)
unfolding escape
escape-IsUnknown r s h = rw (simple_escape-IsUnknown r h, escape, h.8)

quoted_loop-escape :
    (p : String) (fuel : ℕ) (id : String) (c r : Char) (s : String)
    → IsPlain p
    → IsUnknown r
    → text_length p < fuel
    → quoted_loop fuel id (p ++ (backslash ∷ (c ∷ (r ∷ s)))) ≡ err (unknown_escape r)
unfolding quoted_loop escaped
quoted_loop-escape p zero id c r s pl h f = absurd (omega arith)
quoted_loop-escape [] (suc fuel) id c r s pl h f =
    rw (nil-append (backslash ∷ (c ∷ (r ∷ s))), quoted_loop, escaped, escape-IsUnknown r s h)
quoted_loop-escape (d ∷ p) (suc fuel) id c r s pl h f =
    rw (cons-append d p (backslash ∷ (c ∷ (r ∷ s))), quoted_loop, pl.0, pl.1)
      (quoted_loop-escape p fuel (id ++ (d ∷ [])) c r s pl.2 h (omega arith))

-- In a quoted identifier a backslash, any one character and then a character that JSON has no escape
-- for make an unknown escape sequence of the latter: the one behind the backslash is never looked
-- at. So a path with a well-formed `\"` or `\\` before an ordinary character is refused.
pub parse-escape :
    (u : UnicodeTables) (p : String) (c r : Char) (s : String)
    → IsPlain p
    → IsUnknown r
    → parse_role_path u (quote_mark ∷ (p ++ (backslash ∷ (c ∷ (r ∷ s))))) ≡ err (unknown_escape r)
unfolding parse_role_path path_loop identifier quoted
parse-escape u p c r s pl h = rw (
    quoted_loop-escape p (text_length (p ++ (backslash ∷ (c ∷ (r ∷ s))))) "" c r s pl h
      (omega (arith, text_length-append p (backslash ∷ (c ∷ (r ∷ s))))))
