-- ===== src/OpenId/Path/RoundTrip.antt =====
-- The parser reads back what is written as a role path, and a path that ends in a dot is a panic.
use Prim.Native.Nat.{◌-◌, ◌≤◌}
use Prim.Native.Char.{Char, code}
use Prim.Native.String.{String, [], ◌∷◌, ◌++◌}
use mathlib.Core.List
use native.Mathlib.Nat.{zero-add}
use text.Mathlib.TextLemmas.{nil-append, cons-append, append-nil, append_assoc, cons≢nil}
use istio_oidc.Common.{
  ℕ, suc, ◌+◌, true, false, eqb, List, ◌==◌, ◌≡◌, refl, sym, ap, ◌∙◌, arith, eq_iff, length, All,
  Bool-cases, inl, inr,
}
use istio_oidc.OpenId.Chars.{UnicodeTables, is_id_start, is_id_continue, text_length}
use istio_oidc.OpenId.Path.{
  ok, panic, quoted, starts_id, continues_id, unquoted, identifier, path_loop, parse_role_path,
  snoc,
}
use istio_oidc.OpenId.Path.Written.{
  quote_mark, dot, Segment, bare, in_quotes, name, written, IsReadable, HasSyntax, before_dots,
  names, Ends, text_length-append, quoted_loop-plain, span_id-Continues,
}

dot_ends : (u : UnicodeTables) → HasSyntax u → continues_id u b'.' ≡ false
unfolding continues_id is_id_continue
dot_ends u h = ground (arith, h.dot_syntax)

quote_starts_none : (u : UnicodeTables) → HasSyntax u → starts_id u b'"' ≡ false
unfolding starts_id is_id_start
quote_starts_none u h = ground (arith, h.quote_syntax)

-- A character that starts an identifier is no quotation mark.
no_quote :
    (u : UnicodeTables) (c : Char)
    → HasSyntax u
    → starts_id u (code c) ≡ true
    → eqb (code c) b'"' ≡ false
no_quote u c h s = ground (arith, quote_starts_none u h, ap (starts_id u))

identifier-written :
    (u : UnicodeTables) (g : Segment) (rest : String)
    → HasSyntax u
    → IsReadable u g
    → Ends u rest
    → identifier u (written g ++ rest) ≡ ok (name g, rest)
unfolding identifier unquoted quoted
identifier-written u (bare c s) rest h r e =
    rw (cons-append c s rest, identifier, no_quote u c h r.0, r.0, span_id-Continues u s rest r.1 e)
identifier-written u (in_quotes c s) rest h r e =
    rw
      (
        cons-append quote_mark ((c ∷ s) ++ (quote_mark ∷ [])) rest,
        append_assoc (c ∷ s) (quote_mark ∷ []) rest,
        cons-append quote_mark [] rest,
        nil-append rest,
      )
      (quoted_loop-plain (c ∷ s) (text_length ((c ∷ s) ++ (quote_mark ∷ rest))) "" rest r
          (omega (arith, text_length-append (c ∷ s) (quote_mark ∷ rest)))
        ∙ rw (nil-append (c ∷ s)))

cons-ne-nil : (c : Char) (s : String) → ((c ∷ s) == "") ≡ false
cons-ne-nil c s = elim (Bool-cases ((c ∷ s) == "")) [
  | inl same ↦ absurd (cons≢nil ((eq_iff (c ∷ s) "").0 same))
  | inr other ↦ other
]

name-ne-nil : (g : Segment) → (name g == "") ≡ false
name-ne-nil (bare c s) = cons-ne-nil c s
name-ne-nil (in_quotes c s) = cons-ne-nil c s

-- One round of the loop, on an identifier with a dot behind it, and on the last one.
path_loop-dot :
    (u : UnicodeTables) (g : Segment) (fuel : ℕ) (ids : List String) (s : String)
    → HasSyntax u
    → IsReadable u g
    → path_loop u (suc fuel) ids (written g ++ (dot ∷ s)) ≡ path_loop u fuel (snoc ids (name g)) s
unfolding path_loop
path_loop-dot u g fuel ids s h r =
    rw (identifier-written u g (dot ∷ s) h r (dot_ends u h), name-ne-nil g)

path_loop-last :
    (u : UnicodeTables) (g : Segment) (fuel : ℕ) (ids : List String)
    → HasSyntax u
    → IsReadable u g
    → path_loop u (suc fuel) ids (written g) ≡ ok (snoc ids (name g), "")
unfolding path_loop
path_loop-last u g fuel ids h r = rw (
  ap (identifier u) (sym (append-nil (written g))),
  identifier-written u g "" h r tt,
  name-ne-nil g,
)

path_loop-before_dots :
    (u : UnicodeTables) (gs : List Segment) (fuel : ℕ) (ids : List String) (s : String)
    → HasSyntax u
    → All (IsReadable u) gs
    → path_loop u (length gs + fuel) ids (before_dots gs s)
      ≡ path_loop u fuel (List.◌++◌ ids (names gs)) s
path_loop-before_dots u List.[] fuel ids s h r = rw (zero-add fuel, List.append-nil ids)
path_loop-before_dots u (List.◌∷◌ g gs) fuel ids s h r =
    let n : suc (length gs) + fuel ≡ suc (length gs + fuel) = omega arith in
    rw n (
      path_loop-dot u g (length gs + fuel) ids (before_dots gs s) h r.0
      ∙ path_loop-before_dots u gs fuel (snoc ids (name g)) s h r.1
      ∙ rw (List.append_assoc ids (List.◌∷◌ (name g) List.[]) (names gs)))

length-before_dots :
    (gs : List Segment) (s : String) → length gs + text_length s ≤ text_length (before_dots gs s)
length-before_dots List.[] s = omega arith
length-before_dots (List.◌∷◌ g gs) s =
    omega (arith, text_length-append (written g) (dot ∷ before_dots gs s), length-before_dots gs s)

-- After the identifiers with a dot behind them the parser goes on with fuel to spare.
parse-before_dots :
    (u : UnicodeTables) (gs : List Segment) (s : String)
    → HasSyntax u
    → All (IsReadable u) gs
    → (fuel : ℕ) × (parse_role_path u (before_dots gs s) ≡ path_loop u (suc fuel) (names gs) s)
unfolding parse_role_path
parse-before_dots u gs s h r =
    let fuel : ℕ = text_length (before_dots gs s) - length gs in
    let n : suc (text_length (before_dots gs s)) ≡ length gs + suc fuel =
      omega (arith, length-before_dots gs s) in
    (fuel, rw n (path_loop-before_dots u gs (suc fuel) List.[] s h r))

-- A path of identifiers, bare or in quotes, with single dots between them is read as the list of
-- their names, to its end. Quoted names are free of quotation marks and backslashes.
pub parse-written :
    (u : UnicodeTables) (gs : List Segment) (g : Segment)
    → HasSyntax u
    → All (IsReadable u) gs
    → IsReadable u g
    → parse_role_path u (before_dots gs (written g)) ≡ ok (snoc (names gs) (name g), "")
parse-written u gs g h r r' =
    let (fuel, e) = parse-before_dots u gs (written g) h r in
    e ∙ path_loop-last u g fuel (names gs) h r'

-- A path that ends in a dot behind such identifiers, or is empty, is no error for the parser: it
-- reads past the end of the slice, a panic.
pub parse-trailing_dot :
    (u : UnicodeTables) (gs : List Segment)
    → HasSyntax u
    → All (IsReadable u) gs
    → parse_role_path u (before_dots gs "") ≡ panic
parse-trailing_dot u gs h r =
    let (fuel, e) = parse-before_dots u gs "" h r in e ∙ (unfold path_loop identifier in refl)
