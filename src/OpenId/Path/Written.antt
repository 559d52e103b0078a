-- ===== src/OpenId/Path/Written.antt =====
-- Role paths as they are written: identifiers, bare or in quotes, with dots between them.
use Prim.Native.Nat.{◌<◌}
use Prim.Native.Char.{Char, char, code}
use Prim.Native.String.{String, [], ◌∷◌, ◌++◌}
use text.Mathlib.TextLemmas.{nil-append, cons-append, append-nil, append_assoc}
use istio_oidc.Common.{ℕ, zero, suc, ◌+◌, true, false, eqb, List, ◌≡◌, ◌∙◌, arith}
use istio_oidc.OpenId.Chars.{UnicodeTables, text_length}
use istio_oidc.OpenId.Path.{ok, quoted_loop, starts_id, continues_id, span_id}

abbrev pub quote_mark : Char
quote_mark = char b'"' tt

abbrev pub dot : Char
dot = char b'.' tt

-- One identifier of a path, as it is written.
pub data Segment : Type 0 where
  bare : Char → String → Segment
  in_quotes : Char → String → Segment

abbrev pub name : Segment → String
name (bare c s) = c ∷ s
name (in_quotes c s) = c ∷ s

abbrev pub written : Segment → String
written (bare c s) = c ∷ s
written (in_quotes c s) = quote_mark ∷ ((c ∷ s) ++ (quote_mark ∷ []))

-- A text without quotation marks and backslashes.
abbrev pub IsPlain : String → Type 0
IsPlain [] = Unit
IsPlain (c ∷ s) = (eqb (code c) b'"' ≡ false) × (eqb (code c) 0x5c ≡ false) × IsPlain s

abbrev pub Continues : UnicodeTables → String → Type 0
Continues u [] = Unit
Continues u (c ∷ s) = (continues_id u (code c) ≡ true) × Continues u s

-- A bare identifier keeps to the grammar; one in quotes has no escapes, and neither is empty.
abbrev pub IsReadable : UnicodeTables → Segment → Type 0
IsReadable u (bare c s) = (starts_id u (code c) ≡ true) × Continues u s
IsReadable u (in_quotes c s) = IsPlain (c ∷ s)

-- The dot and the quotation mark are in the table `Pattern_Syntax`.
pub record HasSyntax (u : UnicodeTables) : Type 0 where
  pub dot_syntax : u.pattern_syntax b'.' ≡ true
  pub quote_syntax : u.pattern_syntax b'"' ≡ true

-- Identifiers with a dot behind each, before the rest of the path.
abbrev pub before_dots : List Segment → String → String
before_dots List.[] s = s
before_dots (List.◌∷◌ g gs) s = written g ++ (dot ∷ before_dots gs s)

abbrev pub names : List Segment → List String
names List.[] = List.[]
names (List.◌∷◌ g gs) = List.◌∷◌ (name g) (names gs)

-- Where a bare identifier ends.
abbrev pub Ends : UnicodeTables → String → Type 0
Ends u [] = Unit
Ends u (c ∷ s) = continues_id u (code c) ≡ false

pub text_length-append : (s t : String) → text_length (s ++ t) ≡ text_length s + text_length t
text_length-append [] t = rw (nil-append t) (omega arith)
text_length-append (c ∷ s) t = rw (cons-append c s t) (omega (arith, text_length-append s t))

pub quoted_loop-plain :
    (s : String) (fuel : ℕ) (id rest : String)
    → IsPlain s
    → text_length s < fuel
    → quoted_loop fuel id (s ++ (quote_mark ∷ rest)) ≡ ok (id ++ s, rest)
unfolding quoted_loop
quoted_loop-plain s zero id rest p h = absurd (omega arith)
quoted_loop-plain [] (suc fuel) id rest p h = rw (nil-append (quote_mark ∷ rest), append-nil id)
quoted_loop-plain (c ∷ s) (suc fuel) id rest p h =
    rw (cons-append c s (quote_mark ∷ rest), quoted_loop, p.0, p.1)
      (quoted_loop-plain s fuel (id ++ (c ∷ [])) rest p.2 (omega arith)
        ∙ rw (append_assoc id (c ∷ []) s, cons-append c [] s, nil-append s))

pub span_id-Continues :
    (u : UnicodeTables) (s rest : String)
    → Continues u s
    → Ends u rest
    → span_id u (s ++ rest) ≡ (s, rest)
unfolding span_id
span_id-Continues u [] [] c e = rw (nil-append [])
span_id-Continues u [] (d ∷ rest) c e = rw (nil-append (d ∷ rest), span_id, e)
span_id-Continues u (r ∷ s) rest c e =
    rw (cons-append r s rest, span_id, c.0, span_id-Continues u s rest c.1 e)
