-- ===== src/OpenId/Path/Fuel.antt =====
-- The fuel of the parser's loops suffices: every round takes a character at least.
use Prim.Native.Nat.{◌<◌, ◌≤◌}
use Prim.Native.Char.{Char, code}
use Prim.Native.String.{String, [], ◌∷◌, ◌++◌}
use istio_oidc.Common.{
  ℕ, zero, suc, ◌≡◌, ◌≢◌, false, true, arith, eqb, refl, if◌then◌else◌, Bool-cases, inl, inr, List,
  Bool, Option-cases, ◌⊎◌, eq_iff,
}
use istio_oidc.OpenId.Chars.{UnicodeTables, text_length, hex_value, rune_text}
use istio_oidc.OpenId.Path.{
  Parsed, PathError, ok, err, end_in_escape, end_in_codepoint, invalid_codepoint, unknown_escape,
  end_in_quotes, continue_path, panic, out_of_fuel, codepoint, simple_escape, escape, escaped,
  quoted_loop, quoted, span_id, unquoted, identifier, path_loop, parse_role_path, ◌>>=◌, starts_id,
  snoc,
}

abbrev Leaves : ℕ → Parsed (String × String) → Type 0
Leaves n (ok p) = text_length p.1 ≤ n
Leaves n (err e) = e ≢ out_of_fuel
Leaves n panic = Unit

-- The outcome is not one of running out of fuel, and what is left is no longer than a bound.
record Takes (n : ℕ) (r : Parsed (String × String)) : Type 0 where
  leaves : Leaves n r

Takes-ok : {n : ℕ} (id s : String) → text_length s ≤ n → Takes n (ok (id, s))
Takes-ok id s h = record { leaves = h }

Takes-err : {n : ℕ} (e : PathError) → e ≢ out_of_fuel → Takes n (err e)
Takes-err e h = record { leaves = h }

Takes-le : (m n : ℕ) (r : Parsed (String × String)) → m ≤ n → Takes m r → Takes n r
Takes-le m n (ok p) le h = record { leaves = omega arith }
Takes-le m n (err e) le h = record { leaves = h.leaves }
Takes-le m n panic le h = record { leaves = tt }

Takes-if :
    {n : ℕ} (b : Bool) (x y : Parsed (String × String))
    → Takes n x
    → Takes n y
    → Takes n (if b then x else y)
Takes-if true x y hx hy = hx
Takes-if false x y hx hy = hy

Takes-bind :
    (m n : ℕ) (r : Parsed (String × String)) (k : String × String → Parsed (String × String))
    → Takes m r
    → ((p : String × String) → text_length p.1 ≤ m → Takes n (k p))
    → Takes n (r >>= k)
Takes-bind m n (ok p) k h f = f p h.leaves
Takes-bind m n (err e) k h f = record { leaves = h.leaves }
Takes-bind m n panic k h f = record { leaves = tt }

end_in_escape_lem : end_in_escape ≢ out_of_fuel
end_in_escape_lem e = cc

short_codepoint : {n : ℕ} → Takes n (err end_in_codepoint)
short_codepoint = Takes-err end_in_codepoint (λ e. cc)

codepoint-Takes : (s : String) → Takes (text_length s) (codepoint s)
unfolding codepoint
codepoint-Takes [] = short_codepoint
codepoint-Takes (a ∷ []) = short_codepoint
codepoint-Takes (a ∷ (b ∷ [])) = short_codepoint
codepoint-Takes (a ∷ (b ∷ (c ∷ []))) = short_codepoint
codepoint-Takes (a ∷ (b ∷ (c ∷ (d ∷ s)))) =
    let hex = a ∷ (b ∷ (c ∷ (d ∷ []))) in
    elim (Option-cases (hex_value 0 hex)) [
      | inl bad ↦ rw (bad, codepoint) (Takes-err (invalid_codepoint hex) (λ e. cc))
      | inr (n, good) ↦ rw (good, codepoint) (Takes-ok (rune_text n) s (omega arith))
    ]

escape-Takes : (r : Char) (s : String) → Takes (text_length s) (escape r s)
unfolding escape
escape-Takes r s = elim (Option-cases (simple_escape (code r))) [
  | inl rest ↦
      rw (rest, escape)
        (Takes-if (eqb (code r) b'u') (codepoint s) (err (unknown_escape r)) (codepoint-Takes s)
          (Takes-err (unknown_escape r) (λ e. cc)))
  | inr (esc, simple) ↦ rw (simple, escape) (Takes-ok esc s (omega arith))
]

escaped-Takes : (s : String) → Takes (text_length s) (escaped s)
unfolding escaped
escaped-Takes [] = Takes-err end_in_escape end_in_escape_lem
escaped-Takes (c ∷ []) = Takes-err end_in_escape end_in_escape_lem
escaped-Takes (c ∷ (r ∷ s)) =
    Takes-le (text_length s) (suc (suc (text_length s))) (escape r s) (omega arith)
      (escape-Takes r s)

quoted_loop-Takes :
    (fuel : ℕ) (id s : String)
    → text_length s ≤ fuel
    → Takes (text_length s) (quoted_loop fuel id s)
unfolding quoted_loop
quoted_loop-Takes zero id [] h = Takes-err (end_in_quotes id) (λ e. cc)
quoted_loop-Takes zero id (r ∷ s) h = absurd (omega arith)
quoted_loop-Takes (suc fuel) id [] h = Takes-err (end_in_quotes id) (λ e. cc)
quoted_loop-Takes (suc fuel) id (r ∷ s) h =
    let next = λ (p : String × String). quoted_loop fuel (id ++ p.0) p.1 in
    let plain = quoted_loop fuel (id ++ (r ∷ [])) s in
    let n = suc (text_length s) in
    Takes-if (eqb (code r) b'"') (ok (id, s))
      (if eqb (code r) 0x5c then escaped s >>= next else plain) (Takes-ok id s (omega arith))
      (Takes-if (eqb (code r) 0x5c) (escaped s >>= next) plain
        (Takes-bind (text_length s) n (escaped s) next (escaped-Takes s) (λ p le.
          Takes-le (text_length p.1) n (next p) (omega arith)
            (quoted_loop-Takes fuel (id ++ p.0) p.1 (omega arith))))
        (Takes-le (text_length s) n plain (omega arith)
          (quoted_loop-Takes fuel (id ++ (r ∷ [])) s (omega arith))))

span_id-le : (u : UnicodeTables) (s : String) → text_length (span_id u s).1 ≤ text_length s
unfolding span_id
span_id-le u [] = omega arith
span_id-le u (r ∷ s) = ground (arith, span_id-le u s)

-- An identifier, if it is not empty, takes a character.
abbrev Advances : ℕ → Parsed (String × String) → Type 0
Advances n (ok p) = (p.0 ≡ "") ⊎ (text_length p.1 < n)
Advances n (err e) = e ≢ out_of_fuel
Advances n panic = Unit

Takes-Advances : (m n : ℕ) (r : Parsed (String × String)) → m < n → Takes m r → Advances n r
Takes-Advances m n (ok p) lt h = inr (omega (arith, h.leaves))
Takes-Advances m n (err e) lt h = h.leaves
Takes-Advances m n panic lt h = tt

identifier-Advances : (u : UnicodeTables) (s : String) → Advances (text_length s) (identifier u s)
unfolding identifier quoted unquoted
identifier-Advances u [] = tt
identifier-Advances u (c ∷ s) = elim (Bool-cases (eqb (code c) b'"')) [
  | inl q ↦ rw q (
      Takes-Advances (text_length s) (suc (text_length s)) _ (omega arith)
        (quoted_loop-Takes (text_length s) "" s (omega arith)))
  | inr b ↦ rw b (elim (Bool-cases (starts_id u (code c))) [
    | inl starts ↦ rw starts (inr (omega (arith, span_id-le u s)))
    | inr not_start ↦ rw not_start (inl refl)
  ])
]

continue_path-fuel :
    (next : List String → String → Parsed (List String × String)) (n : ℕ) (ids : List String)
    (r : Parsed (String × String))
    → Advances n r
    → ((ids : List String) (s : String) → suc (text_length s) < n → next ids s ≢ err out_of_fuel)
    → (r >>= continue_path next ids) ≢ err out_of_fuel
continue_path-fuel next n ids (ok (id, [])) a ih e = ground arith
continue_path-fuel next n ids (ok (id, c ∷ rest)) (inl same) ih e =
    ground (arith, eq_iff id "", same)
continue_path-fuel next n ids (ok (id, c ∷ rest)) (inr less) ih e =
    ground (arith, ih (snoc ids id) rest)
continue_path-fuel next n ids (err x) a ih e = a (ground arith)
continue_path-fuel next n ids panic a ih e = ground arith

-- With more fuel than the text has characters the loop never runs out of it; so the fuel of
-- `parse_role_path` suffices.
path_loop-fuel :
    (u : UnicodeTables) (fuel : ℕ) (ids : List String) (s : String)
    → text_length s < fuel
    → path_loop u fuel ids s ≢ err out_of_fuel
unfolding path_loop
path_loop-fuel u zero ids s h = absurd (omega arith)
path_loop-fuel u (suc fuel) ids s h =
    continue_path-fuel (path_loop u fuel) (text_length s) ids (identifier u s)
      (identifier-Advances u s) (λ ids' s' less. path_loop-fuel u fuel ids' s' (omega arith))

-- The parser's loops end: it answers a path, an error of the source or a panic on every text, and
-- never stops for want of fuel.
pub parse_role_path-fuel : (u : UnicodeTables) (s : String) → parse_role_path u s ≢ err out_of_fuel
unfolding parse_role_path
parse_role_path-fuel u s = path_loop-fuel u (suc (text_length s)) List.[] s (omega arith)
