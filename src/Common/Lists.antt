-- ===== src/Common/Lists.antt =====
-- Lists: length over the native numbers, the last element, membership with its proof kept, and
-- what holds of every element.
use Prim.Native.Nat.{ℕ, zero, suc, ◌+◌, ◌<◌, ◌≤◌}
use native.Mathlib.Decide.{dec_lt}
use mathlib.Core.Path.{◌≡◌, refl, sym, subst, ap, ◌∙◌}
use mathlib.Core.Logic.{◌⊎◌, inl, inr}
use mathlib.Core.Bool.{Bool, true, false}
use mathlib.Core.Option.{Option, none, some}
use mathlib.Core.List.{List, [], ◌∷◌, ◌++◌}
use istio_oidc.Common.Tests.{Bool-cases}
use native.Mathlib.Omega.{arith}

module _ {ℓ} {A : Type ℓ} where
  abbrev pub length : List A → ℕ
  length [] = 0
  length (x ∷ xs) = suc (length xs)

  -- `l.Back()` of container/list.
  abbrev pub back : List A → Option A
  back [] = none
  back (x ∷ []) = some x
  back (x ∷ (y ∷ ys)) = back (y ∷ ys)

  abbrev pub get_elem? : List A → ℕ → Option A
  get_elem? [] n = none
  get_elem? (x ∷ xs) zero = some x
  get_elem? (x ∷ xs) (suc n) = get_elem? xs n

  abbrev pub All {κ} : (A → Type κ) → List A → Type κ
  All P [] = Unit
  All P (x ∷ xs) = P x × All P xs

  -- The elements that pass a test, in their order.
  abbrev pub select : (A → Bool) → List A → List A
  select p [] = []
  select p (x ∷ xs) = elim (p x) [ true ↦ x ∷ select p xs | false ↦ select p xs ]

  -- The sum of a weight over the elements.
  abbrev pub sum : (A → ℕ) → List A → ℕ
  sum w [] = 0
  sum w (x ∷ xs) = w x + sum w xs

  pub sum-append : (w : A → ℕ) (xs ys : List A) → sum w (xs ++ ys) ≡ sum w xs + sum w ys
  sum-append w [] ys = omega arith
  sum-append w (x ∷ xs) ys = omega (arith, sum-append w xs ys)

  pub sum_mono : (w v : A → ℕ) → ((x : A) → w x ≤ v x) → (xs : List A) → sum w xs ≤ sum v xs
  sum_mono w v h [] = omega arith
  sum_mono w v h (x ∷ xs) = omega (arith, h x, sum_mono w v h xs)

  -- Where a weight counts, some element has it.
  pub sum_pos :
      (w : A → ℕ) (xs : List A)
      → 0 < sum w xs
      → (before : List A) × (x : A) × (after : List A) × (xs ≡ before ++ (x ∷ after)) × (0 < w x)
  sum_pos w [] h = absurd (omega arith)
  sum_pos w (x ∷ xs) h = elim (dec_lt 0 (w x)) [
    | yes p ↦ ([], x, xs, refl, p)
    | no p ↦
        let (before, y, after, e, q) = sum_pos w xs (omega arith) in
        (x ∷ before, y, after, ap (λ l. x ∷ l) e, q)
  ]

  pub length-append : (xs ys : List A) → length (xs ++ ys) ≡ length xs + length ys
  length-append [] ys = omega arith
  length-append (x ∷ xs) ys = omega (arith, length-append xs ys)

  -- The element behind the first ones is the first of the rest.
  pub get_elem?-append :
      (xs ys : List A) (n : ℕ) → length xs ≡ n → get_elem? (xs ++ ys) n ≡ get_elem? ys 0
  get_elem?-append [] ys zero h = refl
  get_elem?-append [] ys (suc n) h = absurd (omega (arith, h))
  get_elem?-append (x ∷ xs) ys zero h = absurd (omega (arith, h))
  get_elem?-append (x ∷ xs) ys (suc n) h = get_elem?-append xs ys n (omega (arith, h))

  pub back-snoc : (xs : List A) (x : A) → back (xs ++ x ∷ []) ≡ some x
  back-snoc [] x = refl
  back-snoc (y ∷ []) x = refl
  back-snoc (y ∷ (z ∷ zs)) x = back-snoc (z ∷ zs) x

-- The elements of a list, with the place kept. The program's data all stand in `Type 0`.
module _ {A : Type 0} where
  abbrev pub Elem : A → List A → Type 0
  Elem a [] = ⊥
  Elem a (x ∷ xs) = (a ≡ x) ⊎ Elem a xs

  pub Elem-append_left : (a : A) (xs ys : List A) → Elem a xs → Elem a (xs ++ ys)
  Elem-append_left a [] ys h = absurd h
  Elem-append_left a (x ∷ xs) ys (inl e) = inl e
  Elem-append_left a (x ∷ xs) ys (inr m) = inr (Elem-append_left a xs ys m)

  pub Elem-append_right : (a : A) (xs ys : List A) → Elem a ys → Elem a (xs ++ ys)
  Elem-append_right a [] ys h = h
  Elem-append_right a (x ∷ xs) ys h = inr (Elem-append_right a xs ys h)

  pub Elem-append : (a : A) (xs ys : List A) → Elem a (xs ++ ys) → Elem a xs ⊎ Elem a ys
  Elem-append a [] ys h = inr h
  Elem-append a (x ∷ xs) ys (inl e) = inl (inl e)
  Elem-append a (x ∷ xs) ys (inr m) = elim (Elem-append a xs ys m) [
    | inl l ↦ inl (inr l)
    | inr r ↦ inr r
  ]

  pub Elem-All : (P : A → Type 0) (a : A) (xs : List A) → All P xs → Elem a xs → P a
  Elem-All P a [] h m = absurd m
  Elem-All P a (x ∷ xs) h (inl e) = subst P (sym e) h.0
  Elem-All P a (x ∷ xs) h (inr m) = Elem-All P a xs h.1 m

  pub select-hit :
      (p : A → Bool) (x : A) (xs : List A) → p x ≡ true → select p (x ∷ xs) ≡ x ∷ select p xs
  select-hit p x xs h = ground arith

  pub select-miss :
      (p : A → Bool) (x : A) (xs : List A) → p x ≡ false → select p (x ∷ xs) ≡ select p xs
  select-miss p x xs h = ground arith

  -- The elements of a selection are those of the list that pass the test.
  pub select-Elem :
      (p : A → Bool) (a : A) (xs : List A) → Elem a (select p xs) → Elem a xs × (p a ≡ true)
  select-Elem p a [] m = absurd m
  select-Elem p a (x ∷ xs) m = elim (Bool-cases (p x)) [
    | inl hit ↦ here hit (subst (Elem a) (select-hit p x xs hit) m) (select-Elem p a xs)
    | inr miss ↦
        let (rest, h) = select-Elem p a xs (subst (Elem a) (select-miss p x xs miss) m) in
        (inr rest, h)
  ]
    where
      here :
          p x ≡ true
          → (a ≡ x) ⊎ Elem a (select p xs)
          → (Elem a (select p xs) → Elem a xs × (p a ≡ true))
          → Elem a (x ∷ xs) × (p a ≡ true)
      here hit (inl e) ih = (inl e, ap p e ∙ hit)
      here hit (inr m) ih = let (rest, h) = ih m in (inr rest, h)

  pub Elem-select :
      (p : A → Bool) (a : A) (xs : List A) → Elem a xs → p a ≡ true → Elem a (select p xs)
  Elem-select p a [] m h = absurd m
  Elem-select p a (x ∷ xs) (inl e) h = rw (select-hit p x xs (ap p (sym e) ∙ h), Elem) (inl e)
  Elem-select p a (x ∷ xs) (inr m) h = elim (Bool-cases (p x)) [
    | inl hit ↦ rw (select-hit p x xs hit) (inr (Elem-select p a xs m h))
    | inr miss ↦ rw (select-miss p x xs miss) (Elem-select p a xs m h)
  ]

  -- A list with an element has a last one.
  pub back-Elem : (a : A) (xs : List A) → Elem a xs → (z : A) × (back xs ≡ some z)
  back-Elem a [] m = absurd m
  back-Elem a (x ∷ []) m = (x, refl)
  back-Elem a (x ∷ (y ∷ ys)) m = back-Elem y (y ∷ ys) (inl refl)
