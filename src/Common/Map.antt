-- ===== src/Common/Map.antt =====
-- Go's maps with string keys, as association lists: a program that ranges over a map meets the
-- entries in the order of the list, and the theorems hold for every order.
use text.Mathlib.Text.{◌==◌}
use text.Mathlib.TextEquality.{eq_iff}
use Prim.Native.String.{String}
use mathlib.Core.Path.{◌≡◌, refl}
use mathlib.Core.Logic.{inl, inr}
use mathlib.Core.Bool.{false}
use mathlib.Core.Option.{Option, none, some}
use mathlib.Core.List.{List, [], ◌∷◌}
use native.Mathlib.Omega.{arith}
use istio_oidc.Common.Tests.{if◌then◌else◌, Bool-cases}
use istio_oidc.Common.Lists.{Elem}

abbrev pub GoMap {ℓ} : Type ℓ → Type ℓ
GoMap V = List (String × V)

module _ {ℓ} {V : Type ℓ} where
  -- `x, ok := entries[key]`
  unfoldable pub get : String → GoMap V → Option V
  get key [] = none
  get key ((i, x) ∷ entries) = if i == key then some x else get key entries

  -- `entries[key] = x`
  unfoldable pub put : String → V → GoMap V → GoMap V
  put key x [] = (key, x) ∷ []
  put key x ((i, y) ∷ entries) = if i == key then (key, x) ∷ entries else (i, y) ∷ put key x entries

  -- `delete(entries, key)`
  unfoldable pub remove : String → GoMap V → GoMap V
  remove key [] = []
  remove key ((i, y) ∷ entries) =
      let rest = remove key entries in if i == key then rest else (i, y) ∷ rest

  pub get-put :
      (key other : String) (x : V) (entries : GoMap V)
      → get other (put key x entries) ≡ (if key == other then some x else get other entries)
  unfolding get put
  get-put key other x [] = refl
  get-put key other x ((i, y) ∷ entries) =
      ground (arith, get-put key other x entries, eq_iff i key, eq_iff i other, eq_iff key other)

  pub get-remove :
      (k j : String) (m : GoMap V) → get j (remove k m) ≡ (if k == j then none else get j m)
  unfolding get remove
  get-remove k j [] = ground arith
  get-remove k j ((i, w) ∷ m) = ground (arith, eq_iff k j, eq_iff i k, eq_iff i j, get-remove k j m)

  -- No entry of the map has this key.
  abbrev pub Lacks : String → GoMap V → Type 0
  Lacks k [] = Unit
  Lacks k ((j, v) ∷ m) = ((j == k) ≡ false) × Lacks k m

  -- A map holds each key once.
  abbrev pub Distinct : GoMap V → Type 0
  Distinct [] = Unit
  Distinct ((k, v) ∷ m) = Lacks k m × Distinct m

  pub get-Lacks : (k : String) (m : GoMap V) → Lacks k m → get k m ≡ none
  unfolding get
  get-Lacks k [] h = refl
  get-Lacks k ((j, v) ∷ m) h = rw h.0 (get-Lacks k m h.1)

  pub Lacks-put :
      (i k : String) (v : V) (m : GoMap V) → (k == i) ≡ false → Lacks i m → Lacks i (put k v m)
  unfolding put
  Lacks-put i k v [] ne h = (ne, tt)
  Lacks-put i k v ((j, w) ∷ m) ne h = ground (arith, Lacks-put i k v m ne h.1)

  pub Distinct-put : (k : String) (v : V) (m : GoMap V) → Distinct m → Distinct (put k v m)
  unfolding put
  Distinct-put k v [] d = (tt, tt)
  Distinct-put k v ((j, w) ∷ m) d =
      ground (arith, Distinct-put k v m d.1, eq_iff j k, eq_iff k j, Lacks-put j k v m, d.0)

  pub Lacks-remove : (i k : String) (m : GoMap V) → Lacks i m → Lacks i (remove k m)
  unfolding remove
  Lacks-remove i k [] h = tt
  Lacks-remove i k ((j, w) ∷ m) h = ground (arith, Lacks-remove i k m h.1)

  pub Distinct-remove : (k : String) (m : GoMap V) → Distinct m → Distinct (remove k m)
  unfolding remove
  Distinct-remove k [] d = tt
  Distinct-remove k ((j, w) ∷ m) d = ground (arith, Distinct-remove k m d.1, Lacks-remove j k m d.0)

module _ {V : Type 0} where
  -- An entry of a map with distinct keys is what a look-up of its key finds.
  pub get-Elem : (k : String) (v : V) (m : GoMap V) → Distinct m → Elem (k, v) m → get k m ≡ some v
  unfolding get
  get-Elem k v [] d e = absurd e
  get-Elem k v ((j, w) ∷ m) d (inl e) = ground (arith, eq_iff j k, e)
  get-Elem k v ((j, w) ∷ m) d (inr e) =
      ground (arith, eq_iff j k, get-Lacks j m d.0, get-Elem k v m d.1 e)

  pub Elem-get : (k : String) (v : V) (m : GoMap V) → get k m ≡ some v → Elem (k, v) m
  unfolding get
  Elem-get k v [] e = ground arith
  Elem-get k v ((j, w) ∷ m) e = elim (Bool-cases (j == k)) [
    | inl same ↦ inl (ground (arith, eq_iff j k))
    | inr other ↦ inr (Elem-get k v m (ground arith))
  ]
