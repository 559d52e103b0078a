-- ===== src/Auth/Roles.antt =====
-- auth/roles.go: whether the roles of a token suffice.
use mathlib.Core.List.{◌++◌}
use Prim.Native.String
use istio_oidc.Common.{
  String, Bool, true, false, List, [], ◌∷◌, map, if◌then◌else◌, ◌==◌, ◌≡◌, refl, arith, ◌↔◌, ◌⊎◌,
  inl, inr, eq_iff, or_else, All, Elem, Bool-cases, Elem-append, Elem-append_left,
  Elem-append_right, sym, ◌∙◌, ap, subst, false≢true,
}
use istio_oidc.Common.Map
use istio_oidc.Common.Map.{GoMap, get-put}

-- `k + v`
abbrev pub joined : String → String → String
joined k v = Prim.Native.String.◌++◌ k v

unfoldable pub resolve_roles : GoMap (List String) → List String
resolve_roles [] = []
resolve_roles ((k, v) ∷ provided) = map (joined k) v ++ resolve_roles provided

-- `found[k] = true` for each of them.
unfoldable pub mark_roles : List String → GoMap Bool → GoMap Bool
mark_roles [] found = found
mark_roles (k ∷ resolved) found = mark_roles resolved (Map.put k true found)

unfoldable pub all_found : List String → GoMap Bool → Bool
all_found [] found = true
all_found (v ∷ required) found =
    let rest = all_found required found in if or_else (Map.get v found) false then rest else false

unfoldable pub has_roles : List String → GoMap (List String) → Bool
unfolding resolve_roles mark_roles all_found
has_roles required provided = all_found required (mark_roles (resolve_roles provided) [])

-- A role is provided: it is a prefix of the map with one of the prefix's roles behind it.
abbrev pub IsProvided : GoMap (List String) → String → Type 0
IsProvided provided role =
    (prefix : String) × (roles : List String) × (suffix : String) × Elem (prefix, roles) provided
    × Elem suffix roles
    × (role ≡ joined prefix suffix)

mark_roles-get :
    (ks : List String) (m : GoMap Bool) (v : String)
    → or_else (Map.get v (mark_roles ks m)) false ≡ true
    → Elem v ks ⊎ (or_else (Map.get v m) false ≡ true)
unfolding mark_roles
mark_roles-get [] m v h = inr h
mark_roles-get (k ∷ ks) m v h = elim (mark_roles-get ks (Map.put k true m) v h) [
  | inl e ↦ inl (inr e)
  | inr e ↦ elim (Bool-cases (k == v)) [
    | inl same ↦ inl (inl (ground (arith, eq_iff k v)))
    | inr other ↦ inr (ground (arith, get-put k v true m))
  ]
]

mark_roles-keeps :
    (ks : List String) (m : GoMap Bool) (v : String)
    → or_else (Map.get v m) false ≡ true
    → or_else (Map.get v (mark_roles ks m)) false ≡ true
unfolding mark_roles
mark_roles-keeps [] m v h = h
mark_roles-keeps (k ∷ ks) m v h =
    mark_roles-keeps ks (Map.put k true m) v (ground (arith, get-put k v true m))

mark_roles-Elem :
    (ks : List String) (m : GoMap Bool) (v : String)
    → Elem v ks
    → or_else (Map.get v (mark_roles ks m)) false ≡ true
unfolding mark_roles
mark_roles-Elem [] m v h = absurd h
mark_roles-Elem (k ∷ ks) m v (inl e) =
    mark_roles-keeps ks (Map.put k true m) v (ground (arith, get-put k v true m, eq_iff k v))
mark_roles-Elem (k ∷ ks) m v (inr e) = mark_roles-Elem ks (Map.put k true m) v e

abbrev no_marks : GoMap Bool
no_marks = []

get_nil : (v : String) → or_else (Map.get v no_marks) false ≡ false
unfolding Map.get
get_nil v = refl

Elem-map :
    (f : String → String) (xs : List String) (y : String)
    → Elem y (map f xs)
    → (x : String) × Elem x xs × (y ≡ f x)
Elem-map f [] y h = absurd h
Elem-map f (x ∷ xs) y (inl e) = (x, inl refl, e)
Elem-map f (x ∷ xs) y (inr e) = let (z, m, q) = Elem-map f xs y e in (z, inr m, q)

map-Elem : (f : String → String) (xs : List String) (x : String) → Elem x xs → Elem (f x) (map f xs)
map-Elem f [] x h = absurd h
map-Elem f (z ∷ xs) x (inl e) = inl (ap f e)
map-Elem f (z ∷ xs) x (inr e) = inr (map-Elem f xs x e)

resolve_roles-IsProvided :
    (provided : GoMap (List String)) (role : String)
    → Elem role (resolve_roles provided)
    → IsProvided provided role
unfolding resolve_roles
resolve_roles-IsProvided [] role h = absurd h
resolve_roles-IsProvided ((k, v) ∷ provided) role h =
    elim (Elem-append role (map (joined k) v) (resolve_roles provided) h) [
      | inl e ↦ let (x, m, q) = Elem-map (joined k) v role e in (k, v, x, inl refl, m, q)
      | inr e ↦
          let (p, rs, x, n, m, q) = resolve_roles-IsProvided provided role e in
          (p, rs, x, inr n, m, q)
    ]

resolve_roles_complete :
    (provided : GoMap (List String)) (prefix : String) (roles : List String) (suffix : String)
    → Elem (prefix, roles) provided
    → Elem suffix roles
    → Elem (joined prefix suffix) (resolve_roles provided)
unfolding resolve_roles
resolve_roles_complete [] prefix roles suffix h m = absurd h
resolve_roles_complete ((k, v) ∷ provided) prefix roles suffix (inl e) m =
    Elem-append_left (joined prefix suffix) (map (joined k) v) (resolve_roles provided) (
      subst (λ p. Elem (joined prefix suffix) (map (joined p.0) p.1)) e
        (map-Elem (joined prefix) roles suffix m))
resolve_roles_complete ((k, v) ∷ provided) prefix roles suffix (inr e) m =
    Elem-append_right (joined prefix suffix) (map (joined k) v) (resolve_roles provided)
      (resolve_roles_complete provided prefix roles suffix e m)

all_found_iff :
    (required : List String) (found : GoMap Bool)
    → all_found required found ≡ true ↔ All (λ v. or_else (Map.get v found) false ≡ true) required
unfolding all_found
all_found_iff [] found = (λ _. tt, λ _. refl)
all_found_iff (v ∷ required) found =
    let (f, g) = all_found_iff required found in
    (λ h. ground (arith, f, g), λ h. ground (arith, f, g))

All-map :
    {P Q : String → Type 0} (f : (s : String) → P s → Q s) (xs : List String) → All P xs → All Q xs
All-map f [] h = tt
All-map f (x ∷ xs) h = (f x h.0, All-map f xs h.1)

-- The roles suffice if and only if each required role is a prefix of the token's map with a role
-- behind it that the token has under that prefix.
pub has_roles_iff :
    (required : List String) (provided : GoMap (List String))
    → (has_roles required provided ≡ true) ↔ All (IsProvided provided) required
unfolding has_roles
has_roles_iff required provided = (
  λ h.
      All-map
        (λ v k. elim (mark_roles-get (resolve_roles provided) [] v k) [
          | inl e ↦ resolve_roles-IsProvided provided v e
          | inr e ↦ absurd (false≢true (sym (get_nil v) ∙ e))
        ])
        required ((all_found_iff required (mark_roles (resolve_roles provided) [])).0 h),
  λ h. (all_found_iff required (mark_roles (resolve_roles provided) [])).1 (
      All-map
        (λ v k.
          let (p, rs, x, n, m, q) = k in
          mark_roles-Elem (resolve_roles provided) [] v (
            subst (λ r. Elem r (resolve_roles provided)) (sym q)
              (resolve_roles_complete provided p rs x n m)))
        required h),
)
