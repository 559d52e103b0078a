-- ===== src/Session/Sweeping/Deleting.antt =====
-- `delete` of the session store.
use istio_oidc.Common.{
  ℕ, zero, suc, String, ◌≡◌, sym, ap, subst, inl, inr, ◌⊎◌, some, List, [], ◌∷◌, arith, Elem,
  Bool-cases, if◌then◌else◌, ◌==◌, eq_iff, false, or_else, get_elem?,
}
use istio_oidc.Common.Map
use istio_oidc.Common.Map.{GoMap, Distinct, Distinct-put, get-put, get-remove}
use istio_oidc.Session.{Session, Stamped, SessionStore, get, list_of}
use istio_oidc.Session.Invariant.{After, Ordered, IsWellFormed}
use istio_oidc.Session.Sweeping.{remove_at, delete_at}

After-remove_at : (m : ℕ) (l : List Stamped) (n : ℕ) → After m l → After m (remove_at l n)
unfolding remove_at
After-remove_at m [] n a = tt
After-remove_at m (v ∷ l) zero a = a.1
After-remove_at m (v ∷ l) (suc n) a = (a.0, After-remove_at m l n a.1)

Ordered-remove_at :
    (k : String) (l : List Stamped) (n : ℕ) → Ordered k l → Ordered k (remove_at l n)
unfolding remove_at
Ordered-remove_at k [] n o = tt
Ordered-remove_at k (v ∷ l) zero o = o.2
Ordered-remove_at k (v ∷ l) (suc n) o =
    (o.0, After-remove_at v.serial l n o.1, Ordered-remove_at k l n o.2)

-- Only the element at the position goes.
Elem-remove_at :
    (w v : Stamped) (l : List Stamped) (n : ℕ)
    → get_elem? l n ≡ some v
    → Elem w l
    → (w ≡ v) ⊎ Elem w (remove_at l n)
unfolding remove_at
Elem-remove_at w v [] n e m = absurd m
Elem-remove_at w v (x ∷ l) zero e (inl m) = inl (cc)
Elem-remove_at w v (x ∷ l) zero e (inr m) = inr m
Elem-remove_at w v (x ∷ l) (suc n) e (inl m) = inr (inl m)
Elem-remove_at w v (x ∷ l) (suc n) e (inr m) = elim (Elem-remove_at w v l n e m) [
  | inl same ↦ inl same
  | inr there ↦ inr (inr there)
]

list_of-delete_at :
    (s : SessionStore) (k : String) (n : ℕ) (v : Stamped) (j : String)
    → list_of (delete_at s k n v) j ≡ (if k == j then remove_at (list_of s k) n else list_of s j)
unfolding list_of delete_at
list_of-delete_at s k n v j =
    ground (arith, get-put k j (remove_at (or_else (Map.get k s.store) []) n) s.store)

get-delete_at :
    (s : SessionStore) (k : String) (n : ℕ) (v : Stamped) (id : String) (sess : Session)
    → get (delete_at s k n v) id ≡ some sess
    → (get s id ≡ some sess) × ((v.id == id) ≡ false)
unfolding get delete_at
get-delete_at s k n v id sess e = ground (arith, get-remove v.id id s.found, e)

-- The look-up of another id stays.
pub get-delete_at_other :
    (s : SessionStore) (k : String) (n : ℕ) (v : Stamped) (id : String)
    → (v.id == id) ≡ false
    → get (delete_at s k n v) id ≡ get s id
unfolding get delete_at
get-delete_at_other s k n v id ne = ground (arith, get-remove v.id id s.found, ne)

remove_at-Elem : (w : Stamped) (l : List Stamped) (n : ℕ) → Elem w (remove_at l n) → Elem w l
unfolding remove_at
remove_at-Elem w [] n m = m
remove_at-Elem w (v ∷ l) zero m = inr m
remove_at-Elem w (v ∷ l) (suc n) (inl e) = inl e
remove_at-Elem w (v ∷ l) (suc n) (inr m) = inr (remove_at-Elem w l n m)

-- A deletion adds nothing to a list.
pub delete_at-Elem :
    (s : SessionStore) (k : String) (n : ℕ) (v w : Stamped) (j : String)
    → Elem w (list_of (delete_at s k n v) j)
    → Elem w (list_of s j)
delete_at-Elem s k n v w j m = elim (Bool-cases (k == j)) [
  | inl same ↦
      subst (λ i. Elem w (list_of s i)) ((eq_iff k j).0 same)
        (remove_at-Elem w (list_of s k) n (rw (list_of-delete_at s k n v j, same) at m))
  | inr other ↦ rw (list_of-delete_at s k n v j, other) at m
]

-- A session stays in its list, unless it is the one that is deleted.
pub Elem-delete_at :
    (s : SessionStore) (k : String) (n : ℕ) (v w : Stamped) (j : String)
    → get_elem? (list_of s k) n ≡ some v
    → Elem w (list_of s j)
    → (w ≡ v) ⊎ Elem w (list_of (delete_at s k n v) j)
Elem-delete_at s k n v w j e m = elim (Bool-cases (k == j)) [
  | inl same ↦
      rw (list_of-delete_at s k n v j, same)
        (Elem-remove_at w v (list_of s k) n e
          (subst (λ i. Elem w (list_of s i)) (sym ((eq_iff k j).0 same)) m))
  | inr other ↦ rw (list_of-delete_at s k n v j, other) (inr m)
]

kept_if_other :
    (w v : Stamped) (l : List Stamped) → (v.id == w.id) ≡ false → (w ≡ v) ⊎ Elem w l → Elem w l
kept_if_other w v l ne (inl e) =
    absurd (ground (arith, ne, eq_iff v.id w.id, ap (λ (x : Stamped). x.id) e))
kept_if_other w v l ne (inr m) = m

pub delete_at-IsWellFormed :
    (s : SessionStore) (k : String) (n : ℕ) (v : Stamped)
    → get_elem? (list_of s k) n ≡ some v
    → IsWellFormed s
    → IsWellFormed (delete_at s k n v)
delete_at-IsWellFormed s k n v e h = record {
  distinct = unfold delete_at in Distinct-put k (remove_at (list_of s k) n) s.store h.distinct;
  ordered = λ j. elim (Bool-cases (k == j)) [
    | inl same ↦
        rw (list_of-delete_at s k n v j, same)
          (subst (λ i. Ordered i (remove_at (list_of s k) n)) ((eq_iff k j).0 same)
            (Ordered-remove_at k (list_of s k) n (h.ordered k)))
    | inr other ↦ rw (list_of-delete_at s k n v j, other) (h.ordered j)
  ];
  backed = λ id sess g.
      let (before, ne) = get-delete_at s k n v id sess g in
      let (w, q, i, m) = h.backed id sess before in
      (
        w,
        q,
        i,
        kept_if_other w v (list_of (delete_at s k n v) w.peer_id)
            (subst (λ j. (v.id == j) ≡ false) (sym i) ne) (Elem-delete_at s k n v w w.peer_id e m),
      );
}
