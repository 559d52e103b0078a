-- ===== src/Session/Keeping.antt =====
-- `Set` keeps the store well formed.
use istio_oidc.Common.{
  String, some, ◌≡◌, refl, sym, inl, inr, [], ◌∷◌, ◌++◌, arith, back, Elem, Elem-append_left,
  Elem-append_right, Bool-cases, if◌then◌else◌, ◌==◌, eq_iff, subst, ◌∙◌,
}
use istio_oidc.Common.Map.{Distinct, Distinct-put}
use istio_oidc.Session.{
  Session, Stamped, SessionStore, get, list_of, assign, ensure, push_back, set,
}
use istio_oidc.Session.Invariant.{
  Above, Ordered, IsBacked, IsWellFormed, Ordered-snoc, list_of-push_back, get-push_back,
}
use istio_oidc.Session.Setting.{prepared, stamped, list_of-prepared, get-prepared, set_cases}

Distinct-prepared :
    (s : SessionStore) (v : Stamped) → Distinct s.store → Distinct (prepared s v).store
unfolding ensure assign
Distinct-prepared s v d =
    ground (arith, d, Distinct-put (stamped s v).peer_id [] (assign s v).0.store)

Distinct-push_back :
    (t : SessionStore) (w : Stamped) → Distinct t.store → Distinct (push_back t w).store
unfolding push_back
Distinct-push_back t w d = Distinct-put _ _ _ d

-- A session that was backed stays so when a list grows.
IsBacked-grows :
    (s t : SessionStore) (w : Stamped) (id : String) (sess : Session)
    → ((k : String)
        → list_of t k ≡ (if w.peer_id == k then list_of s w.peer_id ++ w ∷ [] else list_of s k))
    → IsBacked s id sess
    → IsBacked t id sess
IsBacked-grows s t w id sess grows (v, e, i, m) = elim (Bool-cases (w.peer_id == v.peer_id)) [
  | inl same ↦ (
    v,
    e,
    i,
    rw (grows v.peer_id, same)
        (Elem-append_left v _ _ (subst (λ k. Elem v (list_of s k)) (sym ((eq_iff _ _).0 same)) m)),
  )
  | inr other ↦ (v, e, i, rw (grows v.peer_id, other) m)
]

pushed-Elem :
    (s t : SessionStore) (w : Stamped)
    → list_of t w.peer_id ≡ list_of s w.peer_id ++ w ∷ []
    → Elem w (list_of t w.peer_id)
pushed-Elem s t w e = rw e (Elem-append_right w (list_of s w.peer_id) (w ∷ []) (inl refl))

-- The same sessions in a store with the same lists.
IsWellFormed-prepared :
    (s : SessionStore) (v : Stamped) → IsWellFormed s → IsWellFormed (prepared s v)
IsWellFormed-prepared s v h = record {
  distinct = Distinct-prepared s v h.distinct;
  ordered = λ k. rw (list_of-prepared s v k) (h.ordered k);
  backed = λ id sess e.
      let (w, q, i, m) = h.backed id sess (sym (get-prepared s v id) ∙ e) in
      (w, q, i, rw (list_of-prepared s v w.peer_id) m);
}

IsWellFormed-push_back :
    (t : SessionStore) (w : Stamped)
    → IsWellFormed t
    → Above (back (list_of t w.peer_id)) w.serial
    → IsWellFormed (push_back t w)
IsWellFormed-push_back t w h a = record {
  distinct = Distinct-push_back t w h.distinct;
  ordered = ordered;
  backed = backed;
}
  where
    ordered : (k : String) → Ordered k (list_of (push_back t w) k)
    ordered k = elim (Bool-cases (w.peer_id == k)) [
      | inl same ↦
          rw (list_of-push_back t w k, same)
            (Ordered-snoc k (list_of t w.peer_id) w
              (subst (λ j. Ordered j (list_of t w.peer_id)) ((eq_iff _ _).0 same)
                (h.ordered w.peer_id))
              ((eq_iff _ _).0 same) a)
      | inr other ↦ rw (list_of-push_back t w k, other) (h.ordered k)
    ]

    self : list_of (push_back t w) w.peer_id ≡ list_of t w.peer_id ++ w ∷ []
    self = rw (list_of-push_back t w w.peer_id) (ground (arith, eq_iff w.peer_id w.peer_id))

    backed :
        (id : String) (sess : Session)
        → get (push_back t w) id ≡ some sess
        → IsBacked (push_back t w) id sess
    backed id sess e = elim (Bool-cases (w.id == id)) [
      | inl same ↦ (
        w,
        ground (arith, get-push_back t w id),
        (eq_iff _ _).0 same,
        pushed-Elem t (push_back t w) w self,
      )
      | inr other ↦
          IsBacked-grows t (push_back t w) w id sess (list_of-push_back t w)
            (h.backed id sess (ground (arith, get-push_back t w id)))
    ]

-- `Set` keeps the store well formed, whatever session it is given.
pub set-IsWellFormed : (s : SessionStore) (v : Stamped) → IsWellFormed s → IsWellFormed (set s v).0
set-IsWellFormed s v h = set_cases IsWellFormed s v (IsWellFormed-prepared s v h) λ a.
    IsWellFormed-push_back _ _ (IsWellFormed-prepared s v h) (
      subst (λ l. Above (back l) (stamped s v).serial)
        (sym (list_of-prepared s v (stamped s v).peer_id)) a)
