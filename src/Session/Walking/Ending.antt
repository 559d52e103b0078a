-- ===== src/Session/Walking/Ending.antt =====
-- The goroutine of a stream comes to its end.
use istio_oidc.Common.{
  ℕ, zero, suc, String, List, [], ◌∷◌, ◌++◌, Option, none, some, ◌≡◌, refl, sym, ap, ◌∙◌, arith,
  length, length-append, get_elem?, get_elem?-append, append_assoc,
}
use istio_oidc.Common.Map.{GoMap}
use istio_oidc.Session.{Stamped, list_of}
use istio_oidc.Session.Walking.{Walk, walk_at, walk_on, walk_for}

module _ (from : GoMap ℕ) where
  pub on_end : (w : Walk) → w.todo ≡ [] → walk_on from w ≡ w
  unfolding walk_on
  on_end w q = rw q refl

  pub on_at :
      (w : Walk) (k : String) (ks : List String) (o : Option Stamped)
      → w.todo ≡ k ∷ ks
      → get_elem? (list_of w.store k) w.position ≡ o
      → walk_on from w ≡ walk_at from w k ks o
  unfolding walk_on
  on_at w k ks o q e = rw (q, e) refl

  abbrev pub Ends : Walk → Type 0
  Ends w = (n : ℕ) × ((walk_for n from w).todo ≡ [])

  walk_on-Ends : (w u : Walk) → walk_on from w ≡ u → Ends u → Ends w
  unfolding walk_for
  walk_on-Ends w u e (n, h) = (suc n, ap (λ x. (walk_for n from x).todo) e ∙ h)

  -- The goroutine comes to the end of a list, and goes on with the next.
  pub list-Ends :
      (rest done : List Stamped) (w : Walk) (k : String) (ks : List String)
      → w.todo ≡ k ∷ ks
      → list_of w.store k ≡ done ++ rest
      → length done ≡ w.position
      → ((u : Walk) → u.todo ≡ ks → u.position ≡ 0 → Ends u)
      → Ends w
  list-Ends [] done w k ks q e p more =
      walk_on-Ends w (walk_at from w k ks none)
        (on_at w k ks none q
          (ap (λ l. get_elem? l w.position) e ∙ get_elem?-append done [] w.position p))
        (more (walk_at from w k ks none) (unfold walk_at in refl) (unfold walk_at in refl))
  list-Ends (v ∷ rest) done w k ks q e p more =
      walk_on-Ends w (walk_at from w k ks (some v))
        (on_at w k ks (some v) q
          (ap (λ l. get_elem? l w.position) e ∙ get_elem?-append done (v ∷ rest) w.position p))
        (list-Ends rest (done ++ v ∷ []) (walk_at from w k ks (some v)) k ks (unfold walk_at in q)
          (unfold walk_at in e ∙ sym (append_assoc done (v ∷ []) rest))
          (unfold walk_at in omega (arith, length-append done (v ∷ []), p)) more)

  pub fresh-Ends : (ks : List String) (w : Walk) → w.todo ≡ ks → w.position ≡ 0 → Ends w
  unfolding walk_for
  fresh-Ends [] w q p = (zero, q)
  fresh-Ends (k ∷ ks) w q p = list-Ends (list_of w.store k) [] w k ks q refl (sym p) (fresh-Ends ks)
