-- ===== src/Session/Sweeping/Ending.antt =====
-- A round of cleaning comes to its end.
use istio_oidc.Common.{
  ℕ, zero, suc, ◌+◌, String, ◌≡◌, refl, sym, ap, ◌∙◌, inl, inr, ◌⊎◌, Option, none, some, List, [],
  ◌∷◌, ◌++◌, arith, Bool-cases, get_elem?, get_elem?-append, length, length-append, append_assoc,
}
use istio_oidc.Session.{Stamped, list_of, is_expired}
use istio_oidc.Session.Sweeping.{
  Phase, walking, deleting, relocking, Round, delete_at, sweep_at, sweep_first, sweep_todo,
  sweep_on, sweep_for,
}

module _ (min : ℕ) where
  pub on_done : (r : Round) → r.todo ≡ [] → sweep_on min r ≡ r
  unfolding sweep_on sweep_todo
  on_done r q = ap (sweep_todo min r) q

  pub on_walking :
      (r : Round) (k : String) (ks : List String) (o : Option Stamped)
      → r.todo ≡ k ∷ ks
      → r.phase ≡ walking
      → get_elem? (list_of r.store k) r.position ≡ o
      → sweep_on min r ≡ sweep_at min r ks o
  unfolding sweep_on sweep_todo sweep_first
  on_walking r k ks o q p e =
      ap (sweep_todo min r) q ∙ ap (sweep_first min r k ks) p ∙ ap (sweep_at min r ks) e

  pub on_deleting :
      (r : Round) (k : String) (ks : List String) (v : Stamped)
      → r.todo ≡ k ∷ ks
      → r.phase ≡ deleting v
      → sweep_on min r ≡ record r { store = delete_at r.store k r.position v; phase = relocking }
  unfolding sweep_on sweep_todo sweep_first
  on_deleting r k ks v q p = ap (sweep_todo min r) q ∙ ap (sweep_first min r k ks) p

  pub on_relocking :
      (r : Round) (k : String) (ks : List String)
      → r.todo ≡ k ∷ ks
      → r.phase ≡ relocking
      → sweep_on min r ≡ record r { todo = ks; position = 0; phase = walking }
  unfolding sweep_on sweep_todo sweep_first
  on_relocking r k ks q p = ap (sweep_todo min r) q ∙ ap (sweep_first min r k ks) p

  abbrev Ends : Round → Type 0
  Ends r = (n : ℕ) × ((sweep_for n min r).todo ≡ [])

  sweep_on-Ends : (r u : Round) → sweep_on min r ≡ u → Ends u → Ends r
  unfolding sweep_for
  sweep_on-Ends r u e (n, h) = (suc n, ap (λ x. (sweep_for n min x).todo) e ∙ h)

  -- From each list whose loop is left the round goes on with the next.
  relock-Ends :
      (r : Round) (k : String) (ks : List String)
      → r.todo ≡ k ∷ ks
      → r.phase ≡ relocking
      → ((u : Round) → u.todo ≡ ks → u.phase ≡ walking → u.position ≡ 0 → Ends u)
      → Ends r
  relock-Ends r k ks q p more =
      let u = record r { todo = ks; position = 0; phase = walking } in
      sweep_on-Ends r u (on_relocking r k ks q p) (more u refl refl refl)

  delete-Ends :
      (r : Round) (k : String) (ks : List String) (v : Stamped)
      → r.todo ≡ k ∷ ks
      → r.phase ≡ deleting v
      → ((u : Round) → u.todo ≡ ks → u.phase ≡ walking → u.position ≡ 0 → Ends u)
      → Ends r
  delete-Ends r k ks v q p more =
      let u = record r { store = delete_at r.store k r.position v; phase = relocking } in
      sweep_on-Ends r u (on_deleting r k ks v q p) (relock-Ends u k ks q refl more)

  leave-Ends :
      (r : Round) (k : String) (ks : List String)
      → r.todo ≡ k ∷ ks
      → r.phase ≡ walking
      → get_elem? (list_of r.store k) r.position ≡ none
      → ((u : Round) → u.todo ≡ ks → u.phase ≡ walking → u.position ≡ 0 → Ends u)
      → Ends r
  unfolding sweep_at
  leave-Ends r k ks q p e more =
      let u = record r { todo = ks; position = 0 } in
      sweep_on-Ends r u (on_walking r k ks none q p e) (more u refl p refl)

  list-Ends :
      (rest done : List Stamped) (r : Round) (k : String) (ks : List String)
      → r.todo ≡ k ∷ ks
      → r.phase ≡ walking
      → list_of r.store k ≡ done ++ rest
      → length done ≡ r.position
      → ((u : Round) → u.todo ≡ ks → u.phase ≡ walking → u.position ≡ 0 → Ends u)
      → Ends r
  unfolding sweep_at
  list-Ends [] done r k ks q p e l more =
      leave-Ends r k ks q p
        (ap (λ x. get_elem? x r.position) e ∙ get_elem?-append done [] r.position l) more
  list-Ends (v ∷ rest) done r k ks q p e l more =
      let at =
        on_walking r k ks (some v) q p
          (ap (λ x. get_elem? x r.position) e ∙ get_elem?-append done (v ∷ rest) r.position l) in
      elim (Bool-cases (is_expired min v)) [
        | inl out ↦
            let u = record r { phase = deleting v } in
            sweep_on-Ends r u (at ∙ rw out refl) (delete-Ends u k ks v q refl more)
        | inr fresh ↦
            let u = record r { position = r.position + 1 } in
            sweep_on-Ends r u (at ∙ rw fresh refl) (
              list-Ends rest (done ++ v ∷ []) u k ks q p (e ∙ sym (append_assoc done (v ∷ []) rest))
                (omega (arith, length-append done (v ∷ []), l)) more)
      ]

  fresh-Ends :
      (ks : List String) (r : Round) → r.todo ≡ ks → r.phase ≡ walking → r.position ≡ 0 → Ends r
  unfolding sweep_for
  fresh-Ends [] r q p z = (zero, q)
  fresh-Ends (k ∷ ks) r q p z =
      list-Ends (list_of r.store k) [] r k ks q p refl (sym z) (fresh-Ends ks)

  -- A position is in the list, or behind it.
  in_or_behind :
      (l : List Stamped) (n : ℕ)
      → ((done : List Stamped) × (rest : List Stamped) × (l ≡ done ++ rest) × (length done ≡ n))
        ⊎ (get_elem? l n ≡ none)
  in_or_behind l zero = inl ([], l, refl, refl)
  in_or_behind [] (suc n) = inr refl
  in_or_behind (x ∷ l) (suc n) = elim (in_or_behind l n) [
    | inl (done, rest, e, h) ↦ inl (x ∷ done, rest, ap (λ r. x ∷ r) e, omega (arith, h))
    | inr e ↦ inr e
  ]

  pub round-Ends : (r : Round) → Ends r
  unfolding sweep_for
  round-Ends r = by_todo (r.todo) refl
    where
      by_phase :
          (k : String) (ks : List String) (p : Phase) → r.todo ≡ k ∷ ks → r.phase ≡ p → Ends r
      by_phase k ks walking q e = elim (in_or_behind (list_of r.store k) r.position) [
        | inl (done, rest, s, l) ↦ list-Ends rest done r k ks q e s l (fresh-Ends ks)
        | inr behind ↦ leave-Ends r k ks q e behind (fresh-Ends ks)
      ]
      by_phase k ks (deleting v) q e = delete-Ends r k ks v q e (fresh-Ends ks)
      by_phase k ks relocking q e = relock-Ends r k ks q e (fresh-Ends ks)

      by_todo : (todo : List String) → r.todo ≡ todo → Ends r
      by_todo [] q = (zero, q)
      by_todo (k ∷ ks) q = by_phase k ks (r.phase) q refl
