-- ===== src/Session/Walking/Places.antt =====
-- How far a stream is in each list, and what its steps change of it.
use istio_oidc.Common.{
  ℕ, String, List, [], ◌∷◌, ◌++◌, Option, none, some, ◌≡◌, refl, sym, ap, ◌∙◌, subst, arith, inl,
  inr, Elem, Elem-All, Elem-append_right, length, length-append, get_elem?, get_elem?-append,
  append-nil, append_assoc, Bool-cases, ◌==◌, eq_iff, false,
}
use istio_oidc.Common.Map.{GoMap}
use istio_oidc.Session.{Stamped, SessionStore, list_of, since, set}
use istio_oidc.Session.Invariant.{IsWellFormed, list_of-push_back}
use istio_oidc.Session.Setting.{prepared, stamped, list_of-prepared, set_cases}
use istio_oidc.Session.Keeping.{set-IsWellFormed}
use istio_oidc.Session.Streaming.{
  of_peer, wanted, select-append, Ordered-IsNamed, since-IsNamed, of_peer_all, of_peer_none,
}
use istio_oidc.Session.Walking.{Walk, walk_at}
use istio_oidc.Session.Walking.Names.{Once, tail, first}

-- `Set` keeps each list, with nothing or one session behind it.
pub set-grows :
    (s : SessionStore) (v : Stamped) (k : String)
    → (more : List Stamped) × (list_of (set s v).0 k ≡ list_of s k ++ more)
set-grows s v k =
    let w = stamped s v in
    set_cases (λ t. (more : List Stamped) × (list_of t k ≡ list_of s k ++ more)) s v
      ([], list_of-prepared s v k ∙ sym (append-nil (list_of s k)))
      λ a. elim (Bool-cases (w.peer_id == k)) [
        | inl same ↦ (
          w ∷ [],
          list_of-push_back (prepared s v) w k
              ∙ rw (same, list_of-prepared s v w.peer_id)
                  (ap (λ j. list_of s j ++ w ∷ []) ((eq_iff w.peer_id k).0 same)),
        )
        | inr other ↦ (
          [],
          list_of-push_back (prepared s v) w k
              ∙ rw (other, list_of-prepared s v k, append-nil (list_of s k)) refl,
        )
      ]

module _ (from : GoMap ℕ) (start : SessionStore) (peers : List String) where
  -- How far the goroutine is in the list of `k`: it has passed `done`, and `rest` is left. Before it
  -- reaches the list nothing is passed, and once it has left it all sessions of the start are, if it is one of the lists to walk.
  pub record IsAt (w : Walk) (k : String) : Type 0 where
    pub done : List Stamped
    pub rest : List Stamped
    pub split : list_of w.store k ≡ done ++ rest
    pub told : of_peer k w.sent ≡ since (wanted from k) done
    pub now : (ks : List String) → w.todo ≡ k ∷ ks → length done ≡ w.position
    pub later : (j : String) (ks : List String) → w.todo ≡ j ∷ ks → Elem k ks → done ≡ []
    pub over :
        Elem k peers → ¬ Elem k w.todo → (more : List Stamped) × (done ≡ list_of start k ++ more)

  pub record IsWalking (w : Walk) : Type 0 where
    pub store : IsWellFormed w.store
    pub once : Once w.todo
    pub grown : (k : String) → (more : List Stamped) × (list_of w.store k ≡ list_of start k ++ more)
    pub places : (k : String) → IsAt w k

  call-IsAt :
      (w : Walk) (v : Stamped) (k : String)
      → IsAt w k
      → IsAt (record w { store = (set w.store v).0 }) k
  call-IsAt w v k a =
      let (more, e) = set-grows w.store v k in
      record {
        done = a.done;
        rest = a.rest ++ more;
        split = e ∙ ap (λ l. l ++ more) a.split ∙ append_assoc a.done a.rest more;
        told = a.told;
        now = a.now;
        later = a.later;
        over = a.over;
      }

  pub call-IsWalking :
      (w : Walk) (v : Stamped) → IsWalking w → IsWalking (record w { store = (set w.store v).0 })
  call-IsWalking w v h = record {
    store = set-IsWellFormed w.store v h.store;
    once = h.once;
    grown = λ k.
        let (more, e) = h.grown k in
        let (new, f) = set-grows w.store v k in
        (more ++ new, f ∙ ap (λ l. l ++ new) e ∙ append_assoc (list_of start k) more new);
    places = λ k. call-IsAt w v k (h.places k);
  }

  -- What stands at the position is the first of what is left of the list.
  pub rest_first :
      (w : Walk) (k : String) (ks : List String) (o : Option Stamped) (a : IsAt w k)
      → w.todo ≡ k ∷ ks
      → get_elem? (list_of w.store k) w.position ≡ o
      → get_elem? a.rest 0 ≡ o
  rest_first w k ks o a q e =
      sym (get_elem?-append a.done a.rest w.position (a.now ks q))
      ∙ sym (ap (λ l. get_elem? l w.position) a.split)
      ∙ e

  told_more :
      (k : String) (sent done : List Stamped) (v : Stamped)
      → v.peer_id ≡ k
      → of_peer k sent ≡ since (wanted from k) done
      → of_peer k (sent ++ since (wanted from k) (v ∷ [])) ≡ since (wanted from k) (done ++ v ∷ [])
  told_more k sent done v e h =
      select-append (λ x. x.peer_id == k) sent (since (wanted from k) (v ∷ []))
      ∙ rw
          (
            h,
            of_peer_all k (since (wanted from k) (v ∷ []))
                (since-IsNamed (wanted from k) k (v ∷ []) (e, tt)),
          )
          (unfold since in sym (select-append _ done (v ∷ [])))

  pub named_at :
      (w : Walk) (k : String) (v : Stamped) (rest : List Stamped) (a : IsAt w k)
      → IsWalking w
      → a.rest ≡ v ∷ rest
      → v.peer_id ≡ k
  named_at w k v rest a h e =
      Elem-All (λ x. x.peer_id ≡ k) v (list_of w.store k)
        (Ordered-IsNamed k (list_of w.store k) (h.store.ordered k))
        (subst (Elem v) (sym (a.split ∙ ap (λ l. a.done ++ l) e))
          (Elem-append_right v a.done (v ∷ rest) (inl refl)))

  pub visit-IsAt :
      (w : Walk) (k : String) (ks : List String) (v : Stamped) (rest : List Stamped) (a : IsAt w k)
      → IsWalking w
      → w.todo ≡ k ∷ ks
      → a.rest ≡ v ∷ rest
      → IsAt (walk_at from w k ks (some v)) k
  unfolding walk_at
  visit-IsAt w k ks v rest a h q e =
      let list = a.split ∙ ap (λ l. a.done ++ l) e in
      let once : Once (k ∷ ks) = subst Once q h.once in
      record {
        done = a.done ++ v ∷ [];
        rest = rest;
        split = list ∙ sym (append_assoc a.done (v ∷ []) rest);
        told = told_more k w.sent a.done v (named_at w k v rest a h e) a.told;
        now = λ ks' q'. omega (arith, a.now ks q, length-append a.done (v ∷ []));
        later = λ j ks' q' m. absurd (once.0 (subst (Elem k) (ap tail (sym q' ∙ q)) m));
        over = λ p n. absurd (n (subst (Elem k) (sym q) (inl refl)));
      }

  pub visit_other-IsAt :
      (w : Walk) (k j : String) (ks : List String) (v : Stamped)
      → v.peer_id ≡ k
      → (k == j) ≡ false
      → w.todo ≡ k ∷ ks
      → IsAt w j
      → IsAt (walk_at from w k ks (some v)) j
  unfolding walk_at
  visit_other-IsAt w k j ks v e other q a = record {
    done = a.done;
    rest = a.rest;
    split = a.split;
    told =
        select-append (λ x. x.peer_id == j) w.sent (since (wanted from k) (v ∷ []))
        ∙ rw
            (
              of_peer_none k j (since (wanted from k) (v ∷ [])) other
                  (since-IsNamed (wanted from k) k (v ∷ []) (e, tt)),
              append-nil (of_peer j w.sent),
            )
            a.told;
    now = λ ks' q'. absurd (ground (arith, other, eq_iff k j, ap (first k) (sym q' ∙ q)));
    later = a.later;
    over = a.over;
  }

  pub leave-IsAt :
      (w : Walk) (k : String) (ks : List String) (a : IsAt w k)
      → IsWalking w
      → w.todo ≡ k ∷ ks
      → a.rest ≡ []
      → IsAt (walk_at from w k ks none) k
  unfolding walk_at
  leave-IsAt w k ks a h q e =
      let once : Once (k ∷ ks) = subst Once q h.once in
      let whole = a.split ∙ ap (λ l. a.done ++ l) e ∙ append-nil a.done in
      let (more, g) = h.grown k in
      record {
        done = a.done;
        rest = a.rest;
        split = a.split;
        told = a.told;
        now = λ ks' q'. absurd (once.0 (subst (Elem k) (sym q') (inl refl)));
        later = λ j ks' q' m. absurd (once.0 (subst (Elem k) (sym q') (inr m)));
        over = λ p n. (more, sym whole ∙ g);
      }

  pub leave_other-IsAt :
      (w : Walk) (k j : String) (ks : List String)
      → (k == j) ≡ false
      → w.todo ≡ k ∷ ks
      → IsAt w j
      → IsAt (walk_at from w k ks none) j
  unfolding walk_at
  leave_other-IsAt w k j ks other q a =
      let waits : Elem j ks → a.done ≡ [] = λ m. a.later k ks q m in
      record {
        done = a.done;
        rest = a.rest;
        split = a.split;
        told = a.told;
        now = λ ks' q'. ap length (waits (subst (Elem j) (sym q') (inl refl)));
        later = λ i ks' q' m. waits (subst (Elem j) (sym q') (inr m));
        over = λ p n. a.over p (λ m. not_there n (subst (Elem j) q m));
      }
    where
      not_there : ¬ Elem j ks → ¬ Elem j (k ∷ ks)
      not_there n (inl e) = ground (arith, other, eq_iff k j, e)
      not_there n (inr m) = n m
