-- ===== src/Session/Sweeping/Keeping.antt =====
-- What a round of cleaning keeps, whatever calls of `Set` come in.
use istio_oidc.Common.{
  ℕ, zero, suc, String, ◌≡◌, refl, sym, ap, ◌∙◌, subst, inl, inr, ◌⊎◌, Option, none, some, List, [],
  ◌∷◌, ◌++◌, Elem, Elem-append_left, Bool-cases, true, get_elem?, Elem-append, eq_iff, ◌==◌,
  if◌then◌else◌,
}
use istio_oidc.Session.{Session, get, Stamped, SessionStore, list_of, is_expired, set}
use istio_oidc.Session.Invariant.{IsWellFormed, list_of-push_back}
use istio_oidc.Session.Keeping.{set-IsWellFormed}
use istio_oidc.Session.Walking.Places.{set-grows}
use istio_oidc.Session.Sweeping.{
  Phase, walking, deleting, relocking, Round, start_round, sweep_for, delete_at, sweep_at, sweep_on,
  go, call, meet, Reach, here, next,
}
use istio_oidc.Session.Walking.Names.{first}
use istio_oidc.Session.Sweeping.Ending.{on_walking, on_deleting, on_relocking, on_done, round-Ends}
use istio_oidc.Session.Sweeping.Deleting.{
  Elem-delete_at, delete_at-Elem, delete_at-IsWellFormed, get-delete_at_other,
}
use istio_oidc.Session.Setting.{
  prepared, stamped, list_of-prepared, session-assign, set_cases, set_outcome,
}

-- A list that grows has its elements at their positions.
get_elem?-grows :
    (l more : List Stamped) (n : ℕ) (v : Stamped)
    → get_elem? l n ≡ some v
    → get_elem? (l ++ more) n ≡ some v
get_elem?-grows [] more n v e = absurd (cc)
get_elem?-grows (x ∷ l) more zero v e = e
get_elem?-grows (x ∷ l) more (suc n) v e = get_elem?-grows l more n v e

set-get_elem? :
    (s : SessionStore) (v w : Stamped) (k : String) (n : ℕ)
    → get_elem? (list_of s k) n ≡ some w
    → get_elem? (list_of (set s v).0 k) n ≡ some w
set-get_elem? s v w k n e =
    let (more, g) = set-grows s v k in
    ap (λ l. get_elem? l n) g ∙ get_elem?-grows (list_of s k) more n w e

set-Elem :
    (s : SessionStore) (v w : Stamped) (k : String)
    → Elem w (list_of s k)
    → Elem w (list_of (set s v).0 k)
set-Elem s v w k m =
    let (more, g) = set-grows s v k in
    subst (Elem w) (sym g) (Elem-append_left w (list_of s k) more m)

no_aim : (w : Stamped) → ¬ (walking ≡ deleting w)
no_aim w e = cc

relocks : (w : Stamped) → ¬ (relocking ≡ deleting w)
relocks w e = cc

aim_inj : (v w : Stamped) → deleting v ≡ deleting w → v ≡ w
aim_inj v w e = cc

get_elem?-Elem : (l : List Stamped) (n : ℕ) (v : Stamped) → get_elem? l n ≡ some v → Elem v l
get_elem?-Elem [] n v e = absurd (cc)
get_elem?-Elem (x ∷ l) zero v e = inl (cc)
get_elem?-Elem (x ∷ l) (suc n) v e = inr (get_elem?-Elem l n v e)

-- A session that `Set` puts into a list has the id of the one that it was given.
set-origin :
    (s : SessionStore) (v w : Stamped) (k : String)
    → Elem w (list_of (set s v).0 k)
    → Elem w (list_of s k) ⊎ (w.id ≡ v.id)
set-origin s v w k m =
    set_cases (λ t. Elem w (list_of t k) → Elem w (list_of s k) ⊎ (w.id ≡ v.id)) s v
      (λ n. inl (subst (Elem w) (list_of-prepared s v k) n))
      (λ a n. pushed (list_of-push_back _ _ k) n) m
  where
    in_pushed :
        Elem w (list_of (prepared s v) (stamped s v).peer_id ++ stamped s v ∷ [])
        → Elem w (list_of s (stamped s v).peer_id) ⊎ (w.id ≡ v.id)
    in_pushed n =
        elim (Elem-append w (list_of (prepared s v) (stamped s v).peer_id) (stamped s v ∷ []) n) [
          | inl old ↦ inl (subst (Elem w) (list_of-prepared s v (stamped s v).peer_id) old)
          | inr (inl e) ↦
              inr (ap (λ (x : Stamped). x.id) e ∙ ap (λ (x : Session). x.id) (session-assign s v))
          | inr (inr m') ↦ absurd m'
        ]

    pushed :
        {l : List Stamped}
        → l ≡ (
            if (stamped s v).peer_id == k
            then list_of (prepared s v) (stamped s v).peer_id ++ stamped s v ∷ []
            else list_of (prepared s v) k)
        → Elem w l
        → Elem w (list_of s k) ⊎ (w.id ≡ v.id)
    pushed e n = elim (Bool-cases ((stamped s v).peer_id == k)) [
      | inl same ↦
          subst (λ i. Elem w (list_of s i) ⊎ (w.id ≡ v.id)) ((eq_iff _ k).0 same)
            (in_pushed (rw same at (subst (Elem w) e n)))
      | inr other ↦ inl (subst (Elem w) (list_of-prepared s v k) (rw other at (subst (Elem w) e n)))
    ]

-- `Set` changes the look-up of the id that it is given at most.
set-get_other :
    (s : SessionStore) (v : Stamped) (id : String) → (v.id ≡ id) ⊎ (get (set s v).0 id ≡ get s id)
set-get_other s v id = elim (set_outcome s v) [
  | inl (last, b, le, refused) ↦ inr (refused.gets id)
  | inr (a, accepted) ↦ elim (Bool-cases ((stamped s v).id == id)) [
    | inl same ↦ inl (sym (ap (λ (x : Session). x.id) (session-assign s v)) ∙ (eq_iff _ id).0 same)
    | inr other ↦ inr (accepted.gets id ∙ rw other refl)
  ]
]

-- A session of this id that has run out stands in a list.
abbrev pub HasExpired : ℕ → SessionStore → String → Type 0
HasExpired min s id =
    (k : String) × (v : Stamped) × Elem v (list_of s k) × (v.id ≡ id) × (is_expired min v ≡ true)

-- A call of `Set` in the run was given a session of this id.
abbrev pub IsGiven : {min : ℕ} {r u : Round} → String → Reach min r u → Type 0
IsGiven id here = ⊥
IsGiven id (next r go) = IsGiven id r
IsGiven id (next r (call v free)) = (v.id ≡ id) ⊎ IsGiven id r
IsGiven id (next r (meet k)) = IsGiven id r

module _ (min : ℕ) (start : SessionStore) where
  -- The session that is about to be deleted has run out and stands at the position.
  abbrev IsAimed : Round → Stamped → Type 0
  IsAimed r v =
      (k : String) × (ks : List String) × (r.todo ≡ k ∷ ks)
      × (get_elem? (list_of r.store k) r.position ≡ some v)
      × (is_expired min v ≡ true)

  -- What holds at a step, where `Given` are the ids that came in.
  record IsSweeping (Given : String → Type 0) (r : Round) : Type 0 where
    store : IsWellFormed r.store
    kept :
        (k : String) (w : Stamped)
        → Elem w (list_of start k)
        → Elem w (list_of r.store k) ⊎ (is_expired min w ≡ true)
    origin :
        (k : String) (w : Stamped)
        → Elem w (list_of r.store k)
        → Elem w (list_of start k) ⊎ Given w.id
    found : (id : String) → (get r.store id ≡ get start id) ⊎ (Given id ⊎ HasExpired min start id)
    aimed : (v : Stamped) → r.phase ≡ deleting v → IsAimed r v

  call-IsSweeping :
      {Given : String → Type 0} (r : Round) (v : Stamped)
      → IsSweeping Given r
      → IsSweeping (λ id. (v.id ≡ id) ⊎ Given id) (record r { store = (set r.store v).0 })
  call-IsSweeping r v h = record {
    store = set-IsWellFormed r.store v h.store;
    kept = λ k w m. elim (h.kept k w m) [
      | inl there ↦ inl (set-Elem r.store v w k there)
      | inr out ↦ inr out
    ];
    origin = λ k w m. elim (set-origin r.store v w k m) [
      | inl old ↦ elim (h.origin k w old) [ inl first ↦ inl first | inr given ↦ inr (inr given) ]
      | inr same ↦ inr (inl (sym same))
    ];
    found = λ id. elim (set-get_other r.store v id) [
      | inl same ↦ inr (inl (inl same))
      | inr other ↦ elim (h.found id) [
        | inl e ↦ inl (other ∙ e)
        | inr (inl given) ↦ inr (inl (inr given))
        | inr (inr out) ↦ inr (inr out)
      ]
    ];
    aimed = λ w p.
        let (k, ks, q, e, out) = h.aimed w p in
        (k, ks, q, set-get_elem? r.store v w k r.position e, out);
  }

  meet-IsSweeping :
      {Given : String → Type 0} (r : Round) (j : String)
      → IsSweeping Given r
      → IsSweeping Given (record r { todo = r.todo ++ j ∷ [] })
  meet-IsSweeping r j h = record {
    store = h.store;
    kept = h.kept;
    origin = h.origin;
    found = h.found;
    aimed = λ w p.
        let (k, ks, q, e, out) = h.aimed w p in (k, ks ++ j ∷ [], ap (λ l. l ++ j ∷ []) q, e, out);
  }

  visit-IsSweeping :
      {Given : String → Type 0} (r : Round) (k : String) (ks : List String) (o : Option Stamped)
      → IsSweeping Given r
      → r.phase ≡ walking
      → r.todo ≡ k ∷ ks
      → get_elem? (list_of r.store k) r.position ≡ o
      → IsSweeping Given (sweep_at min r ks o)
  unfolding sweep_at
  visit-IsSweeping r k ks none h p q e = record {
    store = h.store;
    kept = h.kept;
    origin = h.origin;
    found = h.found;
    aimed = λ w p'. absurd (no_aim w (sym p ∙ p'));
  }
  visit-IsSweeping r k ks (some v) h p q e = elim (Bool-cases (is_expired min v)) [
    | inl out ↦ rw out (record {
      store = h.store;
      kept = h.kept;
      origin = h.origin;
      found = h.found;
      aimed = λ w p'.
          let same : v ≡ w = aim_inj v w p' in
          (k, ks, q, e ∙ ap (λ x. some x) same, subst (λ x. is_expired min x ≡ true) same out);
    })
    | inr fresh ↦ rw fresh (record {
      store = h.store;
      kept = h.kept;
      origin = h.origin;
      found = h.found;
      aimed = λ w p'. absurd (no_aim w (sym p ∙ p'));
    })
  ]

  delete-IsSweeping :
      {Given : String → Type 0} (r : Round) (k : String) (ks : List String) (v : Stamped)
      → IsSweeping Given r
      → r.todo ≡ k ∷ ks
      → get_elem? (list_of r.store k) r.position ≡ some v
      → is_expired min v ≡ true
      → IsSweeping Given (record r { store = delete_at r.store k r.position v; phase = relocking })
  delete-IsSweeping {Given} r k ks v h q e out = record {
    store = delete_at-IsWellFormed r.store k r.position v e h.store;
    kept = λ j w m. elim (h.kept j w m) [
      | inl there ↦ elim (Elem-delete_at r.store k r.position v w j e there) [
        | inl same ↦ inr (ap (is_expired min) same ∙ out)
        | inr still ↦ inl still
      ]
      | inr gone ↦ inr gone
    ];
    origin = λ j w m. h.origin j w (delete_at-Elem r.store k r.position v w j m);
    found = λ id. elim (Bool-cases (v.id == id)) [
      | inl same ↦ inr (elim (h.origin k v (get_elem?-Elem (list_of r.store k) r.position v e)) [
        | inl first ↦ inr (k, v, first, (eq_iff v.id id).0 same, out)
        | inr given ↦ inl (subst Given ((eq_iff v.id id).0 same) given)
      ])
      | inr other ↦ elim (h.found id) [
        | inl g ↦ inl (get-delete_at_other r.store k r.position v id other ∙ g)
        | inr lost ↦ inr lost
      ]
    ];
    aimed = λ w p'. absurd (relocks w p');
  }

  relock-IsSweeping :
      {Given : String → Type 0} (r : Round) (ks : List String)
      → IsSweeping Given r
      → IsSweeping Given (record r { todo = ks; position = 0; phase = walking })
  relock-IsSweeping r ks h = record {
    store = h.store;
    kept = h.kept;
    origin = h.origin;
    found = h.found;
    aimed = λ w p. absurd (no_aim w p);
  }

  go-IsSweeping :
      {Given : String → Type 0} (r : Round) → IsSweeping Given r → IsSweeping Given (sweep_on min r)
  go-IsSweeping {Given} r h = by_todo (r.todo) refl
    where
      by_phase :
          (k : String) (ks : List String) (p : Phase)
          → r.todo ≡ k ∷ ks
          → r.phase ≡ p
          → IsSweeping Given (sweep_on min r)
      by_phase k ks walking q e =
          subst (IsSweeping Given) (sym (on_walking min r k ks _ q e refl))
            (visit-IsSweeping r k ks _ h e q refl)
      by_phase k ks (deleting v) q e =
          let (j, js, q', found, out) = h.aimed v e in
          let same : j ≡ k = ap (first k) (sym q' ∙ q) in
          subst (IsSweeping Given) (sym (on_deleting min r k ks v q e)) (
            delete-IsSweeping r k ks v h q
              (subst (λ i. get_elem? (list_of r.store i) r.position ≡ some v) same found) out)
      by_phase k ks relocking q e =
          subst (IsSweeping Given) (sym (on_relocking min r k ks q e)) (relock-IsSweeping r ks h)

      by_todo : (todo : List String) → r.todo ≡ todo → IsSweeping Given (sweep_on min r)
      by_todo [] q = subst (IsSweeping Given) (sym (on_done min r q)) h
      by_todo (k ∷ ks) q = by_phase k ks (r.phase) q refl

  Reach-IsSweeping :
      {r u : Round} (run : Reach min r u)
      → IsSweeping (λ id. ⊥) r
      → IsSweeping (λ id. IsGiven id run) u
  Reach-IsSweeping here h = h
  Reach-IsSweeping (next {t} r go) h = go-IsSweeping t (Reach-IsSweeping r h)
  Reach-IsSweeping (next {t} r (call v free)) h = call-IsSweeping t v (Reach-IsSweeping r h)
  Reach-IsSweeping (next {t} r (meet k)) h = meet-IsSweeping t k (Reach-IsSweeping r h)

-- Whatever calls of `Set` come in, a round of cleaning keeps the store well formed at each of its
-- steps, and from any of them it comes to its end. No session goes from its list that has not run
-- out. A look-up finds the same as at the start, unless a call of `Set` that came in was given a
-- session of its id, or one of its id that has run out stood in a list at the start.
pub round_keeps :
    (min : ℕ) (s : SessionStore) (r : Round) (run : Reach min (start_round s) r)
    → IsWellFormed s
    → IsWellFormed r.store
      × ((k : String) (w : Stamped)
          → Elem w (list_of s k)
          → Elem w (list_of r.store k) ⊎ (is_expired min w ≡ true))
      × ((id : String) → (get r.store id ≡ get s id) ⊎ (IsGiven id run ⊎ HasExpired min s id))
      × (n : ℕ) × ((sweep_for n min r).todo ≡ [])
round_keeps min s r run h =
    let start : IsSweeping min s (λ id. ⊥) (start_round s) = record {
      store = h;
      kept = λ k w m. inl m;
      origin = λ k w m. inl m;
      found = λ id. inl refl;
      aimed = λ w p. absurd (no_aim w p);
    } in
    let last = Reach-IsSweeping min s run start in
    let (n, ended) = round-Ends min r in (last.store, last.kept, last.found, n, ended)
