-- ===== src/Leader/Living.antt =====
-- What the leader makes of a policy that is not being deleted.
use istio_oidc.Common.{
  String, true, false, List, [], ◌∷◌, ◌++◌, some, Result, ok, eqb, length, if◌then◌else◌, ◌≡◌, ◌⊎◌,
  inl, inr, refl, arith, Elem, Bool-cases, eq_refl, sym, subst,
}
use istio_oidc.Common.Map.{GoMap}
use istio_oidc.Api.{ApiAccessPolicy, normalize}
use istio_oidc.Api.Validation.{validate_spec}
use istio_oidc.OpenId.Chars.{text_length}
use istio_oidc.Worker.{found}
use istio_oidc.Leader.{
  LeaderCluster, Leader, Gateway, Write, update_policy, update_status, create_filter, write,
  contains, finalizer, add_finalizer, remove_finalizer, validation_events, reconcile_spec,
  virtual_hosts, reconcile_status, reconcile_secret, some_filter, reconcile_envoy_filter,
  reconcile_live, reconcile_leader, event, ◌>>>◌,
}
use istio_oidc.Leader.Secrets.{renew_secret-IsRenewed}

-- The policy with the finalizer, and with its defaults.
abbrev pub with_finalizer : ApiAccessPolicy → ApiAccessPolicy
with_finalizer pol = record pol {
  finalizers =
      if contains pol.finalizers finalizer
      then pol.finalizers
      else pol.finalizers ++ finalizer ∷ [];
}

abbrev pub specified : ApiAccessPolicy → ApiAccessPolicy
specified pol = record (with_finalizer pol) { spec = normalize (with_finalizer pol).spec }

contains-append : (xs : List String) (target : String) → contains (xs ++ target ∷ []) target ≡ true
unfolding contains
contains-append [] target = rw (eq_refl target) refl
contains-append (x ∷ xs) target = ground (arith, contains-append xs target)

with_finalizer_lem :
    (pol : ApiAccessPolicy) → contains (with_finalizer pol).finalizers finalizer ≡ true
with_finalizer_lem pol = ground (arith, contains-append pol.finalizers finalizer)

module _ (k : LeaderCluster) where
  -- A step succeeds with a value, and keeps the writes before it.
  abbrev Grows {ℓ} : {A : Type ℓ} → Leader → Leader × Result A → A → Leader → Type ℓ
  Grows l r a m = (r ≡ (m, ok a)) × ((w : Write) → Elem w l.writes → Elem w m.writes)

  -- The policy with the status of its gateway.
  abbrev pub exposed : ApiAccessPolicy → Gateway → ApiAccessPolicy
  exposed pol gw = record (specified pol) {
    status = record { selector = gw.selector; virtual_hosts = virtual_hosts k gw.servers };
  }

  add_finalizer-Grows :
      (pol : ApiAccessPolicy) (l : Leader)
      → pol.deleting ≡ false
      → ((w : Write) → k.accepts w ≡ true)
      → (m : Leader) × Grows l (add_finalizer k pol l) (with_finalizer pol) m
  unfolding add_finalizer write
  add_finalizer-Grows pol l live accepted = elim (Bool-cases (contains pol.finalizers finalizer)) [
    | inl has ↦ (l, (rw (live, has) refl, λ w e. e))
    | inr lacks ↦
        let pol' = record pol { finalizers = pol.finalizers ++ finalizer ∷ [] } in
        (
          record l { writes = update_policy pol' ∷ l.writes },
          (ground (arith, live, lacks, accepted (update_policy pol')), λ w e. inr e),
        )
  ]

  validation_events-writes :
      (errs : List String) (l : Leader) → (validation_events k errs l).writes ≡ l.writes
  validation_events-writes [] l = refl
  validation_events-writes (e ∷ errs) l = validation_events-writes errs (event "Validation" l)

  -- A write that is accepted is the latest of the writes.
  write-Grows :
      (w : Write) (msg : String) (l : Leader)
      → k.accepts w ≡ true
      → Grows l (write k w msg l) tt (record l { writes = w ∷ l.writes })
  unfolding write
  write-Grows w msg l e = (rw e refl, λ v m. inr m)

  >>>-Grows :
      {A B : Type 0} (l m n : Leader) (r : Leader × Result A) (a : A)
      (f : Leader → A → Leader × Result B) (b : B)
      → Grows l r a m
      → Grows m (f m a) b n
      → Grows l (r >>> f) b n
  >>>-Grows l m n r a f b (e, keep) (e', keep') = (rw e e', λ w h. keep' w (keep w h))

  reconcile_spec-Grows :
      (pol : ApiAccessPolicy) (l : Leader)
      → ((w : Write) → k.accepts w ≡ true)
      → (m : Leader) × Grows l (reconcile_spec k pol l) (record pol { spec = normalize pol.spec }) m
        × Elem (update_policy (record pol { spec = normalize pol.spec })) m.writes
  unfolding reconcile_spec write
  reconcile_spec-Grows pol l accepted =
      let pol' = record pol { spec = normalize pol.spec } in
      let told = validation_events k (validate_spec k.net pol.spec []) l in
      (
        record told { writes = update_policy pol' ∷ told.writes },
        (
          rw (accepted (update_policy pol')) refl,
          λ w h. inr (
              subst (Elem w) (sym (validation_events-writes (validate_spec k.net pol.spec []) l))
                h),
        ),
        inl refl,
      )

  reconcile_status-Grows :
      (pol : ApiAccessPolicy) (gw : Gateway) (l : Leader)
      → k.gateways pol.namespace pol.spec.gateway ≡ found gw
      → ((w : Write) → k.accepts w ≡ true)
      → (m : Leader) × Grows l
          (reconcile_status k pol l)
          (record pol {
            status = record { selector = gw.selector; virtual_hosts = virtual_hosts k gw.servers };
          })
          m
        × Elem
            (update_status (record pol {
              status = record {
                selector = gw.selector;
                virtual_hosts = virtual_hosts k gw.servers;
              };
            }))
            m.writes
  unfolding reconcile_status write
  reconcile_status-Grows pol gw l e accepted =
      let pol' = record pol {
        status = record { selector = gw.selector; virtual_hosts = virtual_hosts k gw.servers };
      } in
      (
        record l { writes = update_status pol' ∷ l.writes },
        (ground (arith, e, accepted (update_status pol')), λ w h. inr h),
        inl refl,
      )

  reconcile_secret-Grows :
      (pol : ApiAccessPolicy) (data' : GoMap String) (fresh : String) (l : Leader)
      → k.secrets pol.namespace pol.spec.oidc.credentials_secret.name ≡ found (some data')
      → k.random_key ≡ some fresh
      → text_length fresh ≡ 64
      → ((w : Write) → k.accepts w ≡ true)
      → (m : Leader) × Grows l (reconcile_secret k pol l) tt m
  unfolding reconcile_secret
  reconcile_secret-Grows pol data' fresh l e r long accepted =
      let (out, m, made, writes, _) =
        renew_secret-IsRenewed k pol data' fresh "" l r long accepted in
      (m, (rw (e, reconcile_secret) made, λ w h. subst (Elem w) (sym writes) (inr h)))

  -- The proxy of the gateway has a filter, or the policy has no gateway's selector.
  abbrev pub HasFilter : GoMap String → List (GoMap String) → List Write → Type 0
  HasFilter selector all writes =
      (length selector ≡ 0)
      ⊎ (some_filter k selector all ≡ true)
      ⊎ Elem (create_filter selector) writes

  reconcile_envoy_filter-Grows :
      (pol : ApiAccessPolicy) (all : List (GoMap String)) (l : Leader)
      → k.filters ≡ some all
      → ((w : Write) → k.accepts w ≡ true)
      → (m : Leader) × Grows l (reconcile_envoy_filter k pol l) tt m
        × HasFilter pol.status.selector all m.writes
  unfolding reconcile_envoy_filter write
  reconcile_envoy_filter-Grows pol all l e accepted =
      let selector = pol.status.selector in
      elim (Bool-cases (eqb (length selector) 0)) [
        | inl none_at_all ↦ (l, (rw none_at_all refl, λ w h. h), inl (ground arith))
        | inr some_label ↦ elim (Bool-cases (some_filter k selector all)) [
          | inl there ↦ (l, (rw (some_label, e, there) refl, λ w h. h), inr (inl there))
          | inr lacks ↦ (
            record l { writes = create_filter selector ∷ l.writes },
            (rw (some_label, e, lacks, accepted (create_filter selector)) refl, λ w h. inr h),
            inr (inr (inl refl)),
          )
        ]
      ]

  -- A policy that is not being deleted, with its gateway, its secret and random bytes at hand, and a
  -- cluster that accepts writes: the reconciliation succeeds. It has written the policy with the
  -- finalizer and the defaults, and the status with the hosts and the selector of the gateway; and
  -- there is a filter with that selector, or it made one, unless the selector is empty.
  pub reconcile_leader-live :
      (pol : ApiAccessPolicy) (gw : Gateway) (data' : GoMap String) (all : List (GoMap String))
      (fresh : String) (l : Leader)
      → pol.deleting ≡ false
      → k.gateways pol.namespace pol.spec.gateway ≡ found gw
      → k.secrets pol.namespace pol.spec.oidc.credentials_secret.name ≡ found (some data')
      → k.filters ≡ some all
      → k.random_key ≡ some fresh
      → text_length fresh ≡ 64
      → ((w : Write) → k.accepts w ≡ true)
      → (m : Leader) × (reconcile_leader k (found pol) l ≡ (m, ok tt))
        × (contains (specified pol).finalizers finalizer ≡ true)
        × Elem (update_policy (specified pol)) m.writes
        × Elem (update_status (exposed pol gw)) m.writes
        × HasFilter gw.selector all m.writes
  unfolding reconcile_leader reconcile_live normalize
  reconcile_leader-live pol gw data' all fresh l live gateway secret filters random long accepted =
      let (m1, g1) = add_finalizer-Grows pol l live accepted in
      let (m2, g2, wrote) = reconcile_spec-Grows (with_finalizer pol) m1 accepted in
      let (m3, g3, told) = reconcile_status-Grows (specified pol) gw m2 gateway accepted in
      let (m4, g4) =
        reconcile_secret-Grows (exposed pol gw) data' fresh m3 secret random long accepted in
      let (m5, g5, has) = reconcile_envoy_filter-Grows (exposed pol gw) all m4 filters accepted in
      let p = with_finalizer pol in
      let all_steps : Grows m1 (reconcile_live k p m1) tt m5 =
        >>>-Grows m1 m2 m5 (reconcile_spec k p m1) (specified pol)
          (λ m p'. reconcile_status k p' m >>> λ n q.
            reconcile_secret k q n >>> λ o _. reconcile_envoy_filter k q o)
          tt g2
          (>>>-Grows m2 m3 m5 (reconcile_status k (specified pol) m2) (exposed pol gw)
            (λ n q. reconcile_secret k q n >>> λ o _. reconcile_envoy_filter k q o) tt g3
            (>>>-Grows m3 m4 m5 (reconcile_secret k (exposed pol gw) m3) tt
              (λ o _. reconcile_envoy_filter k (exposed pol gw) o) tt g4 g5)) in
      let whole =
        >>>-Grows l m1 m5 (add_finalizer k pol l) p
          (λ m q. if q.deleting then remove_finalizer k q m else reconcile_live k q m) tt g1
          (subst
            (λ b. Grows m1 (if b then remove_finalizer k p m1 else reconcile_live k p m1) tt m5)
            (sym live) all_steps) in
      (
        m5,
        whole.0,
        with_finalizer_lem pol,
        g5.1 _ (g4.1 _ (g3.1 _ wrote)),
        g5.1 _ (g4.1 _ told),
        has,
      )
