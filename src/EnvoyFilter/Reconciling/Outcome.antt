-- ===== src/EnvoyFilter/Reconciling/Outcome.antt =====
-- What a reconciliation of an envoy filter does to the cluster.
use istio_oidc.Common.{
  String, Bool, true, false, List, [], ◌∷◌, Option, none, some, Result, ok, err, panic, ◌≡◌, ◌≢◌,
  ◌⊎◌, inl, inr, refl, arith, Elem, sym, ap, ◌∙◌, subst, Bool-cases, Option-cases, Result-cases,
  or_err, ◌↔◌, not, ◌==◌,
}
use istio_oidc.Net.{UrlLib}
use istio_oidc.Api.{ApiAccessPolicy}
use istio_oidc.AccessPolicy.{AccessPolicy, convert_oidc, credentials, new_policy}
use istio_oidc.Worker.{found}
use istio_oidc.EnvoyFilter.{new_envoy_filter}
use istio_oidc.EnvoyFilter.Reconciling.Duplicates.{IsOrderly, is_duplicate-IsSurvivor}
use istio_oidc.EnvoyFilter.Reconciling.{
  Filter, FilterWrite, delete_filter, update_filter, FilterCluster, is_duplicate, include,
  fetch_access_policies, write_filter, write_policies, reconcile_found, reconcile_filter,
}

or_err-no_panic {ℓ} : {A : Type ℓ} (msg : String) (o : Option A) → or_err msg o ≢ panic
or_err-no_panic msg none = cc
or_err-no_panic msg (some a) = cc

-- Without a secret a resource is a policy or an error.
new_policy-no_panic : (net : UrlLib) (res : ApiAccessPolicy) → new_policy net res none ≢ panic
unfolding new_policy convert_oidc credentials
new_policy-no_panic net res h = elim (Option-cases (net.parse res.spec.oidc.callback_path)) [
  | inl e ↦ ground (arith, e)
  | inr (url, e) ↦ ground (arith, e)
]

module _ (k : FilterCluster) where
  -- The policy of a valid resource that has the filter's selector.
  abbrev pub IsIncluded : Filter → List ApiAccessPolicy → AccessPolicy → Type 0
  IsIncluded ef all pol =
      (res : ApiAccessPolicy) × Elem res all
      × (k.same_labels res.status.selector ef.labels ≡ true)
      × (new_policy k.net res none ≡ ok pol)

  skipped :
      (ef : Filter) (res : ApiAccessPolicy) (all : List ApiAccessPolicy) (pol : AccessPolicy)
      → ¬ (
          (k.same_labels res.status.selector ef.labels ≡ true)
          × (new_policy k.net res none ≡ ok pol))
      → IsIncluded ef (res ∷ all) pol
      → IsIncluded ef all pol
  skipped ef res all pol other (r, inl e, same, made) = absurd (
      other (
        subst (λ (x : ApiAccessPolicy). k.same_labels x.status.selector ef.labels ≡ true) e same,
        subst (λ x. new_policy k.net x none ≡ ok pol) e made,
      ))
  skipped ef res all pol other (r, inr m, same, made) = (r, m, same, made)

  later :
      (ef : Filter) (res : ApiAccessPolicy) (all : List ApiAccessPolicy) (pol : AccessPolicy)
      → IsIncluded ef all pol
      → IsIncluded ef (res ∷ all) pol
  later ef res all pol (r, m, same, made) = (r, inr m, same, made)

  -- What the loop answers for a list of resources.
  abbrev Includes : Filter → List ApiAccessPolicy → Type 0
  Includes ef all =
      (pols : List AccessPolicy) × (include k ef all ≡ ok pols)
      × ((pol : AccessPolicy) → Elem pol pols ↔ IsIncluded ef all pol)

  include_other :
      (ef : Filter) (res : ApiAccessPolicy) (all : List ApiAccessPolicy)
      → k.same_labels res.status.selector ef.labels ≡ false
      → Includes ef all
      → Includes ef (res ∷ all)
  unfolding include
  include_other ef res all other (pols, e, iff) = (
    pols,
    rw other e,
    λ pol. (
      λ m. later ef res all pol ((iff pol).0 m),
      λ h. (iff pol).1 (skipped ef res all pol (λ q. cc (q.0)) h),
    ),
  )

  include_invalid :
      (ef : Filter) (res : ApiAccessPolicy) (all : List ApiAccessPolicy) (msg : String)
      → k.same_labels res.status.selector ef.labels ≡ true
      → new_policy k.net res none ≡ err msg
      → Includes ef all
      → Includes ef (res ∷ all)
  unfolding include
  include_invalid ef res all msg same invalid (pols, e, iff) = (
    pols,
    rw (same, invalid) e,
    λ pol. (
      λ m. later ef res all pol ((iff pol).0 m),
      λ h. (iff pol).1 (skipped ef res all pol (λ q. cc (q.1)) h),
    ),
  )

  include_made :
      (ef : Filter) (res : ApiAccessPolicy) (all : List ApiAccessPolicy) (p : AccessPolicy)
      → k.same_labels res.status.selector ef.labels ≡ true
      → new_policy k.net res none ≡ ok p
      → Includes ef all
      → Includes ef (res ∷ all)
  unfolding include
  include_made ef res all p same made (pols, e, iff) =
      (p ∷ pols, rw (same, made, e) refl, λ pol. (first pol, back pol))
    where
      first : (pol : AccessPolicy) → Elem pol (p ∷ pols) → IsIncluded ef (res ∷ all) pol
      first pol (inl q) = (res, inl refl, same, made ∙ ap (λ x. ok x) (sym q))
      first pol (inr m) = later ef res all pol ((iff pol).0 m)

      back : (pol : AccessPolicy) → IsIncluded ef (res ∷ all) pol → Elem pol (p ∷ pols)
      back pol (r, inl q, s, m) = inl (cc (made, subst (λ x. new_policy k.net x none ≡ ok pol) q m))
      back pol (r, inr m, s, q) = inr ((iff pol).1 (r, m, s, q))

  fetched :
      (ef : Filter) (all : List ApiAccessPolicy) (pols : List AccessPolicy)
      → k.policies ≡ some all
      → include k ef all ≡ ok pols
      → fetch_access_policies k ef ≡ ok pols
  unfolding fetch_access_policies
  fetched ef all pols e h = rw e h

  -- The loop answers the policies of the valid resources with the filter's selector.
  include_lem : (ef : Filter) (all : List ApiAccessPolicy) → Includes ef all
  include_lem ef [] = unfold include in ([], refl, λ pol. (λ m. absurd m, λ h. absurd (h.1)))
  include_lem ef (res ∷ all) = elim (Bool-cases (k.same_labels res.status.selector ef.labels)) [
    | inr other ↦ include_other ef res all other (include_lem ef all)
    | inl same ↦ elim (Result-cases (new_policy k.net res none)) [
      | inl (p, made) ↦ include_made ef res all p same made (include_lem ef all)
      | inr (inl (msg, invalid)) ↦ include_invalid ef res all msg same invalid (include_lem ef all)
      | inr (inr p) ↦ absurd (new_policy-no_panic k.net res p)
    ]
  ]

  -- The filter was deleted: it is a duplicate, or no policy is for it.
  abbrev pub WasDeleted : Filter → List ApiAccessPolicy → List FilterWrite → Type 0
  WasDeleted ef all ws =
      (ws ≡ delete_filter ef ∷ [])
      × ((is_duplicate k ef ≡ ok true) ⊎ ((pol : AccessPolicy) → ¬ IsIncluded ef all pol))

  -- The filter was updated with the patches of the policies that are for it.
  abbrev pub WasUpdated : Filter → List ApiAccessPolicy → List FilterWrite → Type 0
  WasUpdated ef all ws =
      (is_duplicate k ef ≡ ok false)
      × (pols : List AccessPolicy) × (pols ≢ [])
      × (ws ≡ update_filter ef (new_envoy_filter k.settings pols) ∷ [])
      × ((pol : AccessPolicy) → Elem pol pols ↔ IsIncluded ef all pol)

  abbrev pub Outcome : Filter → List ApiAccessPolicy → List FilterWrite × Result (Unit {0}) → Type 0
  Outcome ef all answer =
      (answer.1 ≡ ok tt) × (WasDeleted ef all answer.0 ⊎ WasUpdated ef all answer.0)

  write_policies-Outcome :
      (ef : Filter) (all : List ApiAccessPolicy) (pols : List AccessPolicy)
      → ((w : FilterWrite) → k.accepts w ≡ true)
      → is_duplicate k ef ≡ ok false
      → ((pol : AccessPolicy) → Elem pol pols ↔ IsIncluded ef all pol)
      → Outcome ef all (write_policies k ef pols)
  unfolding write_policies write_filter
  write_policies-Outcome ef all [] accepted single iff =
      rw (accepted (delete_filter ef)) (refl, inl (refl, inr (λ pol q. (iff pol).1 q)))
  write_policies-Outcome ef all (p ∷ pols) accepted single iff =
      rw (accepted (update_filter ef (new_envoy_filter k.settings (p ∷ pols))))
        (refl, inr (single, p ∷ pols, cc, refl, iff))

  reached :
      (ef : Filter) (pols : List AccessPolicy)
      → is_duplicate k ef ≡ ok false
      → fetch_access_policies k ef ≡ ok pols
      → reconcile_found k ef ≡ write_policies k ef pols
  unfolding reconcile_found
  reached ef pols single e = rw (single, e) refl

  reconcile_found-Outcome :
      (ef : Filter) (all : List ApiAccessPolicy) (b : Bool)
      → k.policies ≡ some all
      → ((w : FilterWrite) → k.accepts w ≡ true)
      → is_duplicate k ef ≡ ok b
      → Outcome ef all (reconcile_found k ef)
  unfolding reconcile_found write_filter
  reconcile_found-Outcome ef all true e accepted dup =
      rw (dup, accepted (delete_filter ef)) (refl, inl (refl, inl refl))
  reconcile_found-Outcome ef all false e accepted single =
      let (pols, made, iff) = include_lem ef all in
      subst (Outcome ef all) (sym (reached ef pols single (fetched ef all pols e made)))
        (write_policies-Outcome ef all pols accepted single iff)

  found_filter :
      (namespace name : String) (ef : Filter)
      → k.get_filter namespace name ≡ found ef
      → reconcile_filter k namespace name ≡ reconcile_found k ef
  unfolding reconcile_filter
  found_filter namespace name ef e = rw (e, reconcile_filter) refl

  -- Where the cluster answers and accepts the write, the reconciliation of a listed filter succeeds
  -- with one write. It updates the filter with the patches of exactly those policies that are made of
  -- a valid resource with the filter's selector; if there is no such policy, or the filter is a
  -- duplicate, it deletes the filter.
  pub reconcile_filter-Outcome :
      (namespace name : String) (ef : Filter) (fs : List Filter) (all : List ApiAccessPolicy)
      → IsOrderly k
      → k.get_filter namespace name ≡ found ef
      → k.filters ≡ some fs
      → k.policies ≡ some all
      → Elem ef fs
      → ((w : FilterWrite) → k.accepts w ≡ true)
      → Outcome ef all (reconcile_filter k namespace name)
  reconcile_filter-Outcome namespace name ef fs all orderly e listed policies m accepted =
      let (first, s) = is_duplicate-IsSurvivor k orderly fs ef listed m in
      subst (Outcome ef all) (sym (found_filter namespace name ef e)) (
        reconcile_found-Outcome ef all (not (ef.name == first.name)) policies accepted
          (s.others ef (orderly.same_refl ef.labels)))
