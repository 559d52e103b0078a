-- ===== src/EnvoyFilter/Reconciling.antt =====
-- controller/envoyfilter/reconciler.go and mappers.go: the reconciler of envoy filters, and which
-- filters are reconciled when a policy changes.
pub mod Duplicates
pub mod Outcome
mod Examples
use istio_oidc.Common.{
  ℕ, String, Bool, true, false, not, List, [], ◌∷◌, Option, none, some, Result, ok, err, panic,
  if◌then◌else◌, ◌==◌, ◌>>=◌, select, map,
}
use istio_oidc.Common.Map.{GoMap}
use istio_oidc.Net.{UrlLib}
use istio_oidc.Api.{ApiAccessPolicy}
use istio_oidc.AccessPolicy.{AccessPolicy, new_policy}
use istio_oidc.Worker.{Fetched, found, not_found, failed}
use istio_oidc.EnvoyFilter.{Patch, FilterSettings, new_envoy_filter}

-- An EnvoyFilter resource: its name, when it was created, and its workload selector.
pub record Filter : Type 0 where
  pub namespace : String
  pub name : String
  pub created : ℕ
  pub labels : GoMap String

pub data FilterWrite : Type 0 where
  delete_filter : Filter → FilterWrite
  update_filter : Filter → List Patch → FilterWrite

-- The cluster's answers: `Get`; the filters in Istio's namespace with the configured labels; all
-- policies; and whether it accepts a write. `sort` is `sort.Slice` by the times of creation, and
-- `same_labels` is `reflect.DeepEqual`.
pub record FilterCluster : Type 0 where
  pub net : UrlLib
  pub settings : FilterSettings
  pub get_filter : String → String → Fetched Filter
  pub filters : Option (List Filter)
  pub policies : Option (List ApiAccessPolicy)
  pub accepts : FilterWrite → Bool
  pub sort : List Filter → List Filter
  pub same_labels : GoMap String → GoMap String → Bool

-- `ef.Name != efs[0].Name`
unfoldable pub is_not_first : Filter → List Filter → Result Bool
is_not_first ef [] = panic
is_not_first ef (first ∷ efs) = ok (not (ef.name == first.name))

module _ (k : FilterCluster) where
  -- The filters with the selector of `ef`, in the order of their creation.
  unfoldable pub alike : Filter → List Filter → List Filter
  alike ef all = k.sort (select (λ f. k.same_labels f.labels ef.labels) all)

  unfoldable pub is_duplicate : Filter → Result Bool
  unfolding alike is_not_first
  is_duplicate ef = elim (k.filters) [
    | none ↦ err "failed listing EnvoyFilters"
    | some all ↦ is_not_first ef (alike ef all)
  ]

  -- The loop over the policies: those with the filter's selector, without those that are invalid.
  unfoldable pub include : Filter → List ApiAccessPolicy → Result (List AccessPolicy)
  include ef [] = ok []
  include ef (ap ∷ all) =
      let rest = include ef all in
      if k.same_labels ap.status.selector ef.labels
      then elim (new_policy k.net ap none) [
        | ok pol ↦ rest >>= λ pols. ok (pol ∷ pols)
        | err e ↦ rest
        | panic ↦ panic
      ]
      else rest

  unfoldable pub fetch_access_policies : Filter → Result (List AccessPolicy)
  unfolding include
  fetch_access_policies ef = elim (k.policies) [
    | none ↦ err "failed listing AccessPolicies"
    | some all ↦ include ef all
  ]

  -- A write, and the writes that the cluster has accepted.
  unfoldable pub write_filter : FilterWrite → String → List FilterWrite × Result (Unit {0})
  write_filter w msg = if k.accepts w then (w ∷ [], ok tt) else ([], err msg)

  -- The end of `Reconcile`: a filter without policies is deleted, any other has its patches made anew.
  unfoldable pub write_policies : Filter → List AccessPolicy → List FilterWrite × Result (Unit {0})
  unfolding write_filter
  write_policies ef [] = write_filter (delete_filter ef) "deletion refused"
  write_policies ef (pol ∷ pols) =
      write_filter (update_filter ef (new_envoy_filter k.settings (pol ∷ pols)))
        "failed updating EnvoyFilter"

  abbrev pub or_stop {ℓ} :
      {A : Type ℓ}
      → Result A
      → (A → List FilterWrite × Result (Unit {0}))
      → List FilterWrite × Result (Unit {0})
  or_stop (ok a) next = next a
  or_stop (err e) next = ([], err e)
  or_stop panic next = ([], panic)

  unfoldable pub reconcile_found : Filter → List FilterWrite × Result (Unit {0})
  unfolding is_duplicate write_filter fetch_access_policies write_policies
  reconcile_found ef = or_stop (is_duplicate ef) λ dup.
      if dup
      then write_filter (delete_filter ef) "failed deleting EnvoyFilter"
      else or_stop (fetch_access_policies ef) (write_policies ef)

  -- `Reconcile`
  unfoldable pub reconcile_filter : String → String → List FilterWrite × Result (Unit {0})
  unfolding reconcile_found
  reconcile_filter namespace name = elim (k.get_filter namespace name) [
    | not_found ↦ ([], ok tt)
    | failed ↦ ([], err "failed getting EnvoyFilter")
    | found ef ↦ reconcile_found ef
  ]

  -- `mapper.Map`: the requests for a policy that changed.
  unfoldable pub map_policy : ApiAccessPolicy → List (String × String)
  map_policy ap = elim (k.filters) [
    | none ↦ []
    | some all ↦
        map (λ ef. (ef.namespace, ef.name))
          (select (λ ef. k.same_labels ap.status.selector ef.labels) all)
  ]
