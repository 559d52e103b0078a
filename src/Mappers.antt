-- ===== src/Mappers.antt =====
-- controller/accesspolicy/mappers.go: which policies are reconciled when another object changes.
mod Relating
mod Examples
use istio_oidc.Common.{
  String, Bool, true, false, List, [], ◌∷◌, Option, none, some, if◌then◌else◌, ◌==◌, ◌&&◌, ◌||◌,
  not, select, map,
}
use istio_oidc.Common.Map.{GoMap}
use istio_oidc.Api.{ApiAccessPolicy}

-- The object that changed: its metadata, and the labels of its workload selector, which only an envoy
-- filter has.
pub record Changed : Type 0 where
  pub namespace : String
  pub name : String
  pub labels : GoMap String

unfoldable pub gw_is_related : Changed → ApiAccessPolicy → Bool
gw_is_related obj policy = policy.spec.gateway == obj.name

unfoldable pub op_is_related : Changed → ApiAccessPolicy → Bool
op_is_related obj policy = policy.spec.oidc.provider == obj.name

unfoldable pub secret_is_related : Changed → ApiAccessPolicy → Bool
secret_is_related obj policy = policy.spec.oidc.credentials_secret.name == obj.name

-- `same_labels` is `reflect.DeepEqual`.
unfoldable pub ef_is_related :
    (GoMap String → GoMap String → Bool) → Changed → ApiAccessPolicy → Bool
ef_is_related same_labels obj policy = same_labels policy.status.selector obj.labels

-- `m.List` of the policies there are, in the object's namespace only if the mapper is namespaced.
unfoldable pub listed_policies : Bool → Changed → List ApiAccessPolicy → List ApiAccessPolicy
listed_policies namespaced obj all =
    select (λ policy. not namespaced || (policy.namespace == obj.namespace)) all

abbrev pub request_of : ApiAccessPolicy → String × String
request_of policy = (policy.namespace, policy.name)

-- `Map`, by what the cluster answers to the listing: the requests to reconcile.
unfoldable pub map_requests :
    Bool
    → (Changed → ApiAccessPolicy → Bool)
    → Changed
    → Option (List ApiAccessPolicy)
    → List (String × String)
unfolding listed_policies
map_requests namespaced is_related obj none = []
map_requests namespaced is_related obj (some all) =
    map request_of (select (is_related obj) (listed_policies namespaced obj all))

-- The mapper of providers.
unfoldable pub map_provider : Changed → Option (List ApiAccessPolicy) → List (String × String)
unfolding map_requests op_is_related
map_provider obj answer = map_requests true op_is_related obj answer
