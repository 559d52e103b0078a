-- ===== src/Worker.antt =====
-- controller/accesspolicy/worker.go: the reconciler that keeps the store of policies up to date.
pub mod Reconciling
mod Examples
use Prim.Native.String.{◌++◌}
use istio_oidc.Common.{
  ℕ, String, Bool, true, false, List, [], ◌∷◌, Option, none, some, Result, ok, err, panic,
  if◌then◌else◌, ◌==◌,
}
use istio_oidc.Common.Map.{GoMap}
use istio_oidc.Net.{UrlLib}
use istio_oidc.Api.{ApiAccessPolicy}
use istio_oidc.Api.Provider.{match_provider}
use istio_oidc.OpenId.Chars.{UnicodeTables}
use istio_oidc.OpenId.Provider.{
  OpenIdConfiguration, OpenIdProvider, ApiOpenIdProvider, new_provider,
}
use istio_oidc.AccessPolicy.{AccessPolicy, PolicyStore, new_policy, update_policy, delete_policy}

-- What the client of the cluster answers.
pub data Fetched (A : Type 0) : Type 0 where
  found : A → Fetched A
  not_found : Fetched A
  failed : Fetched A

-- The cluster and the network: the client's `Get` for each kind of resource, by namespace and name,
-- the providers' configuration, net/url and the tables of `unicode`.
pub record Cluster : Type 0 where
  pub policies : String → String → Fetched ApiAccessPolicy
  pub providers : String → String → Fetched ApiOpenIdProvider
  pub secrets : String → String → Fetched (GoMap String)
  pub configuration : String → Result OpenIdConfiguration
  pub net : UrlLib
  pub tables : UnicodeTables

-- The reconciler's store, and the reasons of the events it recorded.
pub record Worker : Type 0 where
  pub store : PolicyStore
  pub events : List String

abbrev pub event : String → Worker → Worker
event reason w = record w { events = reason ∷ w.events }

abbrev pub with_provider : OpenIdProvider → AccessPolicy → AccessPolicy
with_provider op pol = record pol { oidc = record (pol.oidc) { provider = some op } }

-- The last step: the new policy gets the new provider and is stored.
unfoldable pub store_policy : AccessPolicy → Result OpenIdProvider → Worker → Result Worker
store_policy pol (ok op) w = ok (record w { store = update_policy (with_provider op pol) w.store })
store_policy pol (err e) w = ok (event "Invalid" w)
store_policy pol panic w = panic

unfoldable pub make_policy :
    Cluster → ApiAccessPolicy → ApiOpenIdProvider → GoMap String → Worker → Result Worker
unfolding store_policy
make_policy k ap op cred w = elim (new_policy k.net ap (some cred)) [
  | ok pol ↦ store_policy pol (new_provider k.tables k.configuration op) w
  | err e ↦ ok (event "Invalid" w)
  | panic ↦ panic
]

-- With the provider at hand, the secret.
unfoldable pub read_credentials :
    Cluster → ApiAccessPolicy → Fetched ApiOpenIdProvider → Worker → Result Worker
unfolding make_policy
read_credentials k ap (found op) w =
    elim (k.secrets ap.namespace ap.spec.oidc.credentials_secret.name) [
      | found cred ↦ make_policy k ap op cred w
      | _ ↦ ok (event "MissingCredentials" w)
    ]
read_credentials k ap not_found w = ok (event "MissingProvider" w)
read_credentials k ap failed w = ok (event "MissingProvider" w)

-- A reference without a namespace is one to the policy's own.
abbrev pub provider_key : String → String × String → String × String
provider_key namespace (ns, name) = (if ns == "" then namespace else ns, name)

unfoldable pub reconcile_auth : Cluster → ApiAccessPolicy → Worker → Result Worker
unfolding read_credentials
reconcile_auth k ap w = elim (match_provider ap.spec.oidc.provider) [
  | none ↦ ok (event "InvalidProvider" w)
  | some groups ↦
      let (ns, name) = provider_key ap.namespace groups in
      read_credentials k ap (k.providers ns name) w
]

unfoldable pub delete_auth : ApiAccessPolicy → Worker → Worker
delete_auth ap w = record w { store = delete_policy ap.name w.store }

unfoldable pub reconcile : Cluster → String → String → Worker → Result Worker
unfolding reconcile_auth delete_auth
reconcile k namespace name w = elim (k.policies namespace name) [
  | not_found ↦ ok w
  | failed ↦ err "failed getting AccessPolicy"
  | found ap ↦ if ap.deleting then ok (delete_auth ap w) else reconcile_auth k ap w
]
