-- ===== src/Worker/Examples.antt =====
-- A reconciliation in a concrete cluster, and the theorems at it.
use Prim.Native.String
use istio_oidc.Common.{String, [], ◌∷◌, some, ok, ◌==◌, ◌≡◌, ◌⊎◌, refl, if◌then◌else◌}
use istio_oidc.Common.Map
use istio_oidc.Common.Map.{GoMap}
use istio_oidc.Api.Provider
use istio_oidc.Api.Provider.{match_provider}
use istio_oidc.Api.Examples.{plain_net, shop}
use istio_oidc.OpenId.Provider.{
  ApiOpenIdProvider, OpenIdProvider, new_provider, convert_mappings, convert_mapping,
}
use istio_oidc.OpenId.Examples.{ascii, keycloak}
use istio_oidc.AccessPolicy.{
  new_policy_store, find, update_policy, delete_policy, new_policy, convert_oidc, credentials,
  convert_routes, convert_route,
}
use istio_oidc.AccessPolicy.Examples.{shop_secret, shop_policy}
use istio_oidc.Worker.{
  Cluster, Worker, with_provider, found, store_policy, make_policy, read_credentials,
  reconcile_auth, delete_auth,
}
use istio_oidc.Worker.Reconciling.{IsReported, IsStored, reconcile_auth_outcome, delete_auth-find}

abbrev keycloak_resource : ApiOpenIdProvider
keycloak_resource = record {
  namespace = "default";
  name = "keycloak";
  issuer = "https://idp";
  role_mappings = [];
}

abbrev cluster : Cluster
cluster = record {
  policies = λ ns name. found shop;
  providers = λ ns name. found keycloak_resource;
  secrets = λ ns name. found shop_secret;
  configuration = λ uri. ok keycloak.cfg;
  net = plain_net;
  tables = ascii;
}

abbrev idle : Worker
idle = record { store = new_policy_store; events = [] }

abbrev keycloak_provider : OpenIdProvider
keycloak_provider = record { name = "default/keycloak"; cfg = keycloak.cfg; maps = [] }

abbrev busy : Worker
busy = record {
  store = record { dict = ("default/shop", with_provider keycloak_provider shop_policy) ∷ [] };
  events = [];
}

shop_reconciled : reconcile_auth cluster shop idle ≡ ok busy
unfolding reconcile_auth read_credentials make_policy store_policy match_provider Provider.cut_slash
    Provider.some_chars Provider.all_chars Provider.is_name_char Provider.is_namespace_char
    new_policy convert_oidc credentials convert_routes convert_route new_provider convert_mappings
    convert_mapping update_policy Map.get Map.put
shop_reconciled = refl

reconcile_auth_outcome_example :
    IsReported idle busy
    ⊎ ((groups : String × String) × (op : ApiOpenIdProvider) × (cred : GoMap String)
        × (match_provider shop.spec.oidc.provider ≡ some groups)
        × (cluster.providers (if groups.0 == "" then shop.namespace else groups.0) groups.1
            ≡ found op)
        × (cluster.secrets shop.namespace shop.spec.oidc.credentials_secret.name ≡ found cred)
        × IsStored cluster shop op cred idle busy)
reconcile_auth_outcome_example = reconcile_auth_outcome cluster shop idle busy shop_reconciled

shop_stays : find "default/shop" (delete_auth shop busy).store ≡ find "default/shop" busy.store
unfolding find delete_auth delete_policy Map.get Map.remove
shop_stays = refl

delete_auth-find_example :
    find
      (Prim.Native.String.◌++◌ shop.namespace (Prim.Native.String.◌++◌ "/" shop.name))
      (delete_auth shop busy).store
    ≡ find
        (Prim.Native.String.◌++◌ shop.namespace (Prim.Native.String.◌++◌ "/" shop.name))
        busy.store
delete_auth-find_example = delete_auth-find shop busy
