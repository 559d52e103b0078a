-- ===== src/AccessPolicy/Examples.antt =====
-- The theorems about policies and their store at concrete ones.
use Prim.Native.String
use istio_oidc.Common.{String, true, false, [], ◌∷◌, none, some, ok, ◌≡◌, refl}
use istio_oidc.Common.Map
use istio_oidc.Common.Map.{GoMap}
use istio_oidc.Api.Examples.{plain_net, path_only, shop}
use istio_oidc.AccessPolicy.{
  AccessPolicy, PolicyStore, initial_route, convert_route, convert_routes, credentials,
  convert_oidc, new_policy,
}
use istio_oidc.AccessPolicy.Lookup.{last_named, converted, route_or, new_policy_lem}

abbrev pub shop_secret : GoMap String
shop_secret = ("clientID", "shop") ∷ ("clientSecret", "s3cret") ∷ ("tokenKey", "key") ∷ []

abbrev pub shop_policy : AccessPolicy
shop_policy = record {
  name = "default/shop";
  oidc = record {
    provider = none;
    client_id = "shop";
    client_secret = "s3cret";
    token_secret = "key";
    callback = path_only "/callback";
  };
  default_route = initial_route;
  routes =
      (
        "admin",
        record {
          enable_authz = true;
          roles = "realm:admin" ∷ [];
          headers = record { name = "x-role"; value = "admin"; roles = [] } ∷ [];
        },
      )
      ∷ ("open", record { enable_authz = false; roles = []; headers = [] })
      ∷ [];
  virtual_hosts = [];
}

pub shop_made : new_policy plain_net shop (some shop_secret) ≡ ok shop_policy
unfolding new_policy convert_oidc credentials convert_routes convert_route Map.get Map.put
shop_made = refl

new_policy_lem_example :
    (shop_policy.name
      ≡ Prim.Native.String.◌++◌ shop.namespace (Prim.Native.String.◌++◌ "/" shop.name))
    × (shop_policy.default_route ≡ route_or (last_named "" shop.spec.routes) initial_route)
    × (Map.get "admin" shop_policy.routes ≡ converted (last_named "admin" shop.spec.routes) none)
new_policy_lem_example =
    new_policy_lem plain_net shop (some shop_secret) shop_policy "admin" shop_made refl

abbrev pub one_policy : PolicyStore
one_policy = record { dict = ("default/shop", shop_policy) ∷ [] }
