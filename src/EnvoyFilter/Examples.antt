-- ===== src/EnvoyFilter/Examples.antt =====
-- A filter of one policy, and the theorems about it.
use istio_oidc.Common.{true, false, ok, ◌⊎◌, [], ◌∷◌, none, some, ◌≡◌, refl, inl, inr, Elem}
use istio_oidc.AccessPolicy.{
  AccessPolicy, Route, find, new_policy, convert_oidc, credentials, convert_routes, convert_route,
}
use istio_oidc.Common.Map
use istio_oidc.Api.{ApiAccessPolicy}
use istio_oidc.Api.Examples.{plain_net, path_only, shop}
use istio_oidc.AccessPolicy.Examples.{shop_policy, shop_secret}
use istio_oidc.EnvoyFilter.ClusterName.{
  parse_istio_cluster_name, match_bars, match_tail, cut_bar, digits, number_of, subset_and_service,
  has_break,
}
use istio_oidc.EnvoyFilter.{FilterSettings, route_patch, new_envoy_filter}
use istio_oidc.EnvoyFilter.Asking.{Asks}
use istio_oidc.EnvoyFilter.Protobuf.{
  text, other, Entries, end, entry, ProtoFields, new_struct, value_of,
}
use istio_oidc.EnvoyFilter.Wire.{read_fields, are_plain, new_struct_lem}
use istio_oidc.EnvoyFilter.Serving.{IsHeld, new_request-asked}
use istio_oidc.EnvoyFilter.Proxy.{sent_of, sent_of-IsSending}
use istio_oidc.OpenId.Provider.{OpenIdProvider}
use istio_oidc.OpenId.Examples.{keycloak}
use istio_oidc.Worker.{with_provider}
use istio_oidc.Auth.{Server, Request}
use istio_oidc.Auth.Examples.{tokens, server}
use istio_oidc.Auth.Messages.{new_request, route_of}
use istio_oidc.EnvoyFilter.Patching.{ArePatched, new_envoy_filter-ArePatched}

istio_name : parse_istio_cluster_name "outbound|8080||auth.istio" ≡ some ("auth.istio", 8080, "")
unfolding parse_istio_cluster_name match_bars match_tail cut_bar digits number_of subset_and_service
    has_break
istio_name = refl

plain_name : parse_istio_cluster_name "auth|x" ≡ none
unfolding parse_istio_cluster_name match_bars match_tail cut_bar digits number_of subset_and_service
    has_break
plain_name = refl

abbrev settings : FilterSettings
settings = record { cluster_name = "auth"; timeout = "1s"; address = λ svc port. svc }

abbrev admin_route : Route
admin_route = record {
  enable_authz = true;
  roles = "realm:admin" ∷ [];
  headers = record { name = "x-role"; value = "admin"; roles = [] } ∷ [];
}

abbrev hosted : AccessPolicy
hosted = record shop_policy { virtual_hosts = "shop.example:443" ∷ [] }

abbrev hosted_shop : ApiAccessPolicy
hosted_shop = record shop {
  status = record { selector = []; virtual_hosts = "shop.example:443" ∷ [] };
}

-- The policy as the reconciler of filters makes it, without the secret.
abbrev filtered : AccessPolicy
filtered = record hosted {
  oidc = record (shop_policy.oidc) { client_id = ""; client_secret = ""; token_secret = "" };
}

filtered_made : new_policy plain_net hosted_shop none ≡ ok filtered
unfolding new_policy convert_oidc credentials convert_routes convert_route Map.get Map.put
filtered_made = refl

hosted_made : new_policy plain_net hosted_shop (some shop_secret) ≡ ok hosted
unfolding new_policy convert_oidc credentials convert_routes convert_route Map.get Map.put
hosted_made = refl

admin-Elem :
    Elem
      (route_patch filtered "shop.example:443" "admin" admin_route)
      (new_envoy_filter settings (filtered ∷ []))
unfolding new_envoy_filter
admin-Elem = inr (inr (inr (inl refl)))

admin-Asks :
    Asks (route_patch filtered "shop.example:443" "admin" admin_route) "default/shop" "admin"
unfolding route_patch
admin-Asks = refl

abbrev serving : Server
serving = record server {
  policies = record { dict = ("default/shop", with_provider keycloak hosted) ∷ [] };
}

serving-find : find "default/shop" serving.policies ≡ some (with_provider keycloak hosted)
unfolding find Map.get
serving-find = refl

filtered-IsHeld : IsHeld plain_net serving filtered
filtered-IsHeld =
    (hosted_shop, shop_secret, keycloak, hosted, filtered_made, hosted_made, serving-find)

new_request-asked_example :
    (fields : ProtoFields) × (req : Request) × (pol : AccessPolicy) × (op : OpenIdProvider)
    × (new_struct (value_of (route_patch filtered "shop.example:443" "admin" admin_route).value)
        ≡ some fields)
    × (new_request tokens serving "https://shop.example/orders" "" "" (sent_of fields) ≡ ok req)
    × Elem pol (filtered ∷ [])
    × (pol.name ≡ "default/shop")
    × (req.policy.name ≡ "default/shop")
    × (req.policy.oidc.provider ≡ some op)
    × (route_of req.policy "admin" ≡ some req.route)
    × (req.route.enable_authz ≡ true)
new_request-asked_example =
    new_request-asked tokens serving plain_net sent_of settings (filtered ∷ [])
      (route_patch filtered "shop.example:443" "admin" admin_route) "default/shop" "admin"
      "https://shop.example/orders" "" "" (path_only "https://shop.example/orders")
      sent_of-IsSending (filtered-IsHeld, tt) admin-Elem admin-Asks refl

-- A value with a number in it, which `newStruct` does not take.
abbrev timed : Entries
timed = entry "name" (text "auth") (entry "timeout" other end)

new_struct_lem_example :
    ((fields : ProtoFields) × (new_struct timed ≡ some fields)
      × (read_fields fields ≡ timed)
      × (are_plain timed ≡ true))
    ⊎ ((new_struct timed ≡ none) × (are_plain timed ≡ false))
new_struct_lem_example = new_struct_lem timed

-- A policy without named routes.
abbrev plain : AccessPolicy
plain = record hosted { routes = [] }

new_envoy_filter-ArePatched_example :
    ArePatched plain "shop.example:443" (new_envoy_filter settings (hosted ∷ (plain ∷ [])))
new_envoy_filter-ArePatched_example =
    new_envoy_filter-ArePatched settings (hosted ∷ (plain ∷ [])) plain "shop.example:443"
      (inr (inl refl)) (inl refl)
