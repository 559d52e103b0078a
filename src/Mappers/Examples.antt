-- ===== src/Mappers/Examples.antt =====
-- Changes of a provider, and the policies that they reach.
use istio_oidc.Common.{false, [], ◌∷◌, some, ◌≡◌, refl}
use istio_oidc.Api.{ApiAccessPolicy}
use istio_oidc.Api.Examples.{shop}
use istio_oidc.Mappers.{Changed, map_provider, op_is_related}
use istio_oidc.Mappers.Relating.{}

abbrev keycloak_changed : Changed
keycloak_changed = record { namespace = "default"; name = "keycloak"; labels = [] }

-- A policy of another namespace with the full reference.
abbrev remote : ApiAccessPolicy
remote = record shop {
  namespace = "shops";
  spec = record (shop.spec) { oidc = record (shop.spec.oidc) { provider = "default/keycloak" } };
}

only_shop : map_provider keycloak_changed (some (shop ∷ remote ∷ [])) ≡ ("default", "shop") ∷ []
unfolding map_provider
only_shop = refl

remote_unrelated : op_is_related keycloak_changed remote ≡ false
unfolding op_is_related
remote_unrelated = refl
