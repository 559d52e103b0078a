-- ===== src/Api/Examples.antt =====
-- Resources, and the theorems about the api package at them.
use istio_oidc.Common.{String, true, false, [], ◌∷◌, none, some, ◌≡◌, ◌≢◌, ◌↔◌, refl}
use istio_oidc.Net.{Url, UrlLib}
use istio_oidc.Api.{CredentialsSecret, ApiRoute, ApiAccessPolicy}
use istio_oidc.Api.Provider.{
  some_chars, all_chars, is_namespace_char, is_name_char, match_provider, cut_slash,
}
use istio_oidc.Api.Validation.{validate_spec, DistinctNames, validate_spec_iff}

-- An address whose text is its path, with no query.
abbrev pub path_only : String → Url
path_only s = record { origin = ""; path = s; raw_query = "" }

abbrev pub plain_net : UrlLib
plain_net = record {
  parse = λ s. some (path_only s);
  query = λ url. [];
  encode = λ values. "";
  resolve = λ base ref. ref.path;
  request_uri = λ url. url.path;
}

abbrev pub secret_ref : CredentialsSecret
secret_ref = record {
  name = "credentials";
  client_id_key = "clientID";
  client_secret_key = "clientSecret";
  token_secret_key = "tokenKey";
}

abbrev pub admin_route : ApiRoute
admin_route = record {
  name = "admin";
  roles = "realm:admin" ∷ [];
  headers = record { name = "x-role"; roles = []; value = "admin" } ∷ [];
  disable_enforcement = false;
}

abbrev pub open_route : ApiRoute
open_route = record { name = "open"; roles = []; headers = []; disable_enforcement = true }

abbrev pub shop : ApiAccessPolicy
shop = record {
  namespace = "default";
  name = "shop";
  deleting = false;
  finalizers = [];
  spec = record {
    gateway = "ingress";
    oidc = record {
      provider = "keycloak";
      credentials_secret = secret_ref;
      callback_path = "/callback";
    };
    routes = admin_route ∷ open_route ∷ [];
  };
  status = record { selector = []; virtual_hosts = [] };
}

keycloak_matches : match_provider "idp/keycloak" ≡ some ("idp", "keycloak")
unfolding match_provider cut_slash some_chars all_chars is_name_char is_namespace_char
keycloak_matches = refl

validate_spec_iff_example : (validate_spec plain_net shop.spec [] ≡ []) ↔ (
    (match_provider shop.spec.oidc.provider ≢ none)
    × (plain_net.parse shop.spec.oidc.callback_path ≢ none)
    × DistinctNames shop.spec.routes)
validate_spec_iff_example = validate_spec_iff plain_net shop.spec
