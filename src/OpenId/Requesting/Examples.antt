-- ===== src/OpenId/Requesting/Examples.antt =====
-- A provider that answers, and one that does not.
use Prim.Native.String.{◌++◌}
use istio_oidc.Common.{String, Option, none, some, ok, err, [], ◌∷◌, ◌≡◌, refl}
use istio_oidc.OpenId.Chars.{is_id_start, is_id_continue}
use istio_oidc.OpenId.Path.{
  parse_role_path, path_loop, identifier, unquoted, starts_id, continues_id, span_id, continue_path,
}
use istio_oidc.OpenId.Provider.{
  OpenIdConfiguration, OpenIdProvider, ApiOpenIdProvider, access_token, from_str_to_const,
  convert_mapping, convert_mappings, parsed_path, new_provider,
}
use istio_oidc.OpenId.Examples.{ascii, keycloak}
use istio_oidc.OpenId.Requesting.{Http, do_json_request, fetch_provider}
use istio_oidc.OpenId.Requesting.Made.{IsAnswered, AreMapped, fetch_provider-IsMade}

abbrev echo : Http
echo = record { Req = String; Body = String; new_request = λ url. some url; send = λ req. some req }

abbrev silent : Http
silent = record { Req = String; Body = String; new_request = λ url. some url; send = λ req. none }

answered : do_json_request echo (λ body. some body) "https://idp" ≡ ok "https://idp"
unfolding do_json_request
answered = refl

unreachable : do_json_request silent (λ body. some body) "https://idp" ≡ err "communication error"
unfolding do_json_request
unreachable = refl

-- A resource with one mapping, and the provider that is made of it.
abbrev resource : ApiOpenIdProvider
resource = record {
  namespace = "default";
  name = "keycloak";
  issuer = "https://idp";
  role_mappings = record { from = ""; prefix = "realm:"; path = "realm.roles" } ∷ [];
}

abbrev provider : OpenIdProvider
provider = record {
  name = "default/keycloak";
  cfg = keycloak.cfg;
  maps = record { from = access_token; prefix = "realm:"; path = "realm" ∷ ("roles" ∷ []) } ∷ [];
}

abbrev read_all : String → Option OpenIdConfiguration
read_all body = some keycloak.cfg

provider_made : fetch_provider echo ascii read_all resource ≡ ok provider
unfolding fetch_provider new_provider do_json_request convert_mappings convert_mapping parsed_path
    from_str_to_const parse_role_path path_loop identifier unquoted starts_id continues_id span_id
    continue_path is_id_start is_id_continue
provider_made = refl

fetch_provider-IsMade_example :
    (provider.name ≡ resource.namespace ++ ("/" ++ resource.name))
    × IsAnswered echo read_all (resource.issuer ++ "/.well-known/openid-configuration") provider.cfg
    × AreMapped ascii resource.role_mappings provider.maps
fetch_provider-IsMade_example =
    fetch_provider-IsMade echo read_all ascii resource provider provider_made
