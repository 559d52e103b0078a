-- ===== src/OpenId/Provider.antt =====
-- state/openidprovider/struct.go and convert.go: a provider, made of its Kubernetes resource.
use istio_oidc.Common.{
  String, List, [], ◌∷◌, Option, none, some, Result, ok, err, panic, ◌>>=◌, wrap, or_err,
  if◌then◌else◌, ◌==◌,
}
use Prim.Native.String.{◌++◌}
use istio_oidc.OpenId.Chars.{UnicodeTables}
use istio_oidc.OpenId.Path.{Parsed, parse_role_path}

pub record OpenIdConfiguration : Type 0 where
  pub authorization_endpoint : String
  pub token_endpoint : String
  pub jwks_uri : String

pub data From : Type 0 where
  access_token id_token : From

-- `fromStrToConst`
unfoldable pub from_str_to_const : String → Option From
from_str_to_const s =
    if s == ""
    then some access_token
    else if s == "accesstoken"
    then some access_token
    else if s == "idtoken"
    then some id_token
    else none

pub record RoleMapping : Type 0 where
  pub from : From
  pub prefix : String
  pub path : List String

pub record OpenIdProvider : Type 0 where
  pub name : String
  pub cfg : OpenIdConfiguration
  pub maps : List RoleMapping

pub record Endpoint : Type 0 where
  pub auth_url : String
  pub token_url : String

unfoldable pub endpoint : OpenIdProvider → Endpoint
endpoint op = record { auth_url = op.cfg.authorization_endpoint; token_url = op.cfg.token_endpoint }

-- The resource, `api.OpenIDProvider`.
pub record ApiRoleMapping : Type 0 where
  pub from : String
  pub prefix : String
  pub path : String

pub record ApiOpenIdProvider : Type 0 where
  pub namespace : String
  pub name : String
  pub issuer : String
  pub role_mappings : List ApiRoleMapping

-- The path of a mapping; the error of the parser is passed on.
unfoldable pub parsed_path : Parsed (List String × String) → Result (List String)
parsed_path (Parsed.ok p) = ok p.0
parsed_path (Parsed.err e) = err "invalid role path"
parsed_path Parsed.panic = panic

module _ (u : UnicodeTables) where
  unfoldable pub convert_mapping : ApiRoleMapping → Result RoleMapping
  unfolding parsed_path
  convert_mapping rm = or_err "invalid from" (from_str_to_const rm.from) >>= λ from.
      parsed_path (parse_role_path u rm.path) >>= λ path.
      ok (record { from = from; prefix = rm.prefix; path = path })

  unfoldable pub convert_mappings : List ApiRoleMapping → Result (List RoleMapping)
  unfolding convert_mapping
  convert_mappings [] = ok []
  convert_mappings (rm ∷ rms) =
      let rest = convert_mappings rms in convert_mapping rm >>= λ m. rest >>= λ ms. ok (m ∷ ms)

  -- `New`; `fetch` is `doJsonRequest` for the provider's configuration.
  unfoldable pub new_provider :
      (String → Result OpenIdConfiguration) → ApiOpenIdProvider → Result OpenIdProvider
  unfolding convert_mappings
  new_provider fetch op =
      wrap "unable to fetch OIDC provider config"
        (fetch (op.issuer ++ "/.well-known/openid-configuration"))
      >>= λ cfg.
          wrap "unable to parse role mappings" (convert_mappings op.role_mappings) >>= λ maps.
          ok (record { name = op.namespace ++ ("/" ++ op.name); cfg = cfg; maps = maps })
