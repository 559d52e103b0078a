-- ===== src/AccessPolicy.antt =====
-- state/accesspolicy: the policy that the server reads (struct.go), how it is made of its resource
-- (convert.go), and the store of the policies (store.go).
mod Lookup
pub mod Examples
use istio_oidc.Common.{
  ℕ, String, Bool, true, false, not, List, [], ◌∷◌, map, Option, none, some, Result, ok, err, panic,
  ◌>>=◌, or_err, if◌then◌else◌, ◌==◌,
}
use Prim.Native.String.{◌++◌}
use istio_oidc.Common.Map
use istio_oidc.Common.Map.{GoMap}
use istio_oidc.Net.{Url, UrlLib}
use istio_oidc.OpenId.Provider.{OpenIdProvider}
use istio_oidc.Api.{ApiOidc, ApiRoute, ApiRouteHeader, ApiAccessPolicy}

pub record Header : Type 0 where
  pub name : String
  pub value : String
  pub roles : List String

pub record Route : Type 0 where
  pub enable_authz : Bool
  pub roles : List String
  pub headers : List Header

-- The provider of a policy that `New` makes is the zero value of its type until the worker sets it.
pub record Oidc : Type 0 where
  pub provider : Option OpenIdProvider
  pub client_id : String
  pub client_secret : String
  pub token_secret : String
  pub callback : Url

pub record AccessPolicy : Type 0 where
  pub name : String
  pub oidc : Oidc
  pub default_route : Route
  pub routes : GoMap Route
  pub virtual_hosts : List String

-- `IsCallback`
unfoldable pub is_callback : Oidc → Url → Bool
is_callback oidc url = url.path == oidc.callback.path

abbrev pub header_of : ApiRouteHeader → Header
header_of h = record { name = h.name; value = h.value; roles = h.roles }

-- `accessPolicyRoute.convert`
unfoldable pub convert_route : ApiRoute → Route
convert_route r = record {
  enable_authz = not r.disable_enforcement;
  roles = r.roles;
  headers = map header_of r.headers;
}

-- The loop of `accessPolicySpecStatus.convert` over the routes: the default route and the named ones.
unfoldable pub convert_routes : List ApiRoute → Route → GoMap Route → Route × GoMap Route
unfolding convert_route
convert_routes [] def routes = (def, routes)
convert_routes (r ∷ rs) def routes =
    if r.name == ""
    then convert_routes rs (convert_route r) routes
    else convert_routes rs def (Map.put r.name (convert_route r) routes)

abbrev pub initial_route : Route
initial_route = record { enable_authz = true; roles = []; headers = [] }

-- The three entries of the secret that the resource names; with no secret all are empty.
unfoldable pub credentials : ApiOidc → Option (GoMap String) → Option (String × String × String)
credentials o none = some ("", "", "")
credentials o (some entries) = elim (Map.get o.credentials_secret.client_id_key entries) [
  | none ↦ none
  | some client_id ↦ elim (Map.get o.credentials_secret.client_secret_key entries) [
    | none ↦ none
    | some client_secret ↦ elim (Map.get o.credentials_secret.token_secret_key entries) [
      | none ↦ none
      | some token_secret ↦ some (client_id, client_secret, token_secret)
    ]
  ]
]

module _ (net : UrlLib) where
  -- `accessPolicyOIDC.convert`
  unfoldable pub convert_oidc : ApiOidc → Option (GoMap String) → Result Oidc
  unfolding credentials
  convert_oidc o secret = or_err "parse" (net.parse o.callback_path) >>= λ callback.
      or_err "failed extracting credentials" (credentials o secret) >>= λ c. ok (record {
        provider = none;
        client_id = c.0;
        client_secret = c.1;
        token_secret = c.2;
        callback = callback;
      })

  -- `New`
  unfoldable pub new_policy : ApiAccessPolicy → Option (GoMap String) → Result AccessPolicy
  unfolding convert_oidc convert_routes
  new_policy ap secret = convert_oidc ap.spec.oidc secret >>= λ oidc.
      let (def, routes) = convert_routes ap.spec.routes initial_route [] in
      ok (record {
        name = ap.namespace ++ ("/" ++ ap.name);
        oidc = oidc;
        default_route = def;
        routes = routes;
        virtual_hosts = ap.status.virtual_hosts;
      })

-- The store. It keeps pointers to policies that nothing changes once they are stored.
pub record PolicyStore : Type 0 where
  pub dict : GoMap AccessPolicy

abbrev pub new_policy_store : PolicyStore
new_policy_store = record { dict = [] }

unfoldable pub find : String → PolicyStore → Option AccessPolicy
find name s = Map.get name s.dict

unfoldable pub update_policy : AccessPolicy → PolicyStore → PolicyStore
update_policy pol s = record { dict = Map.put pol.name pol s.dict }

unfoldable pub delete_policy : String → PolicyStore → PolicyStore
delete_policy name s = record { dict = Map.remove name s.dict }

-- What `Stream` sends.
unfoldable pub stream_policies : PolicyStore → List AccessPolicy
stream_policies s = map (λ e. e.1) s.dict
