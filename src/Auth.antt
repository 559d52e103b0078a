-- ===== src/Auth.antt =====
-- The auth package: the decision on each request of the proxy. Its state is the store of policies and
-- this peer's part of the replication, which holds the session store (main.go passes the same store to
-- both).
pub mod Roles
pub mod Messages
pub mod Authenticate
pub mod SetToken
pub mod Check
mod Location
mod Login
mod Roaming
mod Allowing
mod Granting
mod Signer
pub mod Examples
use istio_oidc.Common.{ℕ, String, Bool, Option, List, Result}
use istio_oidc.Common.Map.{GoMap}
use istio_oidc.Net.{Url, UrlLib, Cookie}
use istio_oidc.Session.{Session, Stamped}
use istio_oidc.Replication.Latest.{Self}
use istio_oidc.OpenId.Provider.{Endpoint}
use istio_oidc.OpenId.Token.{Jose, OAuth2Token}
use istio_oidc.AccessPolicy.{AccessPolicy, PolicyStore, Route}

-- `bearerClaims`: the subject, the expiry of the registered claims in seconds, where the token has one,
-- and the roles.
pub record BearerClaims : Type 0 where
  pub subject : String
  pub expiry : Option ℕ
  pub roles : GoMap (List String)

-- `oauth2.Config`; the scopes are always `openid`.
pub record OAuth2Config : Type 0 where
  pub client_id : String
  pub client_secret : String
  pub endpoint : Endpoint
  pub redirect_url : String

-- The packages that auth calls. A key and a serialized token are texts. `sign_state` and
-- `sign_bearer` are a signer's `CompactSerialize`, of an expiry that is `none` where it is not put
-- into the token; `state_claims` and `bearer_claims` check the signature by the key; `validate` is
-- `ValidateWithLeeway` at a time with no leeway. `new_numeric_date` keeps the whole seconds of a time. `exchange` and `refresh` ask the provider. `sha512`
-- is the text of the digest's bytes, `set_cookie` the header for a bearer cookie, and `cookies` reads
-- the `Cookie` header.
pub record AuthLib : Type 1 where
  pub net : UrlLib
  pub jose : Jose
  pub Jws : Type 0
  pub new_numeric_date : ℕ → ℕ
  pub sign_state : String → String → Option String
  pub sign_bearer : String → BearerClaims → Option String
  pub parse_signed : String → Option Jws
  pub state_claims : Jws → String → Option String
  pub bearer_claims : Jws → String → Option BearerClaims
  pub validate : BearerClaims → ℕ → Bool
  pub auth_code_url : OAuth2Config → String → String
  pub exchange : OAuth2Config → String → Option OAuth2Token
  pub refresh : OAuth2Config → String → Option OAuth2Token
  pub sha512 : String → String
  pub set_cookie : String → String
  pub cookies : String → List Cookie

-- The server: the policies, this peer, and the sessions it sent to the other peers.
pub record Server : Type 0 where
  pub policies : PolicyStore
  pub self : Self
  pub sent : List Stamped

pub record Request : Type 0 where
  pub url : Url
  pub cookies : List Cookie
  pub fetch_mode : String
  pub claims : BearerClaims
  pub policy : AccessPolicy
  pub route : Route
  pub session : Session

pub record Response : Type 0 where
  pub status : ℕ
  pub headers : GoMap String
