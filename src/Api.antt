-- ===== src/Api.antt =====
-- The api package: the AccessPolicy resource (api/accesspolicy.go), its validation and its defaults.
pub mod Provider
pub mod Validation
pub mod Examples
use istio_oidc.Common.{
  ℕ, String, Bool, true, false, ◌&&◌, List, [], ◌∷◌, ◌++◌, Option, none, some, if◌then◌else◌, ◌==◌,
}
use istio_oidc.Common.Map
use istio_oidc.Common.Map.{GoMap}

pub record CredentialsSecret : Type 0 where
  pub name : String
  pub client_id_key : String
  pub client_secret_key : String
  pub token_secret_key : String

pub record ApiOidc : Type 0 where
  pub provider : String
  pub credentials_secret : CredentialsSecret
  pub callback_path : String

pub record ApiRouteHeader : Type 0 where
  pub name : String
  pub roles : List String
  pub value : String

pub record ApiRoute : Type 0 where
  pub name : String
  pub roles : List String
  pub headers : List ApiRouteHeader
  pub disable_enforcement : Bool

pub record ApiSpec : Type 0 where
  pub gateway : String
  pub oidc : ApiOidc
  pub routes : List ApiRoute

pub record ApiStatus : Type 0 where
  pub selector : GoMap String
  pub virtual_hosts : List String

-- The resource; of its metadata what the controllers read. `deleting` says that the deletion
-- timestamp is not zero.
pub record ApiAccessPolicy : Type 0 where
  pub namespace : String
  pub name : String
  pub deleting : Bool
  pub finalizers : List String
  pub spec : ApiSpec
  pub status : ApiStatus

abbrev pub or_default : String → String → String
or_default s d = if s == "" then d else s

unfoldable pub normalize_secret : CredentialsSecret → CredentialsSecret
normalize_secret r = record r {
  client_id_key = or_default r.client_id_key "clientID";
  client_secret_key = or_default r.client_secret_key "clientSecret";
  token_secret_key = or_default r.token_secret_key "tokenKey";
}

unfoldable pub normalize_oidc : ApiOidc → ApiOidc
unfolding normalize_secret
normalize_oidc o = record o {
  credentials_secret = normalize_secret o.credentials_secret;
  callback_path = or_default o.callback_path "/odic/callback";
}

unfoldable pub normalize : ApiSpec → ApiSpec
unfolding normalize_oidc
normalize spec = record spec { oidc = normalize_oidc spec.oidc }
