-- ===== src/Auth/Authenticate.antt =====
-- auth/check.go and jwt.go: the tokens of a request, the start of a login, and the authorization. What
-- the functions log or count is left out.
use istio_oidc.Common.{
  ℕ, String, ◌||◌, List, [], ◌∷◌, Option, none, some, or_else, eqb, if◌then◌else◌, ◌==◌,
}
use istio_oidc.Common.Map
use istio_oidc.Common.Map.{GoMap}
use istio_oidc.Net.{Url}
use istio_oidc.Session
use istio_oidc.Session.{Stamped}
use istio_oidc.OpenId.Provider.{OpenIdProvider, endpoint}
use istio_oidc.AccessPolicy.{Oidc, Header}
use istio_oidc.Auth.{BearerClaims, OAuth2Config, AuthLib, Server, Request, Response}
use istio_oidc.Auth.Roles.{has_roles}
use istio_oidc.Auth.Messages.{bearer}

abbrev pub answer : ℕ → Response
answer status = record { status = status; headers = [] }

-- The zero value of a policy's provider.
abbrev pub no_provider : OpenIdProvider
no_provider = record {
  name = "";
  cfg = record { authorization_endpoint = ""; token_endpoint = ""; jwks_uri = "" };
  maps = [];
}

-- The headers of the route whose roles the token has.
unfoldable pub granted_headers : List Header → GoMap (List String) → GoMap String → GoMap String
granted_headers [] roles headers = headers
granted_headers (h ∷ hs) roles headers =
    if has_roles h.roles roles
    then granted_headers hs roles (Map.put h.name h.value headers)
    else granted_headers hs roles headers

unfoldable pub authorize : Request → Response
unfolding granted_headers
authorize req =
    if has_roles req.route.roles req.claims.roles
    then record { status = 200; headers = granted_headers req.route.headers req.claims.roles [] }
    else answer 403

module _ (lib : AuthLib) where
  open lib use {net, jose, new_numeric_date}

  -- The expiry of a token as `makeToken` puts it into the claims: not that of Go's zero time.
  abbrev pub expiry_claim : ℕ → Option ℕ
  expiry_claim expiry = if eqb expiry 0 then none else some (new_numeric_date expiry)

  -- `Oidc.OAuth2`
  unfoldable pub oauth2 : Oidc → Url → OAuth2Config
  oauth2 oidc url = record {
    client_id = oidc.client_id;
    client_secret = oidc.client_secret;
    endpoint = endpoint (or_else oidc.provider no_provider);
    redirect_url = net.resolve url oidc.callback;
  }

  -- `parseToken`, of a bearer token.
  unfoldable pub parse_bearer : String → String → Option BearerClaims
  parse_bearer key token = elim (lib.parse_signed token) [
    | none ↦ none
    | some jws ↦ lib.bearer_claims jws key
  ]

  -- `parseToken`, of a state token.
  unfoldable pub parse_state : String → String → Option String
  parse_state key token = elim (lib.parse_signed token) [
    | none ↦ none
    | some jws ↦ lib.state_claims jws key
  ]

  -- The claims and the session of a token, where it has both.
  unfoldable pub session_of :
      Server → String → Option BearerClaims → Option (BearerClaims × Session.Session)
  session_of srv token none = none
  session_of srv token (some claims) = elim (Session.get srv.self.sess_store (lib.sha512 token)) [
    | none ↦ none
    | some sess ↦ some (claims, sess)
  ]

  -- `isAuthenticated`: the request with its claims and session, or nothing.
  unfoldable pub authenticated : Server → Request → Option Request
  unfolding parse_bearer session_of
  authenticated srv req =
      let token = bearer req.cookies in
      if token == ""
      then none
      else elim (session_of srv token (parse_bearer req.policy.oidc.token_secret token)) [
        | none ↦ none
        | some r ↦ some (record req { claims = r.0; session = r.1 })
      ]

  unfoldable pub start_oidc : Request → Response
  unfolding oauth2
  start_oidc req =
      if req.fetch_mode == "" || req.fetch_mode == "navigate" || req.fetch_mode == "nested-navigate"
      then elim (lib.sign_state req.policy.oidc.token_secret req.url.path) [
        | none ↦ answer 500
        | some tok ↦ record {
          status = 303;
          headers = ("location", lib.auth_code_url (oauth2 req.policy.oidc req.url) tok) ∷ [];
        }
      ]
      else answer 403
