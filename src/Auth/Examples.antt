-- ===== src/Auth/Examples.antt =====
-- Checks of concrete requests, and the theorems about the auth package at them.
use istio_oidc.Common.{
  ◌<◌, ◌/◌, String, true, false, List, [], ◌∷◌, none, some, ok, panic, ◌==◌, ◌≡◌, ◌≢◌, ◌↔◌, refl,
  arith, if◌then◌else◌, All, length, leb, subst,
}
use istio_oidc.Common.Map
use istio_oidc.Common.Map.{GoMap}
use istio_oidc.Net.{UrlLib, Cookie}
use istio_oidc.Session
use istio_oidc.Session.{Session, Stamped, SessionStore}
use istio_oidc.Session.Serials.{numbered}
use istio_oidc.Session.Examples.{fresh, fresh-IsCounted}
use istio_oidc.Replication.Latest.{new_self}
use istio_oidc.OpenId.Examples.{trusting, keycloak, login_token, login_data, login_data_extracted}
use istio_oidc.Api.Examples.{plain_net, path_only}
use istio_oidc.AccessPolicy.{AccessPolicy, Route}
use istio_oidc.AccessPolicy.Examples.{shop_policy, one_policy}
use istio_oidc.Worker.{with_provider}
use istio_oidc.Auth.{BearerClaims, AuthLib, Server, Request, Response}
use istio_oidc.Auth.Signer.{sealed, opened, opened-sealed, sealed-empty}
use istio_oidc.Auth.Roles.{has_roles, IsProvided, has_roles_iff}
use istio_oidc.Auth.Messages.{values, redact, location, bearer, no_claims, no_session}
use istio_oidc.Auth.Location.{location-panics_iff}
use istio_oidc.Auth.Authenticate.{parse_bearer, authorize}
use istio_oidc.Auth.SetToken.{Clock, set_token, bearer_of, redirect}
use istio_oidc.Auth.Check.{check}
use istio_oidc.Auth.Login.{IsSigning, SameClaims, login_session, set_token-IsLoggedIn}
use istio_oidc.Auth.Granting.{last_granted, authorize-headers}
use istio_oidc.Auth.Allowing.{IsLoggedIn, IsAllowed, check_allows_iff, check_answers}

abbrev pub alice_claims : BearerClaims
alice_claims = record { subject = "alice"; expiry = some 50; roles = ("realm:", "admin" ∷ []) ∷ [] }

-- A signature that only one text has, and a provider that always answers the same tokens.
abbrev pub tokens : AuthLib
tokens = record {
  net = plain_net;
  jose = trusting;
  Jws = String;
  sign_state = λ key path. some path;
  new_numeric_date = λ t. t / 1_000_000_000;
  sign_bearer = λ key claims. none;
  parse_signed = λ tok. some tok;
  state_claims = λ jws key. some jws;
  bearer_claims = λ jws key. if jws == "alice" then some alice_claims else none;
  validate = λ claims now. leb now 50;
  auth_code_url = λ cfg state. state;
  exchange = λ cfg code. some login_token;
  refresh = λ cfg tok. some login_token;
  sha512 = λ s. s;
  set_cookie = λ s. s;
  cookies = λ s. [];
}

abbrev shop_with_provider : AccessPolicy
shop_with_provider = with_provider keycloak shop_policy

abbrev admin_only : Route
admin_only = record {
  enable_authz = true;
  roles = "realm:admin" ∷ [];
  headers = record { name = "x-role"; value = "admin"; roles = [] } ∷ [];
}

abbrev request : List Cookie → Request
request cookies = record {
  url = path_only "/orders";
  cookies = cookies;
  fetch_mode = "";
  claims = no_claims;
  policy = shop_with_provider;
  route = admin_only;
  session = no_session;
}

abbrev pub known : Request
known = request (record { name = "bearer"; value = "alice" } ∷ [])

abbrev pub alice_session : Session
alice_session = record { id = "alice"; refresh_token = "rt"; expiry = 100 }

abbrev pub peer : SessionStore → Server
peer store = record {
  policies = one_policy;
  self = new_self "self" "10.0.0.1:8080" store;
  sent = [];
}

abbrev pub server : Server
server = peer (record {
  self_id = "self";
  curr = 1;
  found = ("alice", alice_session) ∷ [];
  store =
      (
        "self",
        record { session = alice_session; stamp = record { peer_id = "self"; serial = 1 } } ∷ [],
      )
      ∷ [];
})

abbrev pub clock : Clock
clock = record { at_bearer = 4; at_access = 5; at_id = 6 }

pub known_bearer : bearer known.cookies ≡ "alice"
unfolding bearer
known_bearer = refl

-- The tokens of a signer that signs and reads any claims.
abbrev pub signer : AuthLib
signer = record tokens {
  sign_bearer = λ key claims. some (sealed key claims);
  bearer_claims = λ jws key. opened key jws;
}

pub signer-IsSigning : IsSigning signer "key"
unfolding parse_bearer
signer-IsSigning claims tok distinct signed =
    let made : sealed "key" claims ≡ tok = cc in
    (
      (
        claims,
        subst (λ t. opened "key" t ≡ some claims) made (opened-sealed "key" claims),
        record { subject = refl; expiry = refl; roles = λ p. refl },
      ),
      subst (λ t. (t == "") ≡ false) made (sealed-empty "key" claims),
    )

-- The token that the login makes, and the next request, which carries it.
abbrev pub login_text : String
login_text = sealed "key" (bearer_of signer login_token login_data)

abbrev pub returning : Request
returning = request (record { name = "bearer"; value = login_text } ∷ [])

pub returning_bearer : bearer returning.cookies ≡ login_text
unfolding bearer
returning_bearer = refl

set_token-IsLoggedIn_example :
    (srv' : Server) × (read : BearerClaims) × (set_token signer
        (peer fresh)
        known
        login_token
        "/orders"
        clock
      ≡ ok (srv', redirect signer login_text known "/orders"))
    × (srv'.sent ≡ numbered fresh (login_session signer login_text login_token login_data) ∷ [])
    × SameClaims read (bearer_of signer login_token login_data)
    × IsLoggedIn signer srv' returning read (login_session signer login_text login_token login_data)
set_token-IsLoggedIn_example =
    set_token-IsLoggedIn signer (peer fresh) known login_token "/orders" clock login_data login_text
      returning signer-IsSigning (omega arith) fresh-IsCounted login_data_extracted refl refl
      returning_bearer

allowed_status :
    (authorize (record known { claims = alice_claims; session = alice_session })).status ≡ 200
unfolding authorize has_roles Map.get Map.put
allowed_status = refl

location_fine : location plain_net known.url ≢ panic
unfolding location redact Map.get
location_fine h = ground (arith, h)

check_allows_iff_example :
    ((srv' : Server) × (res : Response) × (check tokens server known clock ≡ ok (srv', res))
      × (res.status ≡ 200))
    ↔ ((claims : BearerClaims) × (sess : Session) × IsAllowed tokens server known clock claims sess)
check_allows_iff_example = check_allows_iff tokens server known clock location_fine

-- The request of a user who is logged in.
known_passes :
    check tokens server known clock
    ≡ ok (server, authorize (record known { claims = alice_claims; session = alice_session }))
unfolding check location redact bearer Map.get Session.get
known_passes = refl

check_answers_example :
    (server ≡ server)
    × ((claims : BearerClaims) × (sess : Session) × IsLoggedIn tokens server known claims sess
        × (authorize (record known { claims = alice_claims; session = alice_session })
            ≡ authorize (record known { claims = claims; session = sess })))
check_answers_example =
    check_answers tokens server server known clock
      (authorize (record known { claims = alice_claims; session = alice_session })) known_passes
      allowed_status

authorize-headers_example : Map.get "x-role" (authorize known).headers ≡ (
    if has_roles ("realm:admin" ∷ []) [] then last_granted admin_only.headers [] "x-role" else none)
authorize-headers_example = authorize-headers known "x-role"

has_roles_iff_example :
    (has_roles ("realm:admin" ∷ []) alice_claims.roles ≡ true)
    ↔ All (IsProvided alice_claims.roles) ("realm:admin" ∷ [])
has_roles_iff_example = has_roles_iff ("realm:admin" ∷ []) alice_claims.roles

-- Two codes and one state.
abbrev two_codes : UrlLib
two_codes = record plain_net { query = λ url. ("state", "s" ∷ []) ∷ ("code", "c" ∷ "d" ∷ []) ∷ [] }

two_codes_panic : location two_codes known.url ≡ panic
unfolding location redact Map.get
two_codes_panic = refl

location-panics_iff_example : (location two_codes known.url ≡ panic) ↔ (
    length (values "state" (two_codes.query known.url))
    < length (values "code" (two_codes.query known.url)))
location-panics_iff_example = location-panics_iff two_codes known.url
