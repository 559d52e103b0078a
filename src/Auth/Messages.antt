-- ===== src/Auth/Messages.antt =====
-- auth/messages.go and auth/server.go: the request that is made of the proxy's call, its bearer token,
-- and its address as it is logged.
use istio_oidc.Common.{
  String, List, [], ◌∷◌, map, Option, none, some, Result, ok, panic, ◌>>=◌, or_err, or_else,
  if◌then◌else◌, ◌==◌,
}
use istio_oidc.Common.Map
use istio_oidc.Common.Map.{GoMap}
use istio_oidc.Net.{Url, UrlLib, Cookie}
use istio_oidc.Session.{Session}
use istio_oidc.AccessPolicy.{AccessPolicy, Route, find}
use istio_oidc.Auth.{BearerClaims, AuthLib, Server, Request}

-- The values of a query parameter.
abbrev pub values : String → GoMap (List String) → List String
values name query = or_else (Map.get name query) []

-- `query["state"][i] = "-"` for each index `i` of the codes: an index that the states do not have is a
-- panic.
unfoldable pub redact : List String → List String → Result (List String)
redact [] states = ok states
redact (c ∷ codes) [] = panic
redact (c ∷ codes) (s ∷ states) = let rest = redact codes states in rest >>= λ xs. ok ("-" ∷ xs)

-- `query[name] = values`, where the map has the name: the assignments change the list in place.
abbrev pub replace : String → List String → GoMap (List String) → GoMap (List String)
replace name [] query = query
replace name (x ∷ xs) query = Map.put name (x ∷ xs) query

-- `location`
unfoldable pub location : UrlLib → Url → Result Url
unfolding redact
location net url =
    let query = net.query url in
    redact (values "code" query) (map (λ s. "-") (values "state" query)) >>= λ states.
    ok (record url { raw_query = net.encode (replace "state" states query) })

-- `bearer`, of the request's cookies.
unfoldable pub bearer : List Cookie → String
bearer [] = ""
bearer (c ∷ cookies) = if c.name == "bearer" then c.value else bearer cookies

abbrev pub no_claims : BearerClaims
no_claims = record { subject = ""; expiry = none; roles = [] }

abbrev pub no_session : Session
no_session = record { id = ""; refresh_token = ""; expiry = 0 }

-- `metadata[key]`
abbrev pub meta : String → GoMap String → String
meta key metadata = or_else (Map.get key metadata) ""

-- The route that the metadata names.
unfoldable pub route_of : AccessPolicy → String → Option Route
route_of ap name = if name == "" then some ap.default_route else Map.get name ap.routes

-- `newRequest`
unfoldable pub new_request :
    AuthLib → Server → String → String → String → GoMap String → Result Request
unfolding route_of
new_request lib srv address cookies fetch_mode metadata =
    or_err "unable to parse address" (lib.net.parse address) >>= λ parsed.
    or_err "unknown AccessPolicy" (find (meta "accessPolicy" metadata) srv.policies) >>= λ ap.
    or_err "unknown route" (route_of ap (meta "route" metadata)) >>= λ route. ok (record {
      url = parsed;
      cookies = lib.cookies cookies;
      fetch_mode = fetch_mode;
      claims = no_claims;
      policy = ap;
      route = route;
      session = no_session;
    })
