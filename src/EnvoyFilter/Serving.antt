-- ===== src/EnvoyFilter/Serving.antt =====
-- From the patches of envoyfilter.go to the requests of auth/server.go: what the proxy sends back of a
-- patch, and what the server makes of it.
use istio_oidc.Common.{
  String, true, List, [], ◌∷◌, Option, none, some, ◌≡◌, refl, ok, Elem, Elem-All, All, ap, sym,
  subst, ◌∙◌, or_else, arith, >>=-eq-ok,
}
use istio_oidc.Common.Map
use istio_oidc.Common.Map.{GoMap, Distinct}
use istio_oidc.Net.{UrlLib, Url}
use istio_oidc.OpenId.Provider.{OpenIdProvider}
use istio_oidc.Api.{ApiAccessPolicy}
use istio_oidc.AccessPolicy.{AccessPolicy, Route, find, new_policy, convert_oidc}
use istio_oidc.Worker.{with_provider}
use istio_oidc.Auth.{AuthLib, Server, Request}
use istio_oidc.Auth.Messages.{new_request, meta, route_of, no_claims, no_session}
use istio_oidc.EnvoyFilter.{Patch, FilterSettings, check_settings, new_envoy_filter}
use istio_oidc.EnvoyFilter.Asking.{IsMade, Asks, new_envoy_filter-IsRouteOf}
use istio_oidc.EnvoyFilter.Protobuf.{
  string_value, struct_value, ProtoFields, no_fields, field, new_struct, value_of,
}

-- A map of texts as a message.
abbrev pub text_fields : GoMap String → ProtoFields
text_fields [] = no_fields
text_fields ((k, s) ∷ m) = field k (string_value s) (text_fields m)

-- The message of a route's settings with these `context_extensions`.
abbrev pub route_settings : ProtoFields → ProtoFields
route_settings extensions =
    field "typed_per_filter_config"
      (struct_value (
        field "envoy.filters.http.ext_authz"
          (struct_value (
            field "@type"
              (string_value
                "type.googleapis.com/envoy.config.filter.http.ext_authz.v2.ExtAuthzPerRoute")
              (field "check_settings"
                (struct_value (field "context_extensions" (struct_value extensions) no_fields))
                no_fields)))
          no_fields))
      no_fields

-- What is relied on of the proxy, as its filter documents `context_extensions`: with each check of a
-- route it sends the entries that the settings of the route have there. `context` is what the proxy
-- sends of some settings.
abbrev pub IsSending : (ProtoFields → GoMap String) → Type 0
IsSending context =
    (extensions : GoMap String) (k : String)
    → Distinct extensions
    → Map.get k (context (route_settings (text_fields extensions))) ≡ Map.get k extensions

-- The reconciler of filters made the policy of a resource, without its secret; and the server holds,
-- under its name, what the worker made of the same resource with the secret, and with its provider set.
abbrev pub IsHeld : UrlLib → Server → AccessPolicy → Type 0
IsHeld net srv pol =
    (ap : ApiAccessPolicy) × (secret : GoMap String) × (op : OpenIdProvider) × (held : AccessPolicy)
    × (new_policy net ap none ≡ ok pol)
    × (new_policy net ap (some secret) ≡ ok held)
    × (find pol.name srv.policies ≡ some (with_provider op held))

-- The policies that are made of one resource differ in their credentials at most.
new_policy-same :
    (net : UrlLib) (ap : ApiAccessPolicy) (s t : Option (GoMap String)) (a b : AccessPolicy)
    → new_policy net ap s ≡ ok a
    → new_policy net ap t ≡ ok b
    → (a.name ≡ b.name) × (a.default_route ≡ b.default_route) × (a.routes ≡ b.routes)
unfolding new_policy
new_policy-same net ap s t a b p q =
    let (_, _, p') = >>=-eq-ok (convert_oidc net ap.spec.oidc s) _ p in
    let (_, _, q') = >>=-eq-ok (convert_oidc net ap.spec.oidc t) _ q in
    (ground (arith, p', q'), ground (arith, p', q'), ground (arith, p', q'))

route_of-same :
    (a b : AccessPolicy) (route : String)
    → a.default_route ≡ b.default_route
    → a.routes ≡ b.routes
    → route_of a route ≡ route_of b route
unfolding route_of
route_of-same a b route d e = rw (d, e) refl

AreHeld-AreMade :
    (net : UrlLib) (srv : Server) (pols : List AccessPolicy)
    → All (IsHeld net srv) pols
    → All (IsMade net) pols
AreHeld-AreMade net srv [] h = tt
AreHeld-AreMade net srv (pol ∷ pols) ((ap', _, _, _, made, _, _), h) =
    ((ap', none, made), AreHeld-AreMade net srv pols h)

-- The entries of a patch that asks for a check, as a map and as its message.
abbrev extensions_of : String → String → GoMap String
extensions_of policy route = ("accessPolicy", policy) ∷ (("route", route) ∷ [])

check_settings-message :
    (policy route : String)
    → new_struct (value_of (check_settings policy route))
      ≡ some (route_settings (text_fields (extensions_of policy route)))
unfolding new_struct value_of
check_settings-message policy route = refl

served :
    (lib : AuthLib) (srv : Server) (address cookies mode policy route : String) (url : Url)
    (pol : AccessPolicy) (r : Route)
    → lib.net.parse address ≡ some url
    → (metadata : GoMap String) → meta "accessPolicy" metadata ≡ policy
    → meta "route" metadata ≡ route
    → find policy srv.policies ≡ some pol
    → route_of pol route ≡ some r
    → (req : Request) × (new_request lib srv address cookies mode metadata ≡ ok req)
      × (req.policy ≡ pol)
      × (req.route ≡ r)
unfolding new_request
served lib srv address cookies mode policy route url pol r e metadata m n f g = (
  record {
    url = url;
    cookies = lib.cookies cookies;
    fetch_mode = mode;
    claims = no_claims;
    policy = pol;
    route = r;
    session = no_session;
  },
  rw (e, m, n, f, g) refl,
  refl,
  refl,
)

-- Where the filter's policies were made of resources, and the server holds what the worker made of the
-- same resources with their secrets and providers, every patch that asks for a check is accepted by
-- `newStruct`, and of what a proxy that IsSending sends for it the server makes a request: one of a
-- policy with the name of a policy of the filter and with a provider, and of a route of it that
-- requires authorization.
pub new_request-asked :
    (lib : AuthLib) (srv : Server) (net : UrlLib) (context : ProtoFields → GoMap String)
    (c : FilterSettings) (pols : List AccessPolicy) (p : Patch)
    (policy route address cookies mode : String) (url : Url)
    → IsSending context
    → All (IsHeld net srv) pols
    → Elem p (new_envoy_filter c pols)
    → Asks p policy route
    → lib.net.parse address ≡ some url
    → (fields : ProtoFields) × (req : Request) × (pol : AccessPolicy) × (op : OpenIdProvider)
      × (new_struct (value_of p.value) ≡ some fields)
      × (new_request lib srv address cookies mode (context fields) ≡ ok req)
      × Elem pol pols
      × (pol.name ≡ policy)
      × (req.policy.name ≡ policy)
      × (req.policy.oidc.provider ≡ some op)
      × (route_of req.policy route ≡ some req.route)
      × (req.route.enable_authz ≡ true)
unfolding Map.get
new_request-asked lib srv net context c pols p policy route address cookies mode url sends held e
      asks parsed =
    let (pol, m, (name, (r, at_route, enabled))) =
      new_envoy_filter-IsRouteOf net c pols p policy route (AreHeld-AreMade net srv pols held) e
        asks in
    let (ap', secret, op, stored, made, made', known) = Elem-All (IsHeld net srv) pol pols held m in
    let (same_name, same_default, same_routes) =
      new_policy-same net ap' none (some secret) pol stored made made' in
    let fields = route_settings (text_fields (extensions_of policy route)) in
    let sent : (k : String) → Map.get k (context fields) ≡ Map.get k (extensions_of policy route) =
      λ k. sends (extensions_of policy route) k ((refl, tt), (tt, tt)) in
    let at_held : route_of (with_provider op stored) route ≡ some r =
      sym (route_of-same pol (with_provider op stored) route same_default same_routes) ∙ at_route in
    let (req, g, is_pol, is_r) =
      served lib srv address cookies mode policy route url (with_provider op stored) r parsed
        (context fields) (ap (λ o. or_else o "") (sent "accessPolicy"))
        (ap (λ o. or_else o "") (sent "route"))
        (subst (λ n. find n srv.policies ≡ some (with_provider op stored)) name known) at_held in
    (
      fields,
      req,
      pol,
      op,
      ap (λ v. new_struct (value_of v)) asks ∙ check_settings-message policy route,
      g,
      m,
      name,
      ap (λ (q : AccessPolicy). q.name) is_pol ∙ sym same_name ∙ name,
      ap (λ (q : AccessPolicy). q.oidc.provider) is_pol,
      ap (λ q. route_of q route) is_pol ∙ at_held ∙ ap (λ x. some x) (sym is_r),
      ap (λ (x : Route). x.enable_authz) is_r ∙ enabled,
    )
