-- ===== src/EnvoyFilter/Asking.antt =====
-- Which checks the patches ask for, against what the server finds for them.
use istio_oidc.Common.{
  ok, >>=-eq-ok, Option, sym, String, true, false, List, [], ◌∷◌, some, ◌==◌, ◌≡◌, refl, arith, inl,
  inr, Elem, Elem-append, All, subst, Option-cases, eq_iff,
}
use istio_oidc.Common.Map
use istio_oidc.Common.Map.{GoMap, Distinct, Distinct-put, Lacks-put, Lacks, get-Elem}
use istio_oidc.EnvoyFilter.ClusterName.{parse_istio_cluster_name}
use istio_oidc.Net.{UrlLib}
use istio_oidc.Api.{ApiRoute, ApiAccessPolicy}
use istio_oidc.AccessPolicy.{
  AccessPolicy, Route, initial_route, convert_route, convert_routes, convert_oidc, new_policy,
}
use istio_oidc.Auth.Messages.{route_of}
use istio_oidc.EnvoyFilter.{
  Patch, FilterSettings, check_settings, per_route, vhost_patch, route_patch, route_patches,
  vhost_patches, policy_patches, cluster_patch, filter_patch, disable_patch, new_envoy_filter,
}

-- A policy as `New` makes it: each named route once, and none with the empty name.
abbrev pub IsRouted : AccessPolicy → Type 0
IsRouted pol = Distinct pol.routes × Lacks "" pol.routes

-- A policy that `New` made of some resource.
abbrev pub IsMade : UrlLib → AccessPolicy → Type 0
IsMade net pol =
    (ap : ApiAccessPolicy) × (secret : Option (GoMap String)) × (new_policy net ap secret ≡ ok pol)

convert_routes-IsRouted :
    (rs : List ApiRoute) (def : Route) (routes : GoMap Route)
    → Distinct routes × Lacks "" routes
    → Distinct (convert_routes rs def routes).1 × Lacks "" (convert_routes rs def routes).1
unfolding convert_routes
convert_routes-IsRouted [] def routes h = h
convert_routes-IsRouted (r ∷ rs) def routes h = ground (
  arith,
  h,
  convert_routes-IsRouted rs (convert_route r) routes,
  convert_routes-IsRouted rs def (Map.put r.name (convert_route r) routes),
  Distinct-put r.name (convert_route r) routes,
  Lacks-put "" r.name (convert_route r) routes,
)

IsMade-IsRouted : (net : UrlLib) (pol : AccessPolicy) → IsMade net pol → IsRouted pol
unfolding new_policy
IsMade-IsRouted net pol (ap, secret, made) =
    let routed = convert_routes-IsRouted ap.spec.routes initial_route [] (tt, tt) in
    let (oidc, _, made') = >>=-eq-ok (convert_oidc net ap.spec.oidc secret) _ made in
    let same : pol.routes ≡ (convert_routes ap.spec.routes initial_route []).1 =
      ground (arith, made') in
    subst (λ m. Distinct m × Lacks "" m) (sym same) routed

AreMade-AreRouted :
    (net : UrlLib) (pols : List AccessPolicy) → All (IsMade net) pols → All IsRouted pols
AreMade-AreRouted net [] h = tt
AreMade-AreRouted net (pol ∷ pols) h = (IsMade-IsRouted net pol h.0, AreMade-AreRouted net pols h.1)

-- A patch asks for checks of a route of the policy, and the server finds that route under the names
-- that the patch gives, and it is one with authorization.
abbrev pub IsRouteOf : AccessPolicy → String → String → Type 0
IsRouteOf pol policy route =
    (pol.name ≡ policy) × ((r : Route) × (route_of pol route ≡ some r) × (r.enable_authz ≡ true))

abbrev pub Asks : Patch → String → String → Type 0
Asks p policy route = p.value ≡ check_settings policy route

per_route-Asks :
    (name key : String) (r : Route) (policy route : String)
    → per_route name key (some r) ≡ check_settings policy route
    → (name ≡ policy) × (key ≡ route) × (r.enable_authz ≡ true)
unfolding per_route
per_route-Asks name key r policy route h = (ground (arith, h), ground (arith, h), ground (arith, h))

vhost_patch-IsRouteOf :
    (pol : AccessPolicy) (host policy route : String)
    → Asks (vhost_patch pol host) policy route
    → IsRouteOf pol policy route
unfolding vhost_patch route_of
vhost_patch-IsRouteOf pol host policy route h =
    let (same, key, enabled) = per_route-Asks pol.name "" pol.default_route policy route h in
    (same, (pol.default_route, ground (arith, key, eq_iff route ""), enabled))

Lacks-Elem :
    (key route : String) (r : Route) (m : GoMap Route)
    → Lacks key m
    → Elem (route, r) m
    → (route == key) ≡ false
Lacks-Elem key route r [] h e = absurd e
Lacks-Elem key route r ((k, v) ∷ m) h (inl e) = ground (arith, h, e)
Lacks-Elem key route r ((k, v) ∷ m) h (inr e) = Lacks-Elem key route r m h.1 e

route_of-Elem :
    (pol : AccessPolicy) (route : String) (r : Route)
    → IsRouted pol
    → Elem (route, r) pol.routes
    → route_of pol route ≡ some r
unfolding route_of
route_of-Elem pol route r h e =
    rw (Lacks-Elem "" route r pol.routes h.1 e) (get-Elem route r pol.routes h.0 e)

route_patches-Elem :
    (pol : AccessPolicy) (host : String) (routes : GoMap Route) (p : Patch)
    → Elem p (route_patches pol host routes)
    → (route : String) × (r : Route) × Elem (route, r) routes × (p ≡ route_patch pol host route r)
unfolding route_patches
route_patches-Elem pol host [] p e = absurd e
route_patches-Elem pol host ((k, v) ∷ routes) p (inl e) = (k, v, inl refl, e)
route_patches-Elem pol host ((k, v) ∷ routes) p (inr e) =
    let (route, r, m, q) = route_patches-Elem pol host routes p e in (route, r, inr m, q)

route_patch-IsRouteOf :
    (pol : AccessPolicy) (host k : String) (v : Route) (policy route : String)
    → IsRouted pol
    → Elem (k, v) pol.routes
    → Asks (route_patch pol host k v) policy route
    → IsRouteOf pol policy route
unfolding route_patch
route_patch-IsRouteOf pol host k v policy route h e asks =
    let (same, key, enabled) = per_route-Asks pol.name k v policy route asks in
    (same, (v, subst (λ x. route_of pol x ≡ some v) key (route_of-Elem pol k v h e), enabled))

vhost_patches-IsRouteOf :
    (pol : AccessPolicy) (hosts : List String) (p : Patch) (policy route : String)
    → IsRouted pol
    → Elem p (vhost_patches pol hosts)
    → Asks p policy route
    → IsRouteOf pol policy route
unfolding vhost_patches
vhost_patches-IsRouteOf pol [] p policy route h e asks = absurd e
vhost_patches-IsRouteOf pol (host ∷ hosts) p policy route h (inl e) asks =
    vhost_patch-IsRouteOf pol host policy route (subst (λ x. Asks x policy route) e asks)
vhost_patches-IsRouteOf pol (host ∷ hosts) p policy route h (inr e) asks =
    elim (Elem-append p (route_patches pol host pol.routes) (vhost_patches pol hosts) e) [
      | inl m ↦
          let (k, v, n, q) = route_patches-Elem pol host pol.routes p m in
          route_patch-IsRouteOf pol host k v policy route h n
            (subst (λ x. Asks x policy route) q asks)
      | inr m ↦ vhost_patches-IsRouteOf pol hosts p policy route h m asks
    ]

policy_patches-IsRouteOf :
    (pols : List AccessPolicy) (p : Patch) (policy route : String)
    → All IsRouted pols
    → Elem p (policy_patches pols)
    → Asks p policy route
    → (pol : AccessPolicy) × Elem pol pols × IsRouteOf pol policy route
unfolding policy_patches
policy_patches-IsRouteOf [] p policy route h e asks = absurd e
policy_patches-IsRouteOf (pol ∷ pols) p policy route h e asks =
    elim (Elem-append p (vhost_patches pol pol.virtual_hosts) (policy_patches pols) e) [
      | inl m ↦
          (pol, inl refl, vhost_patches-IsRouteOf pol pol.virtual_hosts p policy route h.0 m asks)
      | inr m ↦
          let (q, n, found) = policy_patches-IsRouteOf pols p policy route h.1 m asks in
          (q, inr n, found)
    ]

cluster_patch-Asks :
    (c : FilterSettings) (p : Patch) (policy route : String)
    → Elem p (cluster_patch c).1
    → Asks p policy route
    → ⊥
unfolding cluster_patch
cluster_patch-Asks c p policy route e asks =
    elim (Option-cases (parse_istio_cluster_name c.cluster_name)) [
      | inl none_found ↦ ground (arith, none_found, e)
      | inr (found, is_found) ↦ ground (arith, is_found, e, asks)
    ]

-- Of policies that were made of resources, every check that the filter asks for is one of a route of
-- these policies: the policy has the name that the proxy will send, and by the
-- route that it will send the server finds a route of the policy, one that requires authorization.
pub new_envoy_filter-IsRouteOf :
    (net : UrlLib) (c : FilterSettings) (pols : List AccessPolicy) (p : Patch)
    → (policy route : String) → All (IsMade net) pols
    → Elem p (new_envoy_filter c pols)
    → Asks p policy route
    → (pol : AccessPolicy) × Elem pol pols × IsRouteOf pol policy route
unfolding new_envoy_filter filter_patch
new_envoy_filter-IsRouteOf net c pols p policy route h e asks =
    elim (Elem-append p (cluster_patch c).1
      (filter_patch c (cluster_patch c).0 ∷ (disable_patch ∷ policy_patches pols)) e) [
        | inl m ↦ absurd (cluster_patch-Asks c p policy route m asks)
        | inr (inl q) ↦ absurd (ground (arith, q, asks))
        | inr (inr (inl q)) ↦ absurd (ground (arith, q, asks))
        | inr (inr (inr m)) ↦
            policy_patches-IsRouteOf pols p policy route (AreMade-AreRouted net pols h) m asks
      ]
