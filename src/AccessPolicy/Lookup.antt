-- ===== src/AccessPolicy/Lookup.antt =====
-- What a look-up finds: in the routes of a policy that was made of its resource, and in the store.
use Prim.Native.String.{◌++◌}
use istio_oidc.Common.{
  String, false, List, [], ◌∷◌, map, Option, none, some, ok, if◌then◌else◌, ◌==◌, ◌≡◌, refl, ap,
  arith, ◌↔◌, ◌≢◌, eq_iff, inl, inr, Result-cases, Elem, All,
}
use istio_oidc.Common.Map
use istio_oidc.Common.Map.{
  GoMap, get-put, get-remove, Distinct, Distinct-put, Distinct-remove, get-Elem, Elem-get,
}
use istio_oidc.Net.{UrlLib}
use istio_oidc.Api.{ApiRoute, ApiAccessPolicy}
use istio_oidc.AccessPolicy.{
  Route, AccessPolicy, PolicyStore, convert_route, convert_routes, initial_route, new_policy,
  convert_oidc, credentials, find, update_policy, delete_policy, stream_policies,
}

-- The last route of a name.
abbrev pub last_named : String → List ApiRoute → Option ApiRoute
last_named name [] = none
last_named name (r ∷ rs) = elim (last_named name rs) [
  | some q ↦ some q
  | none ↦ if r.name == name then some r else none
]

abbrev pub converted : Option ApiRoute → Option Route → Option Route
converted none d = d
converted (some r) d = some (convert_route r)

abbrev pub route_or : Option ApiRoute → Route → Route
route_or none d = d
route_or (some r) d = convert_route r

abbrev no_routes : GoMap Route
no_routes = []

get_nil : (k : String) → Map.get k no_routes ≡ none
unfolding Map.get
get_nil k = refl

convert_routes-named :
    (rs : List ApiRoute) (def : Route) (routes : GoMap Route) (name : String)
    → (name == "") ≡ false
    → Map.get name (convert_routes rs def routes).1
      ≡ converted (last_named name rs) (Map.get name routes)
unfolding convert_routes
convert_routes-named [] def routes name h = refl
convert_routes-named (r ∷ rs) def routes name h = ground (
  arith,
  convert_routes-named rs (convert_route r) routes name h,
  convert_routes-named rs def (Map.put r.name (convert_route r) routes) name h,
  get-put r.name name (convert_route r) routes,
  eq_iff r.name "",
  eq_iff r.name name,
  eq_iff name "",
)

convert_routes-default :
    (rs : List ApiRoute) (def : Route) (routes : GoMap Route)
    → (convert_routes rs def routes).0 ≡ route_or (last_named "" rs) def
unfolding convert_routes
convert_routes-default [] def routes = refl
convert_routes-default (r ∷ rs) def routes = ground (
  arith,
  convert_routes-default rs (convert_route r) routes,
  convert_routes-default rs def (Map.put r.name (convert_route r) routes),
)

-- A resource is made a policy if and only if its callback path parses and the secret has the three
-- entries that the resource names.
pub new_policy_iff :
    (net : UrlLib) (ap : ApiAccessPolicy) (secret : GoMap String)
    → ((pol : AccessPolicy) × (new_policy net ap (some secret) ≡ ok pol)) ↔ (
        (net.parse ap.spec.oidc.callback_path ≢ none)
        × (Map.get ap.spec.oidc.credentials_secret.client_id_key secret ≢ none)
        × (Map.get ap.spec.oidc.credentials_secret.client_secret_key secret ≢ none)
        × (Map.get ap.spec.oidc.credentials_secret.token_secret_key secret ≢ none))
unfolding new_policy convert_oidc credentials
new_policy_iff net ap secret = (
  λ h. ground (arith, h.1),
  λ h. elim (Result-cases (new_policy net ap (some secret))) [
    | inl made ↦ made
    | inr (inl (e, failed)) ↦ absurd (ground (arith, failed, h))
    | inr (inr failed) ↦ absurd (ground (arith, failed, h))
  ],
)

-- A policy that is made of its resource has the resource's namespace and name, the route of a name that
-- is not empty is the last route of the resource with that name, and the default route is the last one without a name,
-- or else a route that requires no role.
pub new_policy_lem :
    (net : UrlLib) (ap : ApiAccessPolicy) (secret : Option (GoMap String)) (pol : AccessPolicy)
    → (name : String) → new_policy net ap secret ≡ ok pol
    → (name == "") ≡ false
    → (pol.name ≡ ap.namespace ++ ("/" ++ ap.name))
      × (pol.default_route ≡ route_or (last_named "" ap.spec.routes) initial_route)
      × (Map.get name pol.routes ≡ converted (last_named name ap.spec.routes) none)
unfolding new_policy
new_policy_lem net ap secret pol name h k = (
  ground (arith, h),
  ground (arith, h, convert_routes-default ap.spec.routes initial_route []),
  ground (arith, h, convert_routes-named ap.spec.routes initial_route [] name k, get_nil name),
)

-- Each policy of the store has its name as its key, and no name stands twice.
abbrev pub IsKeyed : PolicyStore → Type 0
IsKeyed s = Distinct s.dict × All (λ e. e.0 ≡ e.1.name) s.dict

All-put :
    (pol : AccessPolicy) (m : GoMap AccessPolicy)
    → All (λ e. e.0 ≡ e.1.name) m
    → All (λ e. e.0 ≡ e.1.name) (Map.put pol.name pol m)
unfolding Map.put
All-put pol [] h = (refl, tt)
All-put pol ((k, v) ∷ m) h = ground (arith, All-put pol m h.1, h)

All-remove :
    (name : String) (m : GoMap AccessPolicy)
    → All (λ e. e.0 ≡ e.1.name) m
    → All (λ e. e.0 ≡ e.1.name) (Map.remove name m)
unfolding Map.remove
All-remove name [] h = tt
All-remove name ((k, v) ∷ m) h = ground (arith, All-remove name m h.1, h)

-- Storing a policy and deleting one keep the store well formed, and they change what the store finds
-- under that one name only.
pub update_delete_lem :
    (pol : AccessPolicy) (name : String) (s : PolicyStore)
    → IsKeyed s
    → IsKeyed (update_policy pol s)
      × IsKeyed (delete_policy name s)
      × ((j : String)
          → find j (update_policy pol s) ≡ (if pol.name == j then some pol else find j s))
      × ((j : String) → find j (delete_policy name s) ≡ (if name == j then none else find j s))
unfolding find update_policy delete_policy
update_delete_lem pol name s h = (
  (Distinct-put pol.name pol s.dict h.0, All-put pol s.dict h.1),
  (Distinct-remove name s.dict h.0, All-remove name s.dict h.1),
  λ j. get-put pol.name j pol s.dict,
  λ j. get-remove name j s.dict,
)

Elem-values :
    (k : String) (pol : AccessPolicy) (m : GoMap AccessPolicy)
    → Elem (k, pol) m
    → Elem pol (map (λ e. e.1) m)
Elem-values k pol [] h = absurd h
Elem-values k pol ((j, v) ∷ m) (inl e) = inl (ap (λ x. x.1) e)
Elem-values k pol ((j, v) ∷ m) (inr e) = inr (Elem-values k pol m e)

values-Elem :
    (pol : AccessPolicy) (m : GoMap AccessPolicy)
    → All (λ e. e.0 ≡ e.1.name) m
    → Elem pol (map (λ e. e.1) m)
    → Elem (pol.name, pol) m
values-Elem pol [] h e = absurd e
values-Elem pol ((j, v) ∷ m) h (inl e) = inl (ground (arith, e, h.0))
values-Elem pol ((j, v) ∷ m) h (inr e) = inr (values-Elem pol m h.1 e)

-- The stream of a well-formed store has exactly the policies that a look-up of their name finds.
pub stream_policies-find :
    (s : PolicyStore) (pol : AccessPolicy)
    → IsKeyed s
    → Elem pol (stream_policies s) ↔ (find pol.name s ≡ some pol)
unfolding stream_policies find
stream_policies-find s pol h = (
  λ e. get-Elem pol.name pol s.dict h.0 (values-Elem pol s.dict h.1 e),
  λ e. Elem-values pol.name pol s.dict (Elem-get pol.name pol s.dict e),
)
