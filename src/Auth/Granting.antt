-- ===== src/Auth/Granting.antt =====
-- The headers that a request is given.
use istio_oidc.Common.{
  String, List, [], ◌∷◌, Option, none, some, ◌≡◌, refl, arith, if◌then◌else◌, ◌==◌, eq_iff,
}
use istio_oidc.Common.Map
use istio_oidc.Common.Map.{GoMap, get-put}
use istio_oidc.AccessPolicy.{Header}
use istio_oidc.Auth.{Request}
use istio_oidc.Auth.Roles.{has_roles}
use istio_oidc.Auth.Authenticate.{authorize, granted_headers}

-- The headers of a list with a name that the roles suffice for, the last one first: what the
-- request is given.
abbrev pub last_granted : List Header → GoMap (List String) → String → Option String
last_granted [] roles name = none
last_granted (h ∷ hs) roles name = elim (last_granted hs roles name) [
  | some v ↦ some v
  | none ↦ if h.name == name then if has_roles h.roles roles then some h.value else none else none
]

abbrev or_old : Option String → Option String → Option String
or_old none old = old
or_old (some v) old = some v

granted_headers-get :
    (hs : List Header) (roles : GoMap (List String)) (m : GoMap String) (name : String)
    → Map.get name (granted_headers hs roles m)
      ≡ or_old (last_granted hs roles name) (Map.get name m)
unfolding granted_headers
granted_headers-get [] roles m name = refl
granted_headers-get (h ∷ hs) roles m name = ground (
  arith,
  granted_headers-get hs roles m name,
  granted_headers-get hs roles (Map.put h.name h.value m) name,
  get-put h.name name h.value m,
  eq_iff h.name name,
)

-- The headers of an answer: a request whose roles suffice gets, under each name, the last header of
-- the route with that name and with roles that suffice; any other request gets none.
pub authorize-headers :
    (req : Request) (name : String)
    → Map.get name (authorize req).headers ≡ (
        if has_roles req.route.roles req.claims.roles
        then last_granted req.route.headers req.claims.roles name
        else none)
unfolding authorize Map.get
authorize-headers req name =
    ground (arith, granted_headers-get req.route.headers req.claims.roles [] name)
