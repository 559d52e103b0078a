-- ===== src/Api/Validation.antt =====
-- The Validate methods of api/accesspolicy.go, which collect errors.
use istio_oidc.Common.{
  String, false, List, [], ◌∷◌, ◌++◌, Option, none, some, ◌==◌, ◌≡◌, refl, arith, ◌↔◌, ◌≢◌, eq_iff,
  All, inl, inr, Option-cases,
}
use istio_oidc.Common.Map
use istio_oidc.Common.Map.{GoMap, get-put}
use istio_oidc.Net.{UrlLib}
use istio_oidc.Api.{
  ApiOidc, ApiRoute, ApiSpec, or_default, normalize, normalize_oidc, normalize_secret,
}
use istio_oidc.Api.Provider.{match_provider}

-- `errs = append(errs, err)`, where the call before has no answer.
abbrev note : {A : Type 0} → Option A → String → List String → List String
note none e errs = errs ++ (e ∷ [])
note (some a) e errs = errs

module _ (net : UrlLib) where
  unfoldable pub validate_oidc : ApiOidc → List String → List String
  validate_oidc o errs =
      let with_provider = note (match_provider o.provider) "invalid OpenID provider" errs in
      note (net.parse o.callback_path) "invalid callback path" with_provider

-- The loop over the routes, with the names seen and the errors so far.
unfoldable pub validate_routes : List ApiRoute → GoMap {0} Unit → List String → List String
validate_routes [] names errs = errs
validate_routes (r ∷ rs) names errs = elim (Map.get r.name names) [
  | some _ ↦ validate_routes rs names (errs ++ ("duplicate route name" ∷ []))
  | none ↦ validate_routes rs (Map.put r.name tt names) errs
]

unfoldable pub validate_spec : UrlLib → ApiSpec → List String → List String
unfolding validate_oidc validate_routes
validate_spec net spec errs = validate_routes spec.routes [] (validate_oidc net spec.oidc errs)

-- No two routes have the same name.
abbrev pub DistinctNames : List ApiRoute → Type 0
DistinctNames [] = Unit
DistinctNames (r ∷ rs) = All (λ q. (r.name == q.name) ≡ false) rs × DistinctNames rs

-- None of the routes has a name of the map.
abbrev Fresh : GoMap {0} Unit → List ApiRoute → Type 0
Fresh names rs = All (λ q. Map.get q.name names ≡ none) rs

Fresh-put :
    (n : String) (names : GoMap {0} Unit) (rs : List ApiRoute)
    → Fresh (Map.put n tt names) rs
    → Fresh names rs × All (λ q. (n == q.name) ≡ false) rs
Fresh-put n names [] h = (tt, tt)
Fresh-put n names (q ∷ rs) h =
    let rest = Fresh-put n names rs h.1 in ground (arith, get-put n q.name tt names)

Fresh-put_back :
    (n : String) (names : GoMap {0} Unit) (rs : List ApiRoute)
    → Fresh names rs
    → All (λ q. (n == q.name) ≡ false) rs
    → Fresh (Map.put n tt names) rs
Fresh-put_back n names [] h k = tt
Fresh-put_back n names (q ∷ rs) h k =
    (ground (arith, get-put n q.name tt names), Fresh-put_back n names rs h.1 k.1)

abbrev names_seen : GoMap {0} Unit
names_seen = []

get_nil : (k : String) → Map.get k names_seen ≡ none
unfolding Map.get
get_nil k = refl

Fresh-nil : (rs : List ApiRoute) → Fresh [] rs
Fresh-nil [] = tt
Fresh-nil (q ∷ rs) = (get_nil q.name, Fresh-nil rs)

snoc_not_nil : (xs : List String) (x : String) → xs ++ (x ∷ []) ≢ []
snoc_not_nil [] x h = ground arith
snoc_not_nil (y ∷ ys) x h = ground arith

validate_routes_only :
    (rs : List ApiRoute) (names : GoMap {0} Unit) (errs : List String)
    → validate_routes rs names errs ≡ []
    → (errs ≡ []) × Fresh names rs × DistinctNames rs
unfolding validate_routes
validate_routes_only [] names errs h = (h, tt, tt)
validate_routes_only (r ∷ rs) names errs h = elim (Option-cases (Map.get r.name names)) [
  | inl new ↦
      let (e, f, d) =
        validate_routes_only rs (Map.put r.name tt names) errs (ground (arith, new, h)) in
      let (g, k) = Fresh-put r.name names rs f in (e, (new, g), (k, d))
  | inr (_, old) ↦ absurd (
      snoc_not_nil errs _
        (validate_routes_only rs names (errs ++ ("duplicate route name" ∷ []))
          (ground (arith, old, h))).0)
]

validate_routes_if :
    (rs : List ApiRoute) (names : GoMap {0} Unit)
    → Fresh names rs
    → DistinctNames rs
    → validate_routes rs names [] ≡ []
unfolding validate_routes
validate_routes_if [] names f d = refl
validate_routes_if (r ∷ rs) names f d =
    let next = Fresh-put_back r.name names rs f.1 d.0 in
    ground (arith, f.0, validate_routes_if rs (Map.put r.name tt names) next d.1)

validate_oidc_iff :
    (net : UrlLib) (o : ApiOidc)
    → (validate_oidc net o [] ≡ [])
      ↔ ((match_provider o.provider ≢ none) × (net.parse o.callback_path ≢ none))
unfolding validate_oidc
validate_oidc_iff net o = (λ h. ground arith, λ h. ground arith)

-- A specification is valid, that is its validation collects no error, if and only if the reference
-- to the provider is well formed, the callback path parses and no two routes have the same name.
pub validate_spec_iff :
    (net : UrlLib) (spec : ApiSpec)
    → (validate_spec net spec [] ≡ []) ↔ (
        (match_provider spec.oidc.provider ≢ none)
        × (net.parse spec.oidc.callback_path ≢ none)
        × DistinctNames spec.routes)
unfolding validate_spec
validate_spec_iff net spec = (
  λ h.
      let (e, _, d) = validate_routes_only spec.routes [] (validate_oidc net spec.oidc []) h in
      let (p, c) = (validate_oidc_iff net spec.oidc).0 e in (p, c, d),
  λ h.
      rw ((validate_oidc_iff net spec.oidc).1 (h.0, h.1))
        (validate_routes_if spec.routes [] (Fresh-nil spec.routes) h.2),
)

or_default_twice : (s d : String) → or_default (or_default s d) d ≡ or_default s d
or_default_twice s d = ground (arith, eq_iff s "")

-- The defaults are filled in once: a second normalization changes nothing.
normalize_idempotent : (spec : ApiSpec) → normalize (normalize spec) ≡ normalize spec
unfolding normalize normalize_oidc normalize_secret
normalize_idempotent spec =
    let secret = spec.oidc.credentials_secret in
    rw
      (
        or_default_twice secret.client_id_key "clientID",
        or_default_twice secret.client_secret_key "clientSecret",
        or_default_twice secret.token_secret_key "tokenKey",
        or_default_twice spec.oidc.callback_path "/odic/callback",
      )
      refl
