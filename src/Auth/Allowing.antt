-- ===== src/Auth/Allowing.antt =====
-- Which requests may pass.
use istio_oidc.Common.{
  String, true, false, Option, none, some, Result, ok, panic, ◌≡◌, ◌≢◌, ◌↔◌, refl, arith, All, eqb,
  ◌==◌, Option-cases, inl, inr, subst, ap, ◌∙◌,
}
use istio_oidc.Session
use istio_oidc.Session.{Session}
use istio_oidc.OpenId.Token.{OAuth2Token, TokenData}
use istio_oidc.AccessPolicy.{is_callback}
use istio_oidc.Auth.{BearerClaims, AuthLib, Server, Request, Response}
use istio_oidc.Auth.Roles.{has_roles, has_roles_iff, IsProvided}
use istio_oidc.Auth.Messages.{location, bearer}
use istio_oidc.Auth.Location.{location_total}
use istio_oidc.Auth.Authenticate.{parse_bearer, authenticated, session_of, start_oidc, authorize}
use istio_oidc.Auth.SetToken.{Clock, set_token, sign_and_store}
use istio_oidc.Auth.Check.{exchange_code, finish_oidc, update_token, check_bearer, check}

module _ (lib : AuthLib) where
  -- A result of the check that is no pass.
  abbrev NoPass : Result (Server × Response) → Type 0
  NoPass x = (r : Server × Response) → x ≡ ok r → eqb r.1.status 200 ≡ false

  start_oidc-status : (req : Request) → eqb (start_oidc lib req).status 200 ≡ false
  unfolding start_oidc
  start_oidc-status req = ground arith

  sign_and_store-status :
      (srv : Server) (req : Request) (token : OAuth2Token) (uri : String) (d : TokenData)
      → eqb (sign_and_store lib srv req token uri d).1.status 200 ≡ false
  unfolding sign_and_store
  sign_and_store-status srv req token uri d = ground arith

  set_token-NoPass :
      (srv : Server) (req : Request) (token : OAuth2Token) (uri : String) (clock : Clock)
      → NoPass (set_token lib srv req token uri clock)
  unfolding set_token
  set_token-NoPass srv req token uri clock r h =
      ground (arith, sign_and_store-status srv req token uri, h)

  exchange_code-NoPass :
      (srv : Server) (req : Request) (code : String) (path : Option String) (clock : Clock)
      → NoPass (exchange_code lib srv req code path clock)
  unfolding exchange_code
  exchange_code-NoPass srv req code none clock r h = ground arith
  exchange_code-NoPass srv req code (some path) clock r h =
      ground (arith, λ (tok : OAuth2Token). set_token-NoPass srv req tok path clock r, h)

  finish_oidc-NoPass :
      (srv : Server) (req : Request) (clock : Clock) → NoPass (finish_oidc lib srv req clock)
  unfolding finish_oidc
  finish_oidc-NoPass srv req clock r h = ground (
    arith,
    λ (code : String) (path : Option String). exchange_code-NoPass srv req code path clock r,
    h,
  )

  update_token-NoPass :
      (srv : Server) (req : Request) (clock : Clock) → NoPass (update_token lib srv req clock)
  unfolding update_token
  update_token-NoPass srv req clock r h =
      ground (arith, λ (tok : OAuth2Token). set_token-NoPass srv req tok "" clock r, h)

  -- The bearer token of the request is signed by the policy's secret, and the store has its session.
  abbrev pub IsLoggedIn : Server → Request → BearerClaims → Session → Type 0
  IsLoggedIn srv req claims sess =
      ((bearer req.cookies == "") ≡ false)
      × (parse_bearer lib req.policy.oidc.token_secret (bearer req.cookies) ≡ some claims)
      × (Session.get srv.self.sess_store (lib.sha512 (bearer req.cookies)) ≡ some sess)

  authenticated-some :
      (srv : Server) (req r : Request)
      → authenticated lib srv req ≡ some r
      → IsLoggedIn srv req r.claims r.session
        × (r ≡ record req { claims = r.claims; session = r.session })
  unfolding authenticated session_of
  authenticated-some srv req r h =
      elim (Option-cases (parse_bearer lib req.policy.oidc.token_secret (bearer req.cookies))) [
        | inl e ↦ absurd (ground (arith, e, h))
        | inr (claims, e) ↦
            elim (Option-cases
              (Session.get srv.self.sess_store (lib.sha512 (bearer req.cookies)))) [
                | inl f ↦ absurd (ground (arith, e, f, h))
                | inr (sess, f) ↦ ground (arith, e, f, h)
              ]
      ]

  -- The request is no callback, its token is valid at the time, and the token's roles are those that
  -- the route requires.
  abbrev pub IsAllowed : Server → Request → Clock → BearerClaims → Session → Type 0
  IsAllowed srv req clock claims sess =
      (is_callback req.policy.oidc req.url ≡ false)
      × IsLoggedIn srv req claims sess
      × (lib.validate claims clock.at_bearer ≡ true)
      × All (IsProvided claims.roles) req.route.roles

  check_bearer-allowed :
      (srv : Server) (o : Option Request) (req : Request) (clock : Clock) (q : Server × Response)
      → check_bearer lib srv o req clock ≡ ok q
      → q.1.status ≡ 200
      → (r : Request) × (o ≡ some r)
        × (lib.validate r.claims clock.at_bearer ≡ true)
        × (has_roles r.route.roles r.claims.roles ≡ true)
        × (q.0 ≡ srv)
        × (q.1 ≡ authorize r)
  unfolding check_bearer authorize
  check_bearer-allowed srv none req clock q e h =
      absurd (ground (arith, start_oidc-status req, e, h))
  check_bearer-allowed srv (some r) req clock q e h =
      let never = update_token-NoPass srv r clock q in
      (
        r,
        refl,
        ground (arith, never, e, h),
        ground (arith, never, e, h),
        ground (arith, never, e, h),
        ground (arith, never, e, h),
      )

  check-allowed :
      (srv : Server) (req : Request) (clock : Clock) (q : Server × Response)
      → check lib srv req clock ≡ ok q
      → q.1.status ≡ 200
      → (is_callback req.policy.oidc req.url ≡ false)
        × (check_bearer lib srv (authenticated lib srv req) req clock ≡ ok q)
  unfolding check
  check-allowed srv req clock q e h =
      let never = finish_oidc-NoPass srv req clock q in
      (ground (arith, never, e, h), ground (arith, never, e, h))

  authenticated-IsLoggedIn :
      (srv : Server) (req : Request) (claims : BearerClaims) (sess : Session)
      → IsLoggedIn srv req claims sess
      → authenticated lib srv req ≡ some (record req { claims = claims; session = sess })
  unfolding authenticated session_of
  authenticated-IsLoggedIn srv req claims sess h = ground (arith, h)

  check_passes :
      (srv : Server) (req : Request) (clock : Clock) (claims : BearerClaims) (sess : Session)
      → is_callback req.policy.oidc req.url ≡ false
      → IsLoggedIn srv req claims sess
      → lib.validate claims clock.at_bearer ≡ true
      → location lib.net req.url ≢ panic
      → check lib srv req clock
        ≡ ok (srv, authorize (record req { claims = claims; session = sess }))
  unfolding check check_bearer
  check_passes srv req clock claims sess direct logged_in valid logged =
      let (loc, e) = location_total lib.net req.url logged in
      ground (arith, e, direct, authenticated-IsLoggedIn srv req claims sess logged_in, valid)

  authorize-status :
      (r : Request) → has_roles r.route.roles r.claims.roles ≡ true → (authorize r).status ≡ 200
  unfolding authorize
  authorize-status r h = ground (arith, h)

  -- A check whose address can be logged answers 200 if and only if the request is no callback, it has a
  -- bearer token that is signed by the policy's secret and valid at the time, the store has the token's
  -- session, and the token provides each role that the route requires.
  pub check_allows_iff :
      (srv : Server) (req : Request) (clock : Clock)
      → location lib.net req.url ≢ panic
      → ((srv' : Server) × (res : Response) × (check lib srv req clock ≡ ok (srv', res))
          × (res.status ≡ 200))
        ↔ ((claims : BearerClaims) × (sess : Session) × IsAllowed srv req clock claims sess)
  check_allows_iff srv req clock logged = (
    λ h.
        let (srv', res, e, ok200) = h in
        let (direct, e') = check-allowed srv req clock (srv', res) e ok200 in
        let (r, f, valid, roles, _, _) =
          check_bearer-allowed srv (authenticated lib srv req) req clock (srv', res) e' ok200 in
        let (logged_in, same) = authenticated-some srv req r f in
        (
          r.claims,
          r.session,
          (
            direct,
            logged_in,
            valid,
            (has_roles_iff req.route.roles r.claims.roles).0
                (subst (λ x. has_roles x.route.roles r.claims.roles ≡ true) same roles),
          ),
        ),
    λ h.
        let (claims, sess, allowed) = h in
        let (direct, logged_in, valid, roles) = allowed in
        (
          srv,
          authorize (record req { claims = claims; session = sess }),
          check_passes srv req clock claims sess direct logged_in valid logged,
          authorize-status (record req { claims = claims; session = sess })
              ((has_roles_iff req.route.roles claims.roles).1 roles),
        ),
  )

  -- A check that answers 200 changes nothing of the server, and its answer is the authorization of the
  -- request with the claims and the session of its bearer token.
  pub check_answers :
      (srv srv' : Server) (req : Request) (clock : Clock) (res : Response)
      → check lib srv req clock ≡ ok (srv', res)
      → res.status ≡ 200
      → (srv' ≡ srv)
        × ((claims : BearerClaims) × (sess : Session) × IsLoggedIn srv req claims sess
            × (res ≡ authorize (record req { claims = claims; session = sess })))
  check_answers srv srv' req clock res e h =
      let (_, e') = check-allowed srv req clock (srv', res) e h in
      let (r, f, _, _, kept, answered) =
        check_bearer-allowed srv (authenticated lib srv req) req clock (srv', res) e' h in
      let (logged_in, same) = authenticated-some srv req r f in
      (kept, (r.claims, r.session, logged_in, answered ∙ ap authorize same))
