-- ===== src/Auth/Check.antt =====
-- auth/check.go and serverv2.go: the decision on a request.
use Prim.Native.String.{◌++◌}
use istio_oidc.Common.{
  ℕ, String, List, [], ◌∷◌, Option, none, some, Result, ok, err, panic, ◌>>=◌, eqb, if◌then◌else◌,
}
use istio_oidc.Common.Map.{GoMap}
use istio_oidc.Net.{Url}
use istio_oidc.AccessPolicy.{is_callback}
use istio_oidc.Auth.{AuthLib, Server, Request, Response}
use istio_oidc.Auth.Messages.{values, location, meta, new_request}
use istio_oidc.Auth.Authenticate.{answer, authorize, oauth2, parse_state, authenticated, start_oidc}
use istio_oidc.Auth.SetToken.{Clock, set_token}

-- The call of the proxy, and what it is answered (serverv2.go).
pub record CheckRequest : Type 0 where
  pub headers : GoMap String
  pub host : String
  pub path : String
  pub context_extensions : GoMap String

pub data CheckResponse : Type 0 where
  ok_response : GoMap String → CheckResponse
  denied_response : ℕ → GoMap String → CheckResponse

-- The two values, where each list has exactly one.
unfoldable pub single : List String → List String → Option (String × String)
single (s ∷ []) (c ∷ []) = some (s, c)
single _ _ = none

module _ (lib : AuthLib) where
  open lib use {net, jose}

  -- The parameters of a callback: one state and one code.
  unfoldable pub callback_query : Url → Option (String × String)
  unfolding single
  callback_query url = single (values "state" (net.query url)) (values "code" (net.query url))

  -- `finishOidc`, once the state token is read: the exchange of the code.
  unfoldable pub exchange_code :
      Server → Request → String → Option String → Clock → Result (Server × Response)
  unfolding set_token oauth2
  exchange_code srv req code none clock = ok (srv, answer 400)
  exchange_code srv req code (some path) clock =
      elim (lib.exchange (oauth2 lib req.policy.oidc req.url) code) [
        | none ↦ ok (srv, answer 403)
        | some tok ↦ set_token lib srv req tok path clock
      ]

  unfoldable pub finish_oidc : Server → Request → Clock → Result (Server × Response)
  unfolding exchange_code callback_query parse_state
  finish_oidc srv req clock = elim (callback_query req.url) [
    | none ↦ ok (srv, answer 400)
    | some q ↦ exchange_code srv req q.1 (parse_state lib req.policy.oidc.token_secret q.0) clock
  ]

  unfoldable pub update_token : Server → Request → Clock → Result (Server × Response)
  unfolding set_token oauth2
  update_token srv req clock =
      elim (lib.refresh (oauth2 lib req.policy.oidc req.url) req.session.refresh_token) [
        | none ↦ ok (srv, answer 403)
        | some tok ↦ set_token lib srv req tok "" clock
      ]

  -- The part of `check` behind the test for a callback.
  unfoldable pub check_bearer :
      Server → Option Request → Request → Clock → Result (Server × Response)
  unfolding start_oidc update_token authorize
  check_bearer srv none req clock = ok (srv, start_oidc lib req)
  check_bearer srv (some r) req clock =
      if lib.validate r.claims clock.at_bearer
      then ok (srv, authorize r)
      else update_token srv r clock

  -- `check`. The address is computed for the log, and may panic.
  unfoldable pub check : Server → Request → Clock → Result (Server × Response)
  unfolding check_bearer finish_oidc authenticated location is_callback
  check srv req clock = location net req.url >>= λ _.
      if is_callback req.policy.oidc req.url
      then finish_oidc srv req clock
      else check_bearer srv (authenticated lib srv req) req clock

  -- What the proxy is told: whether the request may pass, the status of a refusal, and the headers.
  unfoldable pub check_response : Response → CheckResponse
  check_response r =
      if eqb r.status 200 then ok_response r.headers else denied_response r.status r.headers

  -- `ServerV2.Check`
  unfoldable pub check_v2 : Server → CheckRequest → Clock → Result (Server × CheckResponse)
  unfolding check new_request check_response
  check_v2 srv q clock =
      elim (new_request lib srv
        (meta "x-forwarded-proto" q.headers ++ ("://" ++ (q.host ++ q.path)))
        (meta "cookie" q.headers) (meta "sec-fetch-mode" q.headers) q.context_extensions) [
          | ok req ↦ check srv req clock >>= λ r. ok (r.0, check_response r.1)
          | err e ↦ ok (srv, check_response (answer 400))
          | panic ↦ panic
        ]
