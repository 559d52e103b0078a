-- ===== src/Auth/SetToken.antt =====
-- auth/check.go: `setToken`, the end of a login and of a renewal.
use istio_oidc.Common.{
  ℕ, String, [], ◌∷◌, none, some, Result, ok, err, panic, or_else, if◌then◌else◌, ◌==◌,
}
use istio_oidc.Session
use istio_oidc.Session.{Stamped}
use istio_oidc.Replication.Latest
use istio_oidc.Replication.Latest.{Self}
use istio_oidc.OpenId.Token.{OAuth2Token, TokenData, extract_token_data}
use istio_oidc.Auth.{BearerClaims, AuthLib, Server, Request, Response}
use istio_oidc.Auth.Messages.{no_session}
use istio_oidc.Auth.Authenticate.{answer, no_provider, expiry_claim}

-- The clock's readings in one check: for the bearer token, the access token and the ID token.
pub record Clock : Type 0 where
  pub at_bearer : ℕ
  pub at_access : ℕ
  pub at_id : ℕ

-- `Client.SetSession`: this peer advertises the serial, and the session goes to every connection.
unfoldable pub set_session : Server → Stamped → Server
set_session srv sess = record srv {
  self = Latest.update srv.self srv.self.id sess.serial;
  sent = sess ∷ srv.sent;
}

abbrev pub zero_stamped : Stamped
zero_stamped = record { session = no_session; stamp = record { peer_id = ""; serial = 0 } }

-- `sess, _ = srv.Sessions.Set(sess)`: a refused session is the zero value from here on.
abbrev pub stored : Result Stamped → Stamped
stored (ok v) = v
stored _ = zero_stamped

unfoldable pub store_session : Server → Stamped → Server
unfolding set_session
store_session srv sess =
    let (store', r) = Session.set srv.self.sess_store sess in
    set_session (record srv { self = record (srv.self) { sess_store = store' } }) (stored r)

module _ (lib : AuthLib) where
  open lib use {net, jose}

  -- The session of a new bearer token, with no stamp.
  abbrev pub new_session : String → OAuth2Token → TokenData → Stamped
  new_session tok token data' = record {
    session = record { id = lib.sha512 tok; refresh_token = token.refresh; expiry = data'.expiry };
    stamp = record { peer_id = ""; serial = 0 };
  }

  abbrev pub bearer_of : OAuth2Token → TokenData → BearerClaims
  bearer_of token data' = record {
    subject = data'.subject;
    expiry = expiry_claim lib token.expiry;
    roles = data'.roles;
  }

  abbrev pub redirect : String → Request → String → Response
  redirect tok req uri =
      if uri == ""
      then record {
        status = 307;
        headers = ("set-cookie", lib.set_cookie tok) ∷ ("location", net.request_uri req.url) ∷ [];
      }
      else record {
        status = 303;
        headers = ("set-cookie", lib.set_cookie tok) ∷ ("location", uri) ∷ [];
      }

  unfoldable pub sign_and_store :
      Server → Request → OAuth2Token → String → TokenData → Server × Response
  unfolding store_session
  sign_and_store srv req token uri data' =
      elim (lib.sign_bearer req.policy.oidc.token_secret (bearer_of token data')) [
        | none ↦ (srv, answer 500)
        | some tok ↦ (store_session srv (new_session tok token data'), redirect tok req uri)
      ]

  -- `setToken`
  unfoldable pub set_token :
      Server → Request → OAuth2Token → String → Clock → Result (Server × Response)
  unfolding sign_and_store
  set_token srv req token uri clock =
      elim (extract_token_data jose (or_else req.policy.oidc.provider no_provider) token
        clock.at_access clock.at_id) [
          | ok data' ↦ ok (sign_and_store srv req token uri data')
          | err e ↦ ok (srv, answer 500)
          | panic ↦ panic
        ]
