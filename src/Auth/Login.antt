-- ===== src/Auth/Login.antt =====
-- What a finished login leaves: a token by which the next request is known.
use istio_oidc.Common.{◌+◌, ◌<◌, ◌^◌, String, false, ◌∷◌, some, ok, ◌≡◌, refl, arith, ◌==◌, or_else}
use istio_oidc.Common.Map
use istio_oidc.Common.Map.{Distinct}
use istio_oidc.Session
use istio_oidc.Session.{Stamped}
use istio_oidc.Session.Serials.{IsCounted, unstamped, numbered, set-own}
use istio_oidc.Replication.Latest.{update-sess_store}
use istio_oidc.OpenId.Token.{OAuth2Token, TokenData, extract_token_data}
use istio_oidc.OpenId.Token.Verified.{extract_token_data-Distinct}
use istio_oidc.Auth.{BearerClaims, AuthLib, Server, Request}
use istio_oidc.Auth.Messages.{bearer}
use istio_oidc.Auth.Authenticate.{parse_bearer, no_provider}
use istio_oidc.Auth.SetToken.{
  Clock, set_token, sign_and_store, store_session, set_session, bearer_of, redirect,
}
use istio_oidc.Auth.Allowing.{IsLoggedIn}

store_session-get :
    (srv : Server) (sess : Session.Session)
    → srv.self.sess_store.curr + 1 < 2 ^ 64
    → IsCounted srv.self.sess_store
    → Session.get (store_session srv (unstamped sess)).self.sess_store sess.id ≡ some sess
unfolding store_session set_session
store_session-get srv sess room counted =
    rw (update-sess_store) ((set-own srv.self.sess_store sess room counted).1)

store_session-sent :
    (srv : Server) (sess : Session.Session)
    → srv.self.sess_store.curr + 1 < 2 ^ 64
    → IsCounted srv.self.sess_store
    → (store_session srv (unstamped sess)).sent ≡ numbered srv.self.sess_store sess ∷ srv.sent
unfolding store_session set_session
store_session-sent srv sess room counted =
    rw ((set-own srv.self.sess_store sess room counted).0) refl

-- Claims that say the same: JSON keeps the entries of a map, but not their order.
pub record SameClaims (read claims : BearerClaims) : Type 0 where
  pub subject : read.subject ≡ claims.subject
  pub expiry : read.expiry ≡ claims.expiry
  pub roles : (p : String) → Map.get p read.roles ≡ Map.get p claims.roles

-- What the tokens rely on: a text that the signer makes of claims by a key is not empty, and parsing
-- it by the same key gives claims that say the same. The expiry is a number of seconds, and the roles
-- are a map, which has each prefix once.
abbrev pub IsSigning : AuthLib → String → Type 0
IsSigning lib key =
    (claims : BearerClaims) (tok : String)
    → Distinct claims.roles
    → lib.sign_bearer key claims ≡ some tok
    → ((read : BearerClaims) × (parse_bearer lib key tok ≡ some read) × SameClaims read claims)
      × ((tok == "") ≡ false)

-- The session that a new bearer token stands for.
abbrev pub login_session : AuthLib → String → OAuth2Token → TokenData → Session.Session
login_session lib tok token d = record {
  id = lib.sha512 tok;
  refresh_token = token.refresh;
  expiry = d.expiry;
}

-- A login or a renewal logs the user in: where the provider's tokens give the data `d` and the signer
-- makes `tok` of it, the answer is the redirection with `tok`, the session of `tok` goes to the other
-- peers with this store's next serial, and any later request that carries `tok`, for a policy of the
-- same secret, is known by claims that say the same as those of `d`, with the provider's expiry in whole
-- seconds. The signer is one that IsSigning, the counter of the
-- sessions has reached the store's own list, and it does not overflow.
pub set_token-IsLoggedIn :
    (lib : AuthLib) (srv : Server) (req : Request) (token : OAuth2Token) (uri : String)
    (clock : Clock)
    → (d : TokenData) (tok : String) (next : Request) → IsSigning lib req.policy.oidc.token_secret
    → srv.self.sess_store.curr + 1 < 2 ^ 64
    → IsCounted srv.self.sess_store
    → extract_token_data lib.jose
        (or_else req.policy.oidc.provider no_provider)
        token
        clock.at_access
        clock.at_id
      ≡ ok d
    → lib.sign_bearer req.policy.oidc.token_secret (bearer_of lib token d) ≡ some tok
    → next.policy.oidc.token_secret ≡ req.policy.oidc.token_secret
    → bearer next.cookies ≡ tok
    → (srv' : Server) × (read : BearerClaims) × (set_token lib srv req token uri clock
        ≡ ok (srv', redirect lib tok req uri))
      × (srv'.sent ≡ numbered srv.self.sess_store (login_session lib tok token d) ∷ srv.sent)
      × SameClaims read (bearer_of lib token d)
      × IsLoggedIn lib srv' next read (login_session lib tok token d)
unfolding set_token sign_and_store
set_token-IsLoggedIn lib srv req token uri clock d tok next signing room counted data_ok signed same
      carried =
    let sess = login_session lib tok token d in
    let roles =
      extract_token_data-Distinct lib.jose (or_else req.policy.oidc.provider no_provider) token
        clock.at_access clock.at_id d data_ok in
    let ((read, parsed, says), some_text) = signing (bearer_of lib token d) tok roles signed in
    (
      store_session srv (unstamped sess),
      read,
      ground (arith, data_ok, signed),
      store_session-sent srv sess room counted,
      says,
      rw (same, carried) (some_text, parsed, store_session-get srv sess room counted),
    )
