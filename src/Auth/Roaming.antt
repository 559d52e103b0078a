-- ===== src/Auth/Roaming.antt =====
-- A login at one peer, and a request that comes to another: `setToken` of auth/check.go, `SetSession` of
-- replication/server.go between them, and `isAuthenticated`.
mod Examples
use istio_oidc.Common.{
  ℕ, ◌+◌, ◌<◌, ◌^◌, String, false, List, ◌∷◌, some, ok, ◌≡◌, refl, arith, ◌==◌, or_else, back, sym,
  ap, ◌∙◌, eq_refl, if◌then◌else◌, Result, eqb,
}
use istio_oidc.Session
use istio_oidc.Session.{Stamped, SessionStore, list_of, is_unstamped, push_back, ensure}
use istio_oidc.Session.Invariant.{Above, get-push_back, list_of-ensure}
use istio_oidc.Session.Foreign.{set-foreign}
use istio_oidc.Session.Serials.{IsCounted, numbered}
use istio_oidc.Replication.Maps.{Timestamps}
use istio_oidc.Replication.Latest.{Self}
use istio_oidc.Replication.Stream
use istio_oidc.Replication.Stream.{to_message}
use istio_oidc.Replication.Arriving.{set_session-sess_store, set_session-answer}
use istio_oidc.OpenId.Token.{OAuth2Token, TokenData, extract_token_data}
use istio_oidc.Auth.{BearerClaims, AuthLib, Server, Request}
use istio_oidc.Auth.Messages.{bearer}
use istio_oidc.Auth.Authenticate.{no_provider}
use istio_oidc.Auth.SetToken.{Clock, set_token, bearer_of, redirect}
use istio_oidc.Auth.Allowing.{IsLoggedIn}
use istio_oidc.Auth.Login.{IsSigning, SameClaims, login_session, set_token-IsLoggedIn}

-- The peer when a session has reached its `SetSession`.
abbrev pub told : Timestamps → Server → Stamped → Server
told ts peer v = record peer { self = (Stream.set_session ts peer.self (to_message ts v)).0 }

numbered_stamped :
    (s : SessionStore) (sess : Session.Session) → is_unstamped (numbered s sess) ≡ false
unfolding is_unstamped
numbered_stamped s sess = ground arith

foreign-get :
    (s : SessionStore) (v : Stamped)
    → is_unstamped v ≡ false
    → Above (back (list_of s v.peer_id)) v.serial
    → Session.get (Session.set s v).0 v.id ≡ some v.session
foreign-get s v st a =
    rw (set-foreign s v st a, get-push_back (ensure s v.peer_id) v v.id, eq_refl v.id) refl

told-get :
    (ts : Timestamps) (peer : Server) (v : Stamped)
    → is_unstamped v ≡ false
    → Above (back (list_of peer.self.sess_store v.peer_id)) v.serial
    → Session.get (told ts peer v).self.sess_store v.id ≡ some v.session
told-get ts peer v st a =
    ap (λ s. Session.get s v.id) (set_session-sess_store ts peer.self v)
    ∙ foreign-get peer.self.sess_store v st a

-- A login at one peer logs the user in at another. Under the conditions under which `setToken` logs the
-- user in, let its session reach another peer that has no session of this one with the same serial or
-- a later one: it is accepted there, and any later request that the other peer gets with the token,
-- for a policy of the same secret, is known by claims that say the same as those of `d`, with the
-- provider's expiry in whole seconds.
pub set_token-told :
    (ts : Timestamps) (lib : AuthLib) (srv peer : Server) (req : Request) (token : OAuth2Token)
    (uri : String) (clock : Clock) (d : TokenData) (tok : String) (next : Request)
    → IsSigning lib req.policy.oidc.token_secret
    → srv.self.sess_store.curr + 1 < 2 ^ 64
    → IsCounted srv.self.sess_store
    → extract_token_data lib.jose
        (or_else req.policy.oidc.provider no_provider)
        token
        clock.at_access
        clock.at_id
      ≡ ok d
    → lib.sign_bearer req.policy.oidc.token_secret (bearer_of lib token d) ≡ some tok
    → next.policy.oidc.token_secret ≡ req.policy.oidc.token_secret
    → bearer next.cookies ≡ tok
    → Above
        (back (list_of peer.self.sess_store srv.self.sess_store.self_id))
        (srv.self.sess_store.curr + 1)
    → (srv' : Server) × (v : Stamped) × (read : BearerClaims) × (set_token lib srv req token uri
          clock
        ≡ ok (srv', redirect lib tok req uri))
      × (srv'.sent ≡ v ∷ srv.sent)
      × ((Stream.set_session ts peer.self (to_message ts v)).1 ≡ ok tt)
      × SameClaims read (bearer_of lib token d)
      × IsLoggedIn lib (told ts peer v) next read (login_session lib tok token d)
set_token-told ts lib srv peer req token uri clock d tok next signing room counted data_ok signed
      same carried above =
    let (srv', read, answered, sent, says, (some_text, parsed, _)) =
      set_token-IsLoggedIn lib srv req token uri clock d tok next signing room counted data_ok
        signed same carried in
    let v = numbered srv.self.sess_store (login_session lib tok token d) in
    let st = numbered_stamped srv.self.sess_store (login_session lib tok token d) in
    (
      srv',
      v,
      read,
      answered,
      sent,
      set_session-answer ts peer.self v st above,
      says,
      (
        some_text,
        parsed,
        ap (λ t. Session.get (told ts peer v).self.sess_store (lib.sha512 t)) carried
            ∙ told-get ts peer v st above,
      ),
    )
