-- ===== src/Auth/Roaming/Examples.antt =====
-- A login at one peer, and a request at another that has no session yet.
use istio_oidc.Common.{ℕ, [], ◌∷◌, ok, ◌≡◌, refl, arith, back}
use istio_oidc.Common.Map
use istio_oidc.Session.{Stamped, new_session_store, list_of}
use istio_oidc.Session.Invariant.{Above}
use istio_oidc.Session.Examples.{fresh, fresh-IsCounted}
use istio_oidc.Replication.Maps.{Timestamps}
use istio_oidc.Replication.Latest.{new_self}
use istio_oidc.Replication.Stream
use istio_oidc.Replication.Stream.{to_message}
use istio_oidc.OpenId.Examples.{login_token, login_data, login_data_extracted}
use istio_oidc.Auth.{BearerClaims, Server}
use istio_oidc.Auth.SetToken.{set_token, bearer_of, redirect}
use istio_oidc.Auth.Allowing.{IsLoggedIn}
use istio_oidc.Auth.Login.{SameClaims, login_session}
use istio_oidc.Auth.Examples.{
  signer, peer, known, clock, signer-IsSigning, login_text, returning, returning_bearer,
}
use istio_oidc.Auth.Roaming.{told, set_token-told}

abbrev plain : Timestamps
plain = record { Timestamp = ℕ; new = λ t. t; as_time = λ t. t; as_time-new = λ t. refl }

abbrev other : Server
other = record (peer fresh) { self = new_self "other" "10.0.0.2:8080" (new_session_store "other") }

none_yet : Above (back (list_of other.self.sess_store "self")) 1
unfolding list_of Map.get
none_yet = tt

set_token-told_example :
    (srv' : Server) × (v : Stamped) × (read : BearerClaims) × (set_token signer
        (peer fresh)
        known
        login_token
        "/orders"
        clock
      ≡ ok (srv', redirect signer login_text known "/orders"))
    × (srv'.sent ≡ v ∷ [])
    × ((Stream.set_session plain other.self (to_message plain v)).1 ≡ ok tt)
    × SameClaims read (bearer_of signer login_token login_data)
    × IsLoggedIn signer
        (told plain other v)
        returning
        read
        (login_session signer login_text login_token login_data)
set_token-told_example =
    set_token-told plain signer (peer fresh) other known login_token "/orders" clock login_data
      login_text returning signer-IsSigning (omega arith) fresh-IsCounted login_data_extracted refl
      refl returning_bearer none_yet
