-- ===== src/Replication/Retrying.antt =====
-- What becomes of a connection that handshakes again with a peer that it has caught up with:
-- `reestablish` of replication/connection.go handshakes after each failure. Between the handshakes nothing
-- is set here: the peers stay as they are but for the client's part of each handshake.
use istio_oidc.Common.{
  ℕ, zero, suc, ◌<◌, ◌≤◌, String, ◌≡◌, refl, sym, ap, ◌∙◌, subst, List, [], ◌∷◌, arith, back, Elem,
  true, false, or_else, ◌==◌, eq_refl, inl, select-Elem, Elem-select, back-Elem,
}
use istio_oidc.Common.Map
use istio_oidc.Common.Map.{Distinct, GoMap}
use istio_oidc.Session
use istio_oidc.Session.{Stamped, SessionStore, list_of, since, ensure}
use istio_oidc.Session.Invariant.{IsWellFormed, Ordered-le-back, list_of-ensure}
use istio_oidc.Session.Foreign.{IsKnown, set-foreign_refused}
use istio_oidc.Session.Streaming.{of_peer-stream}
use istio_oidc.Replication.Maps.{Timestamps}
use istio_oidc.Replication.Latest.{Self, latest_of}
use istio_oidc.Replication.Stream.{receive}
use istio_oidc.Replication.CatchUp.{AreStamped, stream-AreStamped, stream-Elem}
use istio_oidc.Replication.Exchange.{
  asked, wanted-asked, IsServing, IsFresh, exchange, exchange_lem, exchange-latest, first_exchange,
}
use istio_oidc.Replication.Handshaking.{catch_up, greeted, advertised, catch_up-told}

-- A stream of which the client has every session leaves its lists as they are, and ends in a refusal
-- unless it is empty.
receive_known :
    (s : SessionStore) (vs : List Stamped) (v : Stamped)
    → AreStamped vs
    → ((w : Stamped) → Elem w vs → IsKnown s w.peer_id w.serial)
    → Elem v vs
    → ((receive s vs).1 ≡ false) × ((k : String) → list_of (receive s vs).0 k ≡ list_of s k)
unfolding receive
receive_known s [] v st known m = absurd m
receive_known s (w ∷ vs) v st known m =
    let (last, b, le) = known w (inl refl) in
    rw (set-foreign_refused s w last st.0 b le) (refl, λ k. list_of-ensure s w.peer_id k)

-- What a stream holds is in the list of its peer.
Elem-stream :
    (s : SessionStore) (from : GoMap ℕ) (v : Stamped)
    → IsWellFormed s
    → Elem v (Session.stream s from)
    → Elem v (list_of s v.peer_id)
unfolding since
Elem-stream s from v h m =
    (select-Elem _ v (list_of s v.peer_id) (
      subst (Elem v) (of_peer-stream s from v.peer_id h) (
        Elem-select (λ w. w.peer_id == v.peer_id) v (Session.stream s from) m
          (eq_refl v.peer_id)))).0

-- A client that has every session of the server, and does not know that it has.
pub record IsCaughtUp (srv cli : Self) : Type 0 where
  pub unknown : (k : String) → latest_of cli k ≡ 0
  pub distinct : Distinct cli.latest
  pub same : (k : String) → list_of cli.sess_store k ≡ list_of srv.sess_store k

list_of-IsKnown :
    (srv cli : Self) (w : Stamped)
    → IsServing srv
    → IsCaughtUp srv cli
    → Elem w (list_of srv.sess_store w.peer_id)
    → IsKnown cli.sess_store w.peer_id w.serial
list_of-IsKnown srv cli w h c m =
    let (last, b) = back-Elem w (list_of srv.sess_store w.peer_id) m in
    (
      last,
      ap back (c.same w.peer_id) ∙ b,
      Ordered-le-back w.peer_id (list_of srv.sess_store w.peer_id) w last
          (h.store.ordered w.peer_id) b m,
    )

module _ (ts : Timestamps) where
  -- One more exchange fails, and the client stays caught up without knowing it.
  exchange-IsCaughtUp :
      (srv cli : Self) (k : String) (v : Stamped)
      → IsServing srv
      → IsCaughtUp srv cli
      → Elem v (list_of srv.sess_store k)
      → ((exchange ts srv cli).1 ≡ false) × IsCaughtUp srv (exchange ts srv cli).0
  exchange-IsCaughtUp srv cli k v h c m =
      let sent = Session.stream srv.sess_store (asked cli) in
      let (no_end, kept) =
        receive_known cli.sess_store sent v
          (stream-AreStamped srv.sess_store (asked cli) h.store h.named)
          (λ w e.
            list_of-IsKnown srv cli w h c (Elem-stream srv.sess_store (asked cli) w h.store e))
          (stream-Elem srv.sess_store (asked cli) k v h.store m
            (rw (wanted-asked cli k c.distinct, c.unknown k) (omega arith))) in
      rw (exchange_lem ts srv cli) (
        no_end,
        record { unknown = c.unknown; distinct = c.distinct; same = λ j. kept j ∙ c.same j },
      )

  catch_up-exchange :
      (srv cli : Self) (k : String)
      → Distinct srv.latest
      → 0 < latest_of srv k
      → latest_of cli k ≡ 0
      → catch_up ts srv cli ≡ exchange ts srv cli
  unfolding catch_up exchange
  catch_up-exchange srv cli k d h z =
      rw (advertised ts srv cli k (Map.get k srv.latest) (greeted ts srv k d) z h) refl

  -- The client after so many handshakes with the server, one after the other.
  unfoldable pub attempts : ℕ → Self → Self → Self
  attempts zero srv cli = cli
  attempts (suc n) srv cli = attempts n srv (catch_up ts srv cli).0

  attempts-fail :
      (n : ℕ) (srv cli : Self) (k j : String) (v : Stamped)
      → IsServing srv
      → IsCaughtUp srv cli
      → Distinct srv.latest
      → 0 < latest_of srv k
      → Elem v (list_of srv.sess_store j)
      → ((catch_up ts srv (attempts n srv cli)).1 ≡ false) × IsCaughtUp srv (attempts n srv cli)
  unfolding attempts
  attempts-fail zero srv cli k j v h c d news m = (
    rw (catch_up-exchange srv cli k d news (c.unknown k)) (exchange-IsCaughtUp srv cli j v h c m).0,
    c,
  )
  attempts-fail (suc n) srv cli k j v h c d news m =
      attempts-fail n srv (catch_up ts srv cli).0 k j v h
        (rw (catch_up-exchange srv cli k d news (c.unknown k))
          (exchange-IsCaughtUp srv cli j v h c m).1)
        d news m

  -- A client without sessions that greets a server which advertises sessions catches up at once. From
  -- there on, as long as nothing but handshakes with this server happens on either side (no session is
  -- set, and none is told), each further handshake, however many there are, fails and leaves the
  -- connection not live, although the client has all sessions of the server all the time. Only what the
  -- client knows of serials tells: one that knows of all that the server advertises is live at once.
  pub catch_up_once :
      (n : ℕ) (srv cli told : Self) (k j : String) (v : Stamped)
      → IsServing srv
      → IsFresh cli
      → Distinct srv.latest
      → 0 < latest_of srv k
      → Elem v (list_of srv.sess_store j)
      → ((p : String) → latest_of srv p ≤ latest_of told p)
      → ((catch_up ts srv cli).1 ≡ true)
        × ((catch_up ts srv (attempts (suc n) srv cli)).1 ≡ false)
        × ((p : String)
            → list_of (attempts (suc n) srv cli).sess_store p ≡ list_of srv.sess_store p)
        × (catch_up ts srv told ≡ (told, true))
  unfolding attempts
  catch_up_once n srv cli told k j v h f d news m knows =
      let first = first_exchange ts srv cli h f in
      let once = catch_up-exchange srv cli k d news (f.unknown k) in
      let latest = exchange-latest ts srv cli in
      let c : IsCaughtUp srv (exchange ts srv cli).0 = record {
        unknown = λ i. ap (λ lt. or_else (Map.get i lt) 0) latest ∙ f.unknown i;
        distinct = subst Distinct (sym latest) f.distinct;
        same = first.1;
      } in
      let rest =
        attempts-fail n srv (catch_up ts srv cli).0 k j v h
          (subst (IsCaughtUp srv) (sym (ap (λ p. p.0) once)) c) d news m in
      (ap (λ p. p.1) once ∙ first.0, rest.0, rest.1.same, catch_up-told ts srv told d knows)
