-- ===== src/Replication/Exchange.antt =====
-- `streamSessions` of a client against `StreamSessions` of a server, with a transport that does not
-- fail.
use istio_oidc.Common.{
  ℕ, ◌≤◌, String, ◌≡◌, refl, sym, ap, ◌∙◌, List, [], ◌∷◌, ◌++◌, arith, back, Elem, some, none, true,
  false, Bool, subst, or_else, back-Elem, Elem-All,
}
use istio_oidc.Common.Map
use istio_oidc.Common.Map.{GoMap, Distinct}
use istio_oidc.Session
use istio_oidc.Session.{Stamped, SessionStore, list_of, since}
use istio_oidc.Session.Invariant.{Ordered, IsWellFormed, Ordered-le-back}
use istio_oidc.Session.Foreign.{IsKnown}
use istio_oidc.Session.Streaming.{of_peer, wanted, of_peer-stream, Ordered-IsNamed}
use istio_oidc.Replication.Maps.{Timestamps, latest_from_proto, latest_round_trip}
use istio_oidc.Replication.Latest.{
  Self, latest_of, copy_latest, copy_latest-Distinct, get-copy_latest,
}
use istio_oidc.Replication.Stream.{
  stream_request, serve_stream, stream_sessions, deliver, receive, recv_loop-receive, send_loop-all,
}
use istio_oidc.Replication.CatchUp.{receive-Fits, receive_stale, stream-AreStamped, stream-Elem}

-- What the server hears that the client has.
abbrev pub asked : Self → GoMap ℕ
asked cli = latest_from_proto (stream_request cli).from

pub wanted-asked :
    (cli : Self) (k : String) → Distinct cli.latest → wanted (asked cli) k ≡ latest_of cli k
unfolding stream_request
wanted-asked cli k d =
    ap (λ o. or_else o 0)
      (latest_round_trip (copy_latest cli) k (copy_latest-Distinct cli) ∙ get-copy_latest cli k d)

-- A server that a client can stream from: its store is well formed, and no session is of a peer
-- with the empty name.
pub record IsServing (srv : Self) : Type 0 where
  pub store : IsWellFormed srv.sess_store
  pub named : list_of srv.sess_store "" ≡ []

-- A client that has no session yet, and knows of none.
pub record IsFresh (cli : Self) : Type 0 where
  pub distinct : Distinct cli.latest
  pub unknown : (k : String) → latest_of cli k ≡ 0
  pub empty : (k : String) → list_of cli.sess_store k ≡ []

since-zero : (l : List Stamped) → since 0 l ≡ l
unfolding since
since-zero [] = refl
since-zero (v ∷ l) = ground (arith, since-zero l)

fresh_sent :
    (srv cli : Self) (k : String)
    → IsServing srv
    → IsFresh cli
    → list_of cli.sess_store k ++ of_peer k (Session.stream srv.sess_store (asked cli))
      ≡ list_of srv.sess_store k
fresh_sent srv cli k h f =
    rw
      (
        f.empty k,
        of_peer-stream srv.sess_store (asked cli) k h.store,
        wanted-asked cli k f.distinct,
        f.unknown k,
      )
      (since-zero (list_of srv.sess_store k))

module _ (ts : Timestamps) where
  -- The client after the exchange, and whether the stream came to its end.
  unfoldable pub exchange : Self → Self → Self × Bool
  exchange srv cli =
      stream_sessions ts cli
        (some (deliver ts (serve_stream ts srv (stream_request cli) (λ _. none)).0))

  pub exchange_lem :
      (srv cli : Self)
      → exchange srv cli ≡ (
        record cli {
          sess_store = (receive cli.sess_store (Session.stream srv.sess_store (asked cli))).0;
        },
        (receive cli.sess_store (Session.stream srv.sess_store (asked cli))).1,
      )
  unfolding exchange stream_sessions serve_stream
  exchange_lem srv cli =
      rw (send_loop-all ts 0 (Session.stream srv.sess_store (asked cli)))
        (recv_loop-receive ts cli (Session.stream srv.sess_store (asked cli)))

  -- The first exchange of a client without sessions succeeds, and gives it every session of the
  -- server: for each peer the same sessions with the same stamps in the same order.
  pub first_exchange :
      (srv cli : Self)
      → IsServing srv
      → IsFresh cli
      → ((exchange srv cli).1 ≡ true)
        × ((k : String) → list_of (exchange srv cli).0.sess_store k ≡ list_of srv.sess_store k)
  first_exchange srv cli h f =
      let all =
        receive-Fits cli.sess_store (Session.stream srv.sess_store (asked cli))
          (stream-AreStamped srv.sess_store (asked cli) h.store h.named)
          (λ k. subst (Ordered k) (sym (fresh_sent srv cli k h f)) (h.store.ordered k)) in
      rw (exchange_lem srv cli) (all.0, λ k. all.1 k ∙ fresh_sent srv cli k h f)

  -- An exchange fails whenever the server has a session that the client asks for although the
  -- client's store holds it already, or a later one of the same peer.
  pub overlapping_exchange :
      (srv cli : Self) (k : String) (v last : Stamped)
      → IsServing srv
      → Distinct cli.latest
      → Elem v (list_of srv.sess_store k)
      → latest_of cli k ≤ v.serial
      → back (list_of cli.sess_store k) ≡ some last
      → v.serial ≤ last.serial
      → (exchange srv cli).1 ≡ false
  overlapping_exchange srv cli k v last h d m le b stale =
      let peer : v.peer_id ≡ k =
        Elem-All (λ w. w.peer_id ≡ k) v (list_of srv.sess_store k)
          (Ordered-IsNamed k (list_of srv.sess_store k) (h.store.ordered k)) m in
      rw (exchange_lem srv cli) (
        receive_stale cli.sess_store (Session.stream srv.sess_store (asked cli)) v
          (stream-AreStamped srv.sess_store (asked cli) h.store h.named)
          (stream-Elem srv.sess_store (asked cli) k v h.store m (rw (wanted-asked cli k d) le))
          (subst (λ j. IsKnown cli.sess_store j v.serial) (sym peer) (last, b, stale)))

  pub exchange-latest : (srv cli : Self) → (exchange srv cli).0.latest ≡ cli.latest
  exchange-latest srv cli = rw (exchange_lem srv cli)

  -- `streamSessions` does not raise the client's latest serials: the next exchange with the server
  -- asks for all sessions again, and fails as soon as the server has any.
  pub second_exchange :
      (srv cli : Self) (k : String) (v : Stamped)
      → IsServing srv
      → IsFresh cli
      → Elem v (list_of srv.sess_store k)
      → (exchange srv (exchange srv cli).0).1 ≡ false
  second_exchange srv cli k v h f m =
      let next = (exchange srv cli).0 in
      let (last, b) = back-Elem v (list_of srv.sess_store k) m in
      overlapping_exchange srv next k v last h
        (subst Distinct (sym (exchange-latest srv cli)) f.distinct) m
        (subst (λ n. n ≤ v.serial)
          (sym (ap (λ lt. or_else (Map.get k lt) 0) (exchange-latest srv cli) ∙ f.unknown k))
          (omega arith))
        (ap back ((first_exchange srv cli h f).1 k) ∙ b)
        (Ordered-le-back k (list_of srv.sess_store k) v last (h.store.ordered k) b m)
