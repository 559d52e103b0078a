-- ===== src/Replication/Handshaking.antt =====
-- The handshake: `Handshake` of replication/server.go, and `update` of replication/connection.go.
use istio_oidc.Common.{
  ℕ, ◌<◌, ◌≤◌, String, sym, ap, refl, Bool-cases, inl, inr, Bool, true, List, Option, none, some,
  Result, ok, err, if◌then◌else◌, ◌==◌, ◌≡◌, or_else, arith, ◌∙◌,
}
use istio_oidc.Common.Map
use istio_oidc.Common.Map.{GoMap, Distinct, Elem-get, get-Elem}
use istio_oidc.Session.{list_of}
use istio_oidc.Replication.Maps.{
  Timestamps, ProtoStamp, latest_to_proto, latest_from_proto, latest_round_trip,
  latest_from_proto-Distinct,
}
use istio_oidc.Replication.Latest.{
  Self, latest_of, copy_latest, copy_latest-Distinct, get-copy_latest, needs_update,
  needs_update_iff,
}
use istio_oidc.Replication.Stream.{Received, stream_request, serve_stream, stream_sessions, deliver}
use istio_oidc.Replication.Exchange.{exchange, IsServing, IsFresh, first_exchange}
use istio_oidc.Replication.Peers.{Peers, get_connection}

-- `api.HandshakeRequest`, and `api.HandshakeResponse` with the same fields.
pub record Handshake : Type 0 where
  pub peer_id : String
  pub peer_endpoint : String
  pub latest : List ProtoStamp

unfoldable pub greet : Self → Handshake
unfolding copy_latest
greet self = record {
  peer_id = self.id;
  peer_endpoint = self.ep;
  latest = latest_to_proto (copy_latest self);
}

-- `Server.Handshake`: the table afterwards, the answer, and the endpoint whose connection is updated
-- with the request's serials, if there is one.
unfoldable pub answer_handshake :
    Self → Peers → Handshake → Peers × Result Handshake × Option String
unfolding greet get_connection
answer_handshake self peers req =
    let (peers', conn, _) = get_connection req.peer_endpoint peers in
    if req.peer_id == self.id
    then (peers, err "Peer ID conflict detected", none)
    else (peers', ok (greet self), if conn.live then some req.peer_endpoint else none)

module _ (ts : Timestamps) where
  -- `connection.update`: the peer afterwards, and whether the connection is live. `messages` is what
  -- the call of `StreamSessions` answers, if it is made.
  unfoldable pub update_connection :
      Self → List ProtoStamp → Option (List (Received ts.Timestamp)) → Self × Bool
  unfolding needs_update latest_from_proto stream_sessions
  update_connection self latest messages =
      if needs_update self (latest_from_proto latest)
      then stream_sessions ts self messages
      else (self, true)

  -- What a peer does with the answer to its handshake, over a transport that does not fail.
  unfoldable pub catch_up : Self → Self → Self × Bool
  unfolding greet update_connection serve_stream stream_request deliver
  catch_up srv cli =
      update_connection cli (greet srv).latest
        (some (deliver ts (serve_stream ts srv (stream_request cli) (λ _. none)).0))

  pub greeted :
      (srv : Self) (k : String)
      → Distinct srv.latest
      → Map.get k (latest_from_proto (greet srv).latest) ≡ Map.get k srv.latest
  unfolding greet
  greeted srv k d =
      latest_round_trip (copy_latest srv) k (copy_latest-Distinct srv) ∙ get-copy_latest srv k d

  pub advertised :
      (srv cli : Self) (k : String) (o : Option ℕ)
      → Map.get k (latest_from_proto (greet srv).latest) ≡ o
      → latest_of cli k ≡ 0
      → 0 < or_else o 0
      → needs_update cli (latest_from_proto (greet srv).latest) ≡ true
  advertised srv cli k none e f h = absurd (omega (arith, h))
  advertised srv cli k (some v) e f h =
      (needs_update_iff cli (latest_from_proto (greet srv).latest)).1
        (k, v, Elem-get k v (latest_from_proto (greet srv).latest) e, omega (arith, f, h))

  -- A peer that knows of all serials that the other advertises is live at once, and asks for nothing.
  pub catch_up-told :
      (srv cli : Self)
      → Distinct srv.latest
      → ((k : String) → latest_of srv k ≤ latest_of cli k)
      → catch_up srv cli ≡ (cli, true)
  unfolding catch_up update_connection
  catch_up-told srv cli d h =
      let latest = latest_from_proto (greet srv).latest in
      elim (Bool-cases (needs_update cli latest)) [
        | inl news ↦
            let (k, v, m, less) = (needs_update_iff cli latest).0 news in
            let known : Map.get k srv.latest ≡ some v =
              sym (greeted srv k d)
              ∙ get-Elem k v latest (latest_from_proto-Distinct (greet srv).latest) m in
            let same : latest_of srv k ≡ v = ap (λ o. or_else o 0) known in
            absurd (omega (arith, same, less, h k))
        | inr old ↦ rw old refl
      ]

  -- A peer without sessions that greets one that advertises any session ends up live, with the
  -- sessions of the other: for each peer the same sessions with the same stamps in the same order.
  pub catch_up-list_of :
      (srv cli : Self) (k : String)
      → IsServing srv
      → IsFresh cli
      → Distinct srv.latest
      → 0 < latest_of srv k
      → ((catch_up srv cli).1 ≡ true)
        × ((p : String) → list_of (catch_up srv cli).0.sess_store p ≡ list_of srv.sess_store p)
  unfolding catch_up exchange
  catch_up-list_of srv cli k serving fresh d h =
      rw (advertised srv cli k (Map.get k srv.latest) (greeted srv k d) (fresh.unknown k) h)
        (first_exchange ts srv cli serving fresh)
