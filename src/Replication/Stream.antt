-- ===== src/Replication/Stream.antt =====
-- The exchange of sessions: `StreamSessions` and `SetSession` of replication/server.go, and
-- `streamSessions` of replication/connection.go.
use istio_oidc.Common.{
  ℕ, ◌+◌, String, ◌≡◌, refl, Option, none, some, Bool, true, false, List, [], ◌∷◌, Result, ok, err,
  panic,
}
use istio_oidc.Session
use istio_oidc.Session.{Stamped, SessionStore}
use istio_oidc.Replication.Maps.{
  Timestamps, ProtoSession, ProtoStamp, session_to_proto, session_from_proto, stamp_to_proto,
  stamp_from_proto, session_round_trip, stamp_round_trip, latest_to_proto, latest_from_proto,
}
use istio_oidc.Replication.Latest.{Self, copy_latest, update}

-- `api.SetSessionRequest` and `api.StreamSessionsResponse`: a session with its stamp.
pub record ProtoStamped (Timestamp : Type 0) : Type 0 where
  pub session : ProtoSession Timestamp
  pub stamp : ProtoStamp

-- `api.StreamSessionsRequest`
pub record StreamRequest : Type 0 where
  pub peer_id : String
  pub from : List ProtoStamp

-- What `stream.Recv` answers before the end of the stream.
pub data Received (Timestamp : Type 0) : Type 0 where
  message : ProtoStamped Timestamp → Received Timestamp
  failed : String → Received Timestamp

unfoldable pub stream_request : Self → StreamRequest
unfolding copy_latest
stream_request self = record { peer_id = self.id; from = latest_to_proto (copy_latest self) }

-- The branch on what the session store answers.
abbrev pub on_answer {ℓ} : {A : Type ℓ} → Result Stamped → A → A → A
on_answer (ok v) accepted refused = accepted
on_answer (err e) accepted refused = refused
on_answer panic accepted refused = refused

module _ (ts : Timestamps) where
  open ts use {Timestamp}

  unfoldable pub to_message : Stamped → ProtoStamped Timestamp
  to_message v = record { session = session_to_proto ts v.session; stamp = stamp_to_proto v.stamp }

  unfoldable pub from_message : ProtoStamped Timestamp → Stamped
  from_message m = record {
    session = session_from_proto ts m.session;
    stamp = stamp_from_proto m.stamp;
  }

  pub message_round_trip : (v : Stamped) → from_message (to_message v) ≡ v
  unfolding from_message to_message
  message_round_trip v = λ i. record {
    session = session_round_trip ts v.session i;
    stamp = stamp_round_trip v.stamp i;
  }

  -- The loop of the server over the channel. `send i` is the answer of the `i`-th `stream.Send`:
  -- `none`, or its error, which ends the stream. The messages that the transport took come back.
  unfoldable pub send_loop :
      (ℕ → Option String) → ℕ → List Stamped → List (ProtoStamped Timestamp) × Result (Unit {0})
  send_loop send i [] = ([], ok tt)
  send_loop send i (v ∷ ch) =
      let (sent, answer) = send_loop send (i + 1) ch in
      elim (send i) [ none ↦ (to_message v ∷ sent, answer) | some e ↦ ([], err e) ]

  -- `Server.StreamSessions`
  unfoldable pub serve_stream :
      Self → StreamRequest → (ℕ → Option String) → List (ProtoStamped Timestamp) × Result (Unit {0})
  unfolding send_loop
  serve_stream self req send =
      send_loop send 0 (Session.stream self.sess_store (latest_from_proto req.from))

  -- The loop of `streamSessions` over the messages; the end of the list is `io.EOF`. It does not
  -- touch `self.latest`. The answer `false` is that of a broken stream or a refused session.
  unfoldable pub recv_loop : Self → List (Received Timestamp) → Self × Bool
  recv_loop self [] = (self, true)
  recv_loop self (failed e ∷ rest) = (self, false)
  recv_loop self (message m ∷ rest) =
      let (store', answer) = Session.set self.sess_store (from_message m) in
      let self' = record self { sess_store = store' } in
      on_answer answer (recv_loop self' rest) (self', false)

  -- `streamSessions`; `none` stands for a failed call.
  unfoldable pub stream_sessions : Self → Option (List (Received Timestamp)) → Self × Bool
  unfolding recv_loop
  stream_sessions self none = (self, false)
  stream_sessions self (some messages) = recv_loop self messages

  -- `Server.SetSession`
  unfoldable pub set_session : Self → ProtoStamped Timestamp → Self × Result (Unit {0})
  set_session self req =
      let v = from_message req in
      let (store', answer) = Session.set self.sess_store v in
      let self' = record self { sess_store = store' } in
      elim answer [
        | ok w ↦ (update self' v.peer_id v.serial, ok tt)
        | err e ↦ (self', err "Error setting session")
        | panic ↦ (self', panic)
      ]

-- The stream of a store without a failure of the transport.
unfoldable pub receive : SessionStore → List Stamped → SessionStore × Bool
receive s [] = (s, true)
receive s (v ∷ rest) =
    let (s', answer) = Session.set s v in on_answer answer (receive s' rest) (s', false)

on_answer_comm :
    {A B : Type 0} (f : A → B) (a : Result Stamped) (x y : A)
    → on_answer a (f x) (f y) ≡ f (on_answer a x y)
on_answer_comm f (ok v) x y = refl
on_answer_comm f (err e) x y = refl
on_answer_comm f panic x y = refl

module _ (ts : Timestamps) where
  -- The messages of a stream, as they arrive with no failure of the transport.
  unfoldable pub deliver : List (ProtoStamped ts.Timestamp) → List (Received ts.Timestamp)
  deliver [] = []
  deliver (m ∷ sent) = message m ∷ deliver sent

  unfoldable pub to_messages : List Stamped → List (ProtoStamped ts.Timestamp)
  to_messages [] = []
  to_messages (v ∷ l) = to_message ts v ∷ to_messages l

  -- With no failure of the transport the client's loop is `receive` on what the server has sent.
  pub recv_loop-receive :
      (self : Self) (l : List Stamped)
      → recv_loop ts self (deliver (to_messages l)) ≡ (
        record self { sess_store = (receive self.sess_store l).0 },
        (receive self.sess_store l).1,
      )
  unfolding recv_loop receive deliver to_messages
  recv_loop-receive self [] = refl
  recv_loop-receive self (v ∷ l) =
      rw
        (
          message_round_trip ts v,
          recv_loop-receive (record self { sess_store = (Session.set self.sess_store v).0 }) l,
        )
        (on_answer_comm (λ (p : SessionStore × Bool). (record self { sess_store = p.0 }, p.1))
          (Session.set self.sess_store v).1 (receive (Session.set self.sess_store v).0 l)
          ((Session.set self.sess_store v).0, false))

  pub send_loop-all :
      (i : ℕ) (l : List Stamped) → send_loop ts (λ _. none) i l ≡ (to_messages l, ok tt)
  unfolding send_loop to_messages
  send_loop-all i [] = refl
  send_loop-all i (v ∷ l) = rw (send_loop-all (i + 1) l)
