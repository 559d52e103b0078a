-- ===== src/Replication/Connecting.antt =====
-- replication/connection.go and `track` of worker.go: one connection as the goroutines that run for
-- it. A goroutine runs up to its next call, lock or wait in one step, and goes on with what the other
-- side answers.
pub mod Recovering
pub mod Abandoning
pub mod Waiting
mod Examples
use istio_oidc.Common.{
  ℕ, String, Bool, true, false, List, [], ◌∷◌, ◌++◌, Result, ok, err, panic, if◌then◌else◌, ◌≡◌,
}
use istio_oidc.Session
use istio_oidc.Session.{Stamped}
use istio_oidc.Replication.Maps.{Timestamps, ProtoStamp, latest_from_proto}
use istio_oidc.Replication.Latest.{Self, needs_update}
use istio_oidc.Replication.Stream.{ProtoStamped, from_message}

-- `status.Code` of an error, as far as it is read. An error of the session store has none of its own.
pub data Code : Type 0 where
  canceled permission_denied other_code : Code

-- What a goroutine does next: the call of `Handshake`; `needsUpdate` with what the peer advertises;
-- the call of `StreamSessions`; `stream.Recv`; the call of `SetSession`; the `once.Do` of
-- `reestablish`; what follows it for the goroutine that won; and the wait for the transport.
pub data Task : Type 0 where
  greeting : Task
  updating : List ProtoStamp → Task
  opening : Task
  receiving : Task
  sending : Stamped → Task
  failing : Code → Task
  lowering : Code → Task
  recovering : Task

-- What a call answers. `steady` is a transport that does not fail transiently, or no longer.
pub data Reply (Timestamp : Type 0) : Type 0 where
  greeted : List ProtoStamp → Reply Timestamp
  done : Reply Timestamp
  received : ProtoStamped Timestamp → Reply Timestamp
  end_of_stream : Reply Timestamp
  failed : Code → Reply Timestamp
  steady : Reply Timestamp

-- The worker, which waits for a new connection: before the wait of `refresh`, in it, at the test of
-- the loop of `track`, behind it, in its wait, and at its end.
pub data Tracker : Type 0 where
  entering parked checking deciding sleeping finished : Tracker

-- A connection with its goroutines, the worker that waits for it, and whether the worker has closed
-- the channel `init`. The process has exited after a conflict of peer ids or a panic.
pub record Link : Type 0 where
  pub self : Self
  pub live : Bool
  pub dead : Bool
  pub spent : Bool
  pub tasks : List Task
  pub tracker : Tracker
  pub closed : Bool
  pub exited : Bool

-- `newConnection`, with the worker about to wait.
abbrev pub new_link : Self → Link
new_link self = record {
  self = self;
  live = false;
  dead = false;
  spent = false;
  tasks = greeting ∷ [];
  tracker = entering;
  closed = false;
  exited = false;
}

-- `cond.Broadcast` wakes the worker if it waits.
unfoldable pub wake : Tracker → Tracker
wake parked = checking
wake sleeping = checking
wake entering = entering
wake checking = checking
wake deciding = deciding
wake finished = finished

-- `c.live = live`, with the broadcast behind it.
unfoldable pub announce : Bool → Link → Link
unfolding wake
announce live l = record l { live = live; tracker = wake l.tracker }

abbrev exit : Link → Link × List Task
exit l = (record l { exited = true }, [])

-- `handshake`, with what `Handshake` answers.
unfoldable pub on_greeting : {T : Type 0} → Link → Reply T → Link × List Task
on_greeting l (greeted latest) = (l, updating latest ∷ [])
on_greeting l (failed permission_denied) = exit l
on_greeting l (failed code) = (l, failing code ∷ [])
on_greeting l done = (l, greeting ∷ [])
on_greeting l (received m) = (l, greeting ∷ [])
on_greeting l end_of_stream = (l, greeting ∷ [])
on_greeting l steady = (l, greeting ∷ [])

-- `update` up to the call of `StreamSessions`.
unfoldable pub on_updating : Link → List ProtoStamp → Link × List Task
unfolding announce
on_updating l latest =
    if needs_update l.self (latest_from_proto latest)
    then (l, opening ∷ [])
    else (announce true l, [])

-- A failure in `streamSessions`: `reestablish` is started, and `update` goes on with `false`.
unfoldable pub broken : Code → Link → Link × List Task
unfolding announce
broken code l = (announce false l, failing code ∷ [])

unfoldable pub on_opening : {T : Type 0} → Link → Reply T → Link × List Task
unfolding broken
on_opening l done = (l, receiving ∷ [])
on_opening l (failed code) = broken code l
on_opening l (greeted latest) = (l, opening ∷ [])
on_opening l (received m) = (l, opening ∷ [])
on_opening l end_of_stream = (l, opening ∷ [])
on_opening l steady = (l, opening ∷ [])

-- The branch on what the session store answers to a session of the stream.
unfoldable pub on_stored : Link → Result Stamped → Link × List Task
unfolding broken
on_stored l (ok v) = (l, receiving ∷ [])
on_stored l (err e) = broken other_code l
on_stored l panic = exit l

-- A round of the loop of `streamSessions`, and what `update` does at its end.
unfoldable pub on_receiving : (ts : Timestamps) → Link → Reply ts.Timestamp → Link × List Task
unfolding on_stored broken announce
on_receiving ts l (received m) =
    let (store, answer) = Session.set l.self.sess_store (from_message ts m) in
    on_stored (record l { self = record l.self { sess_store = store } }) answer
on_receiving ts l end_of_stream = (announce true l, [])
on_receiving ts l (failed code) = broken code l
on_receiving ts l (greeted latest) = (l, receiving ∷ [])
on_receiving ts l done = (l, receiving ∷ [])
on_receiving ts l steady = (l, receiving ∷ [])

-- `setSession`
unfoldable pub on_sending : {T : Type 0} → Link → Stamped → Reply T → Link × List Task
on_sending l v done = (l, [])
on_sending l v (failed code) = (l, failing code ∷ [])
on_sending l v (greeted latest) = (l, sending v ∷ [])
on_sending l v (received m) = (l, sending v ∷ [])
on_sending l v end_of_stream = (l, sending v ∷ [])
on_sending l v steady = (l, sending v ∷ [])

-- `reestablish` up to its `once.Do`: one goroutine wins, the others return.
unfoldable pub on_failing : Link → Code → Link × List Task
on_failing l code = if l.spent then (l, []) else (record l { spent = true }, lowering code ∷ [])

-- `reestablish` up to its loop.
unfoldable pub on_lowering : Link → Code → Link × List Task
unfolding announce
on_lowering l canceled = (announce false l, [])
on_lowering l permission_denied = (announce false l, recovering ∷ [])
on_lowering l other_code = (announce false l, recovering ∷ [])

-- The loop on the state of the transport, and what follows it.
unfoldable pub on_recovering : {T : Type 0} → Link → Reply T → Link × List Task
on_recovering l steady = (record l { spent = false }, greeting ∷ [])
on_recovering l (greeted latest) = (l, recovering ∷ [])
on_recovering l done = (l, recovering ∷ [])
on_recovering l (received m) = (l, recovering ∷ [])
on_recovering l end_of_stream = (l, recovering ∷ [])
on_recovering l (failed code) = (l, recovering ∷ [])

-- One step of a goroutine: the connection afterwards, and the goroutines in its place. One that
-- waits for another answer stays.
unfoldable pub advance : (ts : Timestamps) → Link → Task → Reply ts.Timestamp → Link × List Task
unfolding on_greeting on_updating on_opening on_receiving on_sending on_failing on_lowering
    on_recovering
advance ts l greeting r = on_greeting l r
advance ts l (updating latest) r = on_updating l latest
advance ts l opening r = on_opening l r
advance ts l receiving r = on_receiving ts l r
advance ts l (sending v) r = on_sending l v r
advance ts l (failing code) r = on_failing l code
advance ts l (lowering code) r = on_lowering l code
advance ts l recovering r = on_recovering l r

abbrev settle : List Task → List Task → Link × List Task → Link
settle before after (l, ts) = record l { tasks = before ++ (ts ++ after) }

-- A step of the worker: `refresh` waits and starts `track`, and `track` closes the channel once the
-- connection is live, and ends if it is dead.
unfoldable pub watch : Link → Link
watch l = elim (l.tracker) [
  | entering ↦ record l { tracker = parked }
  | checking ↦
      if l.live
      then record l { tracker = finished; closed = true }
      else if l.dead
      then record l { tracker = finished }
      else record l { tracker = deciding }
  | deciding ↦ record l { tracker = sleeping }
  | parked ↦ l
  | sleeping ↦ l
  | finished ↦ l
]

-- The worker does not wait, and has not ended.
unfoldable pub is_awake : Tracker → Bool
is_awake parked = false
is_awake sleeping = false
is_awake finished = false
is_awake entering = true
is_awake checking = true
is_awake deciding = true

module _ (ts : Timestamps) where
  -- A step of a goroutine of the connection, with any answer of the other side, or of the worker.
  pub data Step (l u : Link) : Type 0 where
    run :
        (before after : List Task) (t : Task) (r : Reply ts.Timestamp)
        → l.exited ≡ false
        → l.tasks ≡ before ++ (t ∷ after)
        → u ≡ settle before after (advance ts l t r)
        → Step l u
    look : l.exited ≡ false → is_awake l.tracker ≡ true → u ≡ watch l → Step l u

  -- What starts from outside: a handshake of the peer, which updates a live connection; a new
  -- session that `Client.SetSession` sends; and `disconnect`. The own state may change at any time.
  pub data Outside (l u : Link) : Type 0 where
    greeted_by :
        (latest : List ProtoStamp)
        → u ≡ record l { tasks = if l.live then updating latest ∷ l.tasks else l.tasks }
        → Outside l u
    send : (v : Stamped) → u ≡ record l { tasks = sending v ∷ l.tasks } → Outside l u
    disconnect : u ≡ record l { dead = true } → Outside l u
    change : (self : Self) → u ≡ record l { self = self } → Outside l u

  pub data Reach (l : Link) : Link → Type 0 where
    here : Reach l l
    inside : {t u : Link} → Reach l t → Step t u → Reach l u
    outside : {t u : Link} → Reach l t → Outside t u → Reach l u
