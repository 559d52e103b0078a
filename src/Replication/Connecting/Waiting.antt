-- ===== src/Replication/Connecting/Waiting.antt =====
-- How the worker waits for a connection: the broadcast that comes before the wait is lost.
use istio_oidc.Common.{true, false, List, [], ◌∷◌, ◌++◌, ◌≡◌, refl, arith, sym, ◌∙◌, ◌⊎◌, inl, inr}
use istio_oidc.Replication.Maps.{Timestamps, ProtoStamp, latest_from_proto}
use istio_oidc.Replication.Latest.{Self, needs_update}
use istio_oidc.Replication.Connecting.{
  Task, greeting, updating, greeted, steady, parked, sleeping, entering, Link, new_link, announce,
  on_greeting, on_updating, wake, advance, is_awake, settle, watch, Step, run, look, Reach, here,
  inside,
}

no_task : (before after : List Task) (t : Task) → ¬ ([] ≡ before ++ (t ∷ after))
no_task [] after t e = cc
no_task (b ∷ before) after t e = cc

-- Without goroutines, and with a worker that waits, nothing of the process moves the connection.
stuck :
    (ts : Timestamps) (l : Link)
    → l.tasks ≡ []
    → is_awake l.tracker ≡ false
    → (u : Link) → ¬ Step ts l u
stuck ts l e asleep u (run before after t r _ e' _) = no_task before after t (sym e ∙ e')
stuck ts l e asleep u (look _ awake _) = cc

-- The connection once the handshake is through and the worker has come to its wait.
abbrev late : Self → Link
late self = record {
  self = self;
  live = true;
  dead = false;
  spent = false;
  tasks = [];
  tracker = parked;
  closed = false;
  exited = false;
}

-- The handshake is through, and the worker is still on its way.
abbrev early : Self → Link
early self = record (late self) { tracker = entering }

updated :
    (self : Self) (latest : List ProtoStamp)
    → needs_update self (latest_from_proto latest) ≡ false
    → early self
      ≡ settle [] [] (on_updating (record (new_link self) { tasks = updating latest ∷ [] }) latest)
unfolding on_updating announce wake
updated self latest news = rw news

-- A new connection whose peer advertises nothing new, and whose handshake is answered before the
-- worker waits, can end up live while the worker waits for the broadcast that is over: the channel
-- `init` is open, and no goroutine of the process will move the connection or wake the worker.
pub lost_broadcast :
    (ts : Timestamps) (self : Self) (latest : List ProtoStamp)
    → needs_update self (latest_from_proto latest) ≡ false
    → (l : Link) × Reach ts (new_link self) l
      × (l.live ≡ true)
      × (l.closed ≡ false)
      × ((u : Link) → ¬ Step ts l u)
unfolding advance on_greeting watch is_awake
lost_broadcast ts self latest news = (
  late self,
  inside {t = early self}
      (inside (inside here (run [] [] greeting (greeted latest) refl refl refl))
        (run [] [] (updating latest) steady refl refl (updated self latest news)))
      (look refl refl refl),
  refl,
  refl,
  stuck ts (late self) refl refl,
)

-- A worker that is in its wait when the connection becomes live closes the channel with its next step.
pub announce_in_time :
    (l : Link)
    → (l.tracker ≡ parked) ⊎ (l.tracker ≡ sleeping)
    → (is_awake (announce true l).tracker ≡ true) × ((watch (announce true l)).closed ≡ true)
unfolding announce wake watch is_awake
announce_in_time l (inl e) = ground arith
announce_in_time l (inr e) = ground arith
