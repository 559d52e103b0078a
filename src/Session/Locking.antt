-- ===== src/Session/Locking.antt =====
-- The locks of state/session/store.go, and the loop of replication/server.go over a stream: the
-- goroutines at the store, each with the place where it stands. What the sessions are is left open
-- here: how many of them a stream sends, and which a round of cleaning deletes.
pub mod Freezing
pub mod Progress
mod Examples
use istio_oidc.Common.{ℕ, zero, suc, ◌+◌, Bool, true, false, List, [], ◌∷◌, ◌++◌, ◌≡◌, sum}

-- A goroutine in `Set`: before `mu.Lock`, in it, and done. In `Get`: before `mu.RLock`, and done. In
-- `Stream`, of so many sessions: before `mu.RLock`. The goroutine that `Stream` starts, with whether
-- the loop of `StreamSessions` still receives: before `delMu.RLock`, before it sends the next session,
-- and done. In `clean`: before `mu.RLock`; in `delMu.Lock`; in the loop; in `mu.Lock` of `delete`;
-- before the `mu.RLock` behind it; and done. What stands between two locks is one step.
pub data Thread : Type 0 where
  setting : Thread
  set_waiting : Thread
  set_done : Thread
  getting : Thread
  get_done : Thread
  streaming : ℕ → Thread
  starting : ℕ → Thread
  feeding : Bool → ℕ → Thread
  fed : Thread
  cleaning : Thread
  clean_waiting : Thread
  walking : Thread
  deleting : Thread
  relocking : Thread
  cleaned : Thread

-- Who holds `mu` for reading between two steps.
abbrev pub reads_mu : Thread → ℕ
reads_mu clean_waiting = 1
reads_mu walking = 1
reads_mu _ = 0

-- Who is in `mu.Lock`; new readers wait for them.
abbrev pub waits_mu : Thread → ℕ
waits_mu set_waiting = 1
waits_mu deleting = 1
waits_mu _ = 0

-- Who holds `delMu` for reading.
abbrev pub reads_del : Thread → ℕ
reads_del (feeding b n) = 1
reads_del _ = 0

-- Who is in `delMu.Lock` or holds it.
abbrev pub locks_del : Thread → ℕ
locks_del clean_waiting = 1
locks_del walking = 1
locks_del deleting = 1
locks_del relocking = 1
locks_del _ = 0

-- The one goroutine `cleaner`, in a round.
abbrev pub cleans : Thread → ℕ
cleans cleaning = 1
cleans clean_waiting = 1
cleans walking = 1
cleans deleting = 1
cleans relocking = 1
cleans _ = 0

-- One step of a goroutine among all. A lock is taken when the others let it: `mu.RLock` while nobody
-- is in `mu.Lock`, `mu.Lock` while nobody reads, and so for `delMu`. The receiver of a stream takes a
-- session and goes on, or leaves, if it cannot send it to its peer.
pub data Move (all : List Thread) : Thread → Thread → Type 0 where
  ask : Move all setting set_waiting
  store : sum reads_mu all ≡ 0 → Move all set_waiting set_done
  read : sum waits_mu all ≡ 0 → Move all getting get_done
  open_stream : (n : ℕ) → sum waits_mu all ≡ 0 → Move all (streaming n) (starting n)
  start : (n : ℕ) → sum locks_del all ≡ 0 → Move all (starting n) (feeding true n)
  take : (n : ℕ) (stays : Bool) → Move all (feeding true (suc n)) (feeding stays n)
  close : (b : Bool) → Move all (feeding b zero) fed
  clean_read : sum waits_mu all ≡ 0 → Move all cleaning clean_waiting
  clean_lock : sum reads_del all ≡ 0 → Move all clean_waiting walking
  expire : Move all walking deleting
  delete : sum reads_mu all ≡ 0 → Move all deleting relocking
  read_again : sum waits_mu all ≡ 0 → Move all relocking walking
  finish : Move all walking cleaned

-- A goroutine moves, or a new one comes: a call of `Set`, `Get` or `Stream`, or the next round of the
-- cleaner after the one before it.
pub data Step (ts us : List Thread) : Type 0 where
  move :
      (before after : List Thread) {t u : Thread}
      → Move ts t u
      → ts ≡ before ++ (t ∷ after)
      → us ≡ before ++ (u ∷ after)
      → Step ts us
  call_set : us ≡ setting ∷ ts → Step ts us
  call_get : us ≡ getting ∷ ts → Step ts us
  call_stream : (n : ℕ) → us ≡ streaming n ∷ ts → Step ts us
  tick : sum cleans ts ≡ 0 → us ≡ cleaning ∷ ts → Step ts us

pub data Reach (ts : List Thread) : List Thread → Type 0 where
  here : Reach ts ts
  next : {us vs : List Thread} → Reach ts us → Step us vs → Reach ts vs
