-- ===== src/Replication/Connecting/Recovering.antt =====
-- `once` of a connection: which goroutines are behind the `once.Do` of `reestablish`.
use istio_oidc.Common.{
  sum, sum-append, ℕ, ◌+◌, ◌≤◌, Bool, true, false, List, ◌∷◌, ◌++◌, ◌≡◌, refl, arith, subst, ap,
  sym, ◌∙◌, ok, err, panic, Result,
}
use istio_oidc.Session
use istio_oidc.Session.{Stamped}
use istio_oidc.Replication.Maps.{Timestamps}
use istio_oidc.Replication.Latest.{Self}
use istio_oidc.Replication.Stream.{from_message}
use istio_oidc.Replication.Connecting.{
  Code, canceled, permission_denied, other_code, Task, greeting, updating, opening, receiving,
  sending, failing, lowering, recovering, Reply, greeted, done, received, end_of_stream, failed,
  steady, Link, new_link, on_greeting, on_updating, on_opening, on_stored, on_receiving, on_sending,
  on_failing, on_lowering, on_recovering, advance, settle, watch, Step, run, look, Outside,
  greeted_by, send, disconnect, change, Reach, here, inside, outside,
}

pub sum-settle :
    (w : Task → ℕ) (before after : List Task) (p : Link × List Task)
    → sum w (settle before after p).tasks ≡ sum w before + (sum w p.1 + sum w after)
sum-settle w before after (l, ts) =
    rw (sum-append w before (ts ++ after), sum-append w ts after) refl

-- A goroutine behind the `once.Do`.
abbrev pub recovers : Task → ℕ
recovers greeting = 0
recovers (updating latest) = 0
recovers opening = 0
recovers receiving = 0
recovers (sending v) = 0
recovers (failing code) = 0
recovers (lowering code) = 1
recovers recovering = 1

abbrev pub bit : Bool → ℕ
bit true = 1
bit false = 0

-- `before` says what the goroutine was: it leaves a place behind the `once.Do` only if it had one.
abbrev Keeps : Link → Task → Link × List Task → Type 0
Keeps l t p = sum recovers p.1 + bit l.spent ≤ bit p.0.spent + recovers t

on_greeting-Keeps : {T : Type 0} (l : Link) (r : Reply T) → Keeps l greeting (on_greeting l r)
unfolding on_greeting
on_greeting-Keeps l (greeted latest) = omega arith
on_greeting-Keeps l (failed permission_denied) = omega arith
on_greeting-Keeps l (failed canceled) = omega arith
on_greeting-Keeps l (failed other_code) = omega arith
on_greeting-Keeps l done = omega arith
on_greeting-Keeps l (received m) = omega arith
on_greeting-Keeps l end_of_stream = omega arith
on_greeting-Keeps l steady = omega arith

on_stored-Keeps : (l : Link) (answer : Result Stamped) → Keeps l receiving (on_stored l answer)
unfolding on_stored
on_stored-Keeps l (ok v) = omega arith
on_stored-Keeps l (err e) = omega arith
on_stored-Keeps l panic = omega arith

on_opening-Keeps : {T : Type 0} (l : Link) (r : Reply T) → Keeps l opening (on_opening l r)
unfolding on_opening
on_opening-Keeps l done = omega arith
on_opening-Keeps l (failed code) = omega arith
on_opening-Keeps l (greeted latest) = omega arith
on_opening-Keeps l (received m) = omega arith
on_opening-Keeps l end_of_stream = omega arith
on_opening-Keeps l steady = omega arith

on_sending-Keeps :
    {T : Type 0} (l : Link) (v : Stamped) (r : Reply T) → Keeps l (sending v) (on_sending l v r)
unfolding on_sending
on_sending-Keeps l v done = omega arith
on_sending-Keeps l v (failed code) = omega arith
on_sending-Keeps l v (greeted latest) = omega arith
on_sending-Keeps l v (received m) = omega arith
on_sending-Keeps l v end_of_stream = omega arith
on_sending-Keeps l v steady = omega arith

on_recovering-Keeps : {T : Type 0} (l : Link) (r : Reply T) → Keeps l recovering (on_recovering l r)
unfolding on_recovering
on_recovering-Keeps l steady = ground arith
on_recovering-Keeps l (greeted latest) = omega arith
on_recovering-Keeps l done = omega arith
on_recovering-Keeps l (received m) = omega arith
on_recovering-Keeps l end_of_stream = omega arith
on_recovering-Keeps l (failed code) = omega arith

on_lowering-Keeps : (l : Link) (code : Code) → Keeps l (lowering code) (on_lowering l code)
unfolding on_lowering
on_lowering-Keeps l canceled = omega arith
on_lowering-Keeps l permission_denied = omega arith
on_lowering-Keeps l other_code = omega arith

on_receiving-Keeps :
    (ts : Timestamps) (l : Link) (r : Reply ts.Timestamp) → Keeps l receiving (on_receiving ts l r)
unfolding on_receiving
on_receiving-Keeps ts l (received m) =
    let (store, answer) = Session.set l.self.sess_store (from_message ts m) in
    on_stored-Keeps (record l { self = record l.self { sess_store = store } }) answer
on_receiving-Keeps ts l end_of_stream = omega arith
on_receiving-Keeps ts l (failed code) = unfold on_stored in omega arith
on_receiving-Keeps ts l (greeted latest) = omega arith
on_receiving-Keeps ts l done = omega arith
on_receiving-Keeps ts l steady = omega arith

advance-Keeps :
    (ts : Timestamps) (l : Link) (t : Task) (r : Reply ts.Timestamp) → Keeps l t (advance ts l t r)
unfolding advance
advance-Keeps ts l greeting r = on_greeting-Keeps l r
advance-Keeps ts l (updating latest) r = unfold on_updating in ground arith
advance-Keeps ts l opening r = on_opening-Keeps l r
advance-Keeps ts l receiving r = on_receiving-Keeps ts l r
advance-Keeps ts l (sending v) r = on_sending-Keeps l v r
advance-Keeps ts l (failing code) r = unfold on_failing in ground arith
advance-Keeps ts l (lowering code) r = on_lowering-Keeps l code
advance-Keeps ts l recovering r = on_recovering-Keeps l r

-- The goroutines behind the `once.Do` are no more than one, and none where `once` is fresh.
abbrev pub IsGuarded : Link → Type 0
IsGuarded l = sum recovers l.tasks ≤ bit l.spent

pub watch-tasks :
    (l : Link)
    → ((watch l).tasks ≡ l.tasks) × ((watch l).spent ≡ l.spent) × ((watch l).live ≡ l.live)
unfolding watch
watch-tasks l = ground arith

pub sum-tasks :
    (w : Task → ℕ) (l : Link) (before after : List Task) (t : Task)
    → l.tasks ≡ before ++ (t ∷ after)
    → sum w l.tasks ≡ sum w before + (w t + sum w after)
sum-tasks w l before after t e = ap (sum w) e ∙ sum-append w before (t ∷ after)

settle-IsGuarded :
    (l : Link) (before after : List Task) (t : Task) (p : Link × List Task)
    → l.tasks ≡ before ++ (t ∷ after)
    → Keeps l t p
    → IsGuarded l
    → IsGuarded (settle before after p)
settle-IsGuarded l before after t p e k g =
    omega (arith, sum-tasks recovers l before after t e, sum-settle recovers before after p)

module _ {ts : Timestamps} where
  Step-IsGuarded : {l u : Link} → Step ts l u → IsGuarded l → IsGuarded u
  Step-IsGuarded {l} (run before after t r _ e eu) g =
      subst IsGuarded (sym eu)
        (settle-IsGuarded l before after t (advance ts l t r) e (advance-Keeps ts l t r) g)
  Step-IsGuarded {l} (look _ _ eu) g =
      subst IsGuarded (sym eu) (rw ((watch-tasks l).0, (watch-tasks l).1) g)

  Outside-IsGuarded : {l u : Link} → Outside ts l u → IsGuarded l → IsGuarded u
  Outside-IsGuarded (greeted_by latest e) g = ground arith
  Outside-IsGuarded (send v e) g = ground arith
  Outside-IsGuarded (disconnect e) g = ground arith
  Outside-IsGuarded (change self e) g = ground arith

  Reach-IsGuarded : {l u : Link} → Reach ts l u → IsGuarded l → IsGuarded u
  Reach-IsGuarded here g = g
  Reach-IsGuarded (inside r s) g = Step-IsGuarded s (Reach-IsGuarded r g)
  Reach-IsGuarded (outside r o) g = Outside-IsGuarded o (Reach-IsGuarded r g)

-- At any time at most one goroutine of a connection is behind the `once.Do` of `reestablish`, and
-- none is while `once` is fresh: whatever calls fail at the same time, one goroutine recovers it.
pub Reach-recovers :
    (ts : Timestamps) (self : Self) {u : Link}
    → Reach ts (new_link self) u
    → sum recovers u.tasks ≤ bit u.spent
Reach-recovers ts self r = Reach-IsGuarded r (omega arith)
