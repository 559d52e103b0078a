-- ===== src/Replication/Connecting/Abandoning.antt =====
-- What a canceled call leaves of a connection.
use istio_oidc.Common.{
  sum, ℕ, ◌+◌, true, false, List, ◌∷◌, ◌++◌, ◌≡◌, refl, arith, subst, sym, ap, ◌∙◌,
}
use istio_oidc.Session.{Stamped}
use istio_oidc.Replication.Maps.{Timestamps}
use istio_oidc.Replication.Connecting.{
  canceled, Task, greeting, updating, opening, receiving, sending, failing, lowering, recovering,
  Reply, greeted, done, received, end_of_stream, failed, steady, Link, on_sending, on_failing,
  on_lowering, announce, advance, settle, Step, run, look, Outside, greeted_by, send, disconnect,
  change, Reach, here, inside, outside,
}
use istio_oidc.Replication.Connecting.Recovering.{sum-settle, sum-tasks, watch-tasks}

-- A goroutine that works on the connection's state: one that handshakes, updates, or recovers.
abbrev pub works : Task → ℕ
works greeting = 1
works (updating latest) = 1
works opening = 1
works receiving = 1
works (sending v) = 0
works (failing code) = 0
works (lowering code) = 1
works recovering = 1

-- A connection that is not live, has used up its `once`, and has no goroutine that works on it.
pub record IsAbandoned (l : Link) : Type 0 where
  pub down : l.live ≡ false
  pub used : l.spent ≡ true
  pub idle : sum works l.tasks ≡ 0

abbrev Rests : Link → Link × List Task → Type 0
Rests l p = (p.0.live ≡ l.live) × (p.0.spent ≡ l.spent) × (sum works p.1 ≡ 0)

on_sending-Rests : {T : Type 0} (l : Link) (v : Stamped) (r : Reply T) → Rests l (on_sending l v r)
unfolding on_sending
on_sending-Rests l v done = (refl, refl, refl)
on_sending-Rests l v (failed code) = (refl, refl, refl)
on_sending-Rests l v (greeted latest) = (refl, refl, refl)
on_sending-Rests l v (received m) = (refl, refl, refl)
on_sending-Rests l v end_of_stream = (refl, refl, refl)
on_sending-Rests l v steady = (refl, refl, refl)

advance-Rests :
    (ts : Timestamps) (l : Link) (t : Task) (r : Reply ts.Timestamp)
    → works t ≡ 0
    → l.spent ≡ true
    → Rests l (advance ts l t r)
unfolding advance
advance-Rests ts l greeting r z h = absurd (omega arith)
advance-Rests ts l (updating latest) r z h = absurd (omega arith)
advance-Rests ts l opening r z h = absurd (omega arith)
advance-Rests ts l receiving r z h = absurd (omega arith)
advance-Rests ts l (sending v) r z h = on_sending-Rests l v r
advance-Rests ts l (failing code) r z h = unfold on_failing in rw h (refl, refl, refl)
advance-Rests ts l (lowering code) r z h = absurd (omega arith)
advance-Rests ts l recovering r z h = absurd (omega arith)

settle-IsAbandoned :
    (l : Link) (before after : List Task) (t : Task) (p : Link × List Task)
    → l.tasks ≡ before ++ (t ∷ after)
    → (works t ≡ 0 → l.spent ≡ true → Rests l p)
    → IsAbandoned l
    → IsAbandoned (settle before after p)
settle-IsAbandoned l before after t p e rests a =
    let all = sum-tasks works l before after t e in
    let (live, spent, none_left) = rests (omega (arith, all, a.idle)) a.used in
    record {
      down = live ∙ a.down;
      used = spent ∙ a.used;
      idle = omega (arith, all, a.idle, none_left, sum-settle works before after p);
    }

module _ {ts : Timestamps} where
  Step-IsAbandoned : {l u : Link} → Step ts l u → IsAbandoned l → IsAbandoned u
  Step-IsAbandoned {l} (run before after t r _ e eu) a =
      subst IsAbandoned (sym eu)
        (settle-IsAbandoned l before after t (advance ts l t r) e (advance-Rests ts l t r) a)
  Step-IsAbandoned {l} (look _ _ eu) a =
      let (tasks, spent, live) = watch-tasks l in
      subst IsAbandoned (sym eu) (record {
        down = live ∙ a.down;
        used = spent ∙ a.used;
        idle = ap (sum works) tasks ∙ a.idle;
      })

  Outside-IsAbandoned : {l u : Link} → Outside ts l u → IsAbandoned l → IsAbandoned u
  Outside-IsAbandoned (greeted_by latest e) a = ground (arith, a.down)
  Outside-IsAbandoned (send v e) a = ground arith
  Outside-IsAbandoned (disconnect e) a = ground arith
  Outside-IsAbandoned (change self e) a = ground arith

  Reach-IsAbandoned : {l u : Link} → Reach ts l u → IsAbandoned l → IsAbandoned u
  Reach-IsAbandoned here a = a
  Reach-IsAbandoned (inside r s) a = Step-IsAbandoned s (Reach-IsAbandoned r a)
  Reach-IsAbandoned (outside r o) a = Outside-IsAbandoned o (Reach-IsAbandoned r a)

lowered-IsAbandoned :
    (l : Link) (before after : List Task)
    → l.spent ≡ true
    → sum works before + sum works after ≡ 0
    → IsAbandoned (settle before after (on_lowering l canceled))
unfolding on_lowering announce
lowered-IsAbandoned l before after h z = record {
  down = refl;
  used = h;
  idle = omega (arith, sum-settle works before after (on_lowering l canceled));
}

-- `reestablish` after a call that was answered with Canceled, while no other goroutine handshakes,
-- updates or recovers the connection, is its end: whatever the peer, the own sessions and the worker
-- do from then on, it is never live again, and no handshake, update or recovery of it starts.
pub canceled-IsAbandoned :
    (ts : Timestamps) (l : Link) (before after : List Task) {u : Link}
    → l.spent ≡ true
    → sum works before + sum works after ≡ 0
    → Reach ts (settle before after (advance ts l (lowering canceled) steady)) u
    → (u.live ≡ false) × (sum works u.tasks ≡ 0)
unfolding advance
canceled-IsAbandoned ts l before after h z r =
    let a = Reach-IsAbandoned r (lowered-IsAbandoned l before after h z) in (a.down, a.idle)
