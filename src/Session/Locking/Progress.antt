-- ===== src/Session/Locking/Progress.antt =====
-- While every stream is read, the locks of the store let somebody go on.
use native.Mathlib.Decide.{dec_lt}
use istio_oidc.Common.{
  ℕ, zero, suc, ◌+◌, ◌≤◌, ◌<◌, true, false, List, [], ◌∷◌, ◌++◌, ◌≡◌, ◌⊎◌, inl, inr, arith, sum,
  sum_mono, sum_pos,
}
use istio_oidc.Session.Locking.{
  Thread, setting, set_waiting, set_done, getting, get_done, streaming, starting, feeding, fed,
  cleaning, clean_waiting, walking, deleting, relocking, cleaned, reads_mu, waits_mu, reads_del,
  locks_del, Move, ask, store, read, open_stream, start, take, close, clean_read, clean_lock,
  delete, read_again, finish,
}
use istio_oidc.Session.Locking.Freezing.{is_stuck, sum-split, waits_clean}

abbrev is_walking : Thread → ℕ
is_walking walking = 1
is_walking _ = 0

abbrev is_relocking : Thread → ℕ
is_relocking relocking = 1
is_relocking _ = 0

-- A goroutine that is not done.
abbrev pub pending : Thread → ℕ
pending set_done = 0
pending get_done = 0
pending fed = 0
pending cleaned = 0
pending _ = 1

-- Some goroutine can make its next step.
abbrev pub CanMove : List Thread → Type 0
CanMove ts =
    (before : List Thread) × (t : Thread) × (after : List Thread) × (u : Thread) × (ts
      ≡ before ++ (t ∷ after))
    × Move ts t u

reads_mu-le : (t : Thread) → reads_mu t ≤ waits_clean t + is_walking t
reads_mu-le clean_waiting = omega arith
reads_mu-le walking = omega arith
reads_mu-le _ = omega arith

locks_del-le :
    (t : Thread) → locks_del t ≤ waits_clean t + is_walking t + waits_mu t + is_relocking t
locks_del-le clean_waiting = omega arith
locks_del-le walking = omega arith
locks_del-le deleting = omega arith
locks_del-le relocking = omega arith
locks_del-le _ = omega arith

sum_add : (w v : Thread → ℕ) (ts : List Thread) → sum (λ t. w t + v t) ts ≡ sum w ts + sum v ts
sum_add w v [] = omega arith
sum_add w v (t ∷ ts) = omega (arith, sum_add w v ts)

-- A goroutine that counts under a weight moves, if each one that counts can.
moves_of :
    (w : Thread → ℕ) (ts : List Thread)
    → ((before : List Thread) (t : Thread) (after : List Thread)
        → ts ≡ before ++ (t ∷ after)
        → 0 < w t
        → (u : Thread) × Move ts t u)
    → (sum w ts ≡ 0) ⊎ CanMove ts
moves_of w ts h = elim (dec_lt 0 (sum w ts)) [
  | no none_left ↦ inl (omega arith)
  | yes some_left ↦
      let (before, t, after, e, p) = sum_pos w ts some_left in
      let (u, m) = h before t after e p in inr (before, t, after, u, e, m)
]

feeder_moves :
    (ts : List Thread) (before : List Thread) (t : Thread) (after : List Thread)
    → sum is_stuck ts ≡ 0
    → ts ≡ before ++ (t ∷ after)
    → 0 < reads_del t
    → (u : Thread) × Move ts t u
feeder_moves ts before (feeding true (suc n)) after z e p = (feeding true n, take n true)
feeder_moves ts before (feeding b zero) after z e p = (fed, close b)
feeder_moves ts before (feeding false (suc n)) after z e p =
    absurd (omega (arith, sum-split is_stuck ts before after (feeding false (suc n)) e))
feeder_moves ts before _ after z e p = absurd (omega arith)

waiter_moves :
    (ts : List Thread) (t : Thread)
    → sum reads_mu ts ≡ 0
    → 0 < waits_mu t
    → (u : Thread) × Move ts t u
waiter_moves ts set_waiting z p = (set_done, store z)
waiter_moves ts deleting z p = (relocking, delete z)
waiter_moves ts _ z p = absurd (omega arith)

clean_moves :
    (ts : List Thread) (t : Thread)
    → sum reads_del ts ≡ 0
    → 0 < waits_clean t
    → (u : Thread) × Move ts t u
clean_moves ts clean_waiting z p = (walking, clean_lock z)
clean_moves ts _ z p = absurd (omega arith)

walk_moves : (ts : List Thread) (t : Thread) → 0 < is_walking t → (u : Thread) × Move ts t u
walk_moves ts walking p = (cleaned, finish)
walk_moves ts _ p = absurd (omega arith)

relock_moves :
    (ts : List Thread) (t : Thread)
    → sum waits_mu ts ≡ 0
    → 0 < is_relocking t
    → (u : Thread) × Move ts t u
relock_moves ts relocking z p = (walking, read_again z)
relock_moves ts _ z p = absurd (omega arith)

-- With no lock held or waited for, everybody moves who is not done.
idle_moves :
    (ts : List Thread) (t : Thread)
    → sum waits_mu ts ≡ 0
    → sum locks_del ts ≡ 0
    → sum reads_mu ts ≡ 0
    → sum reads_del ts ≡ 0
    → is_stuck t ≡ 0
    → 0 < pending t
    → (u : Thread) × Move ts t u
idle_moves ts setting z y x w v p = (set_waiting, ask)
idle_moves ts set_waiting z y x w v p = (set_done, store x)
idle_moves ts set_done z y x w v p = absurd (omega arith)
idle_moves ts getting z y x w v p = (get_done, read z)
idle_moves ts get_done z y x w v p = absurd (omega arith)
idle_moves ts (streaming n) z y x w v p = (starting n, open_stream n z)
idle_moves ts (starting n) z y x w v p = (feeding true n, start n y)
idle_moves ts (feeding true (suc n)) z y x w v p = (feeding true n, take n true)
idle_moves ts (feeding true zero) z y x w v p = (fed, close true)
idle_moves ts (feeding false zero) z y x w v p = (fed, close false)
idle_moves ts (feeding false (suc n)) z y x w v p = absurd (omega arith)
idle_moves ts fed z y x w v p = absurd (omega arith)
idle_moves ts cleaning z y x w v p = (clean_waiting, clean_read z)
idle_moves ts clean_waiting z y x w v p = (walking, clean_lock w)
idle_moves ts walking z y x w v p = (cleaned, finish)
idle_moves ts deleting z y x w v p = (relocking, delete x)
idle_moves ts relocking z y x w v p = (walking, read_again z)
idle_moves ts cleaned z y x w v p = absurd (omega arith)

or_moves :
    (ts : List Thread) {P Q : Type 0} → P ⊎ CanMove ts → (P → Q ⊎ CanMove ts) → Q ⊎ CanMove ts
or_moves ts (inl p) next = next p
or_moves ts (inr m) next = inr m

no_mu_reader :
    (ts : List Thread) → sum waits_clean ts ≡ 0 → sum is_walking ts ≡ 0 → sum reads_mu ts ≡ 0
no_mu_reader ts a b = omega (
  arith,
  sum_mono reads_mu (λ t. waits_clean t + is_walking t) reads_mu-le ts,
  sum_add waits_clean is_walking ts,
)

no_del_lock :
    (ts : List Thread)
    → sum waits_clean ts ≡ 0
    → sum is_walking ts ≡ 0
    → sum waits_mu ts ≡ 0
    → sum is_relocking ts ≡ 0
    → sum locks_del ts ≡ 0
no_del_lock ts a b c d = omega (
  arith,
  sum_mono locks_del (λ t. waits_clean t + is_walking t + waits_mu t + is_relocking t) locks_del-le
      ts,
  sum_add waits_clean is_walking ts,
  sum_add (λ t. waits_clean t + is_walking t) waits_mu ts,
  sum_add (λ t. waits_clean t + is_walking t + waits_mu t) is_relocking ts,
)

-- While no receiver has left a stream with sessions to send, the locks never stop all goroutines: one
-- of them can make its next step, or all are done.
pub locking_progress : (ts : List Thread) → sum is_stuck ts ≡ 0 → (sum pending ts ≡ 0) ⊎ CanMove ts
locking_progress ts z =
    or_moves ts (moves_of reads_del ts (λ b t a e p. feeder_moves ts b t a z e p)) λ del.
      or_moves ts (moves_of waits_clean ts (λ b t a e p. clean_moves ts t del p)) λ wc.
        or_moves ts (moves_of is_walking ts (λ b t a e p. walk_moves ts t p)) λ wk.
          let mu = no_mu_reader ts wc wk in
          or_moves ts (moves_of waits_mu ts (λ b t a e p. waiter_moves ts t mu p)) λ wm.
            or_moves ts (moves_of is_relocking ts (λ b t a e p. relock_moves ts t wm p)) λ rl.
              moves_of pending ts (λ b t a e p.
                idle_moves ts t wm (no_del_lock ts wc wk wm rl) mu del
                  (omega (arith, sum-split is_stuck ts b a t e)) p)
