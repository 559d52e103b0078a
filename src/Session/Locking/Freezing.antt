-- ===== src/Session/Locking/Freezing.antt =====
-- What a stream that nobody reads any more does to the store.
use istio_oidc.Common.{
  ℕ, zero, suc, ◌+◌, ◌≤◌, ◌<◌, true, false, List, [], ◌∷◌, ◌++◌, ◌≡◌, refl, arith, sum, sum-append,
  sum_mono, ap, ◌∙◌,
}
use istio_oidc.Session.Locking.{
  Thread, setting, set_waiting, set_done, getting, get_done, streaming, starting, feeding, fed,
  cleaning, clean_waiting, walking, deleting, relocking, reads_mu, waits_mu, reads_del, locks_del,
  cleans, Move, ask, store, read, open_stream, start, take, close, clean_read, clean_lock, expire,
  delete, read_again, finish, Step, move, call_set, call_get, call_stream, tick, Reach, here, next,
}

-- A stream with sessions left whose receiver is gone.
abbrev pub is_stuck : Thread → ℕ
is_stuck (feeding false (suc n)) = 1
is_stuck _ = 0

abbrev pub waits_clean : Thread → ℕ
waits_clean clean_waiting = 1
waits_clean _ = 0

abbrev pub waits_set : Thread → ℕ
waits_set set_waiting = 1
waits_set _ = 0

-- A call of `Set`, `Get` or `Stream` that has returned.
abbrev pub returned : Thread → ℕ
returned set_done = 1
returned get_done = 1
returned (starting n) = 1
returned (feeding b n) = 1
returned fed = 1
returned _ = 0

-- The stream keeps `delMu`, for which a round of cleaning waits with `mu` in its hand, for which a
-- `Set` waits.
pub record IsFrozen (ts : List Thread) : Type 0 where
  pub stuck : 0 < sum is_stuck ts
  pub clean : 0 < sum waits_clean ts
  pub set : 0 < sum waits_set ts

is_stuck-le : (t : Thread) → is_stuck t ≤ reads_del t
is_stuck-le (feeding false (suc n)) = omega arith
is_stuck-le (feeding false zero) = omega arith
is_stuck-le (feeding true n) = omega arith
is_stuck-le _ = omega arith

waits_clean-le : (t : Thread) → waits_clean t ≤ reads_mu t
waits_clean-le clean_waiting = omega arith
waits_clean-le _ = omega arith

waits_set-le : (t : Thread) → waits_set t ≤ waits_mu t
waits_set-le set_waiting = omega arith
waits_set-le _ = omega arith

-- What no step can change in a frozen store.
abbrev Stays : Thread → Thread → Type 0
Stays t u =
    (is_stuck t ≤ is_stuck u)
    × (waits_clean t ≤ waits_clean u)
    × (waits_set t ≤ waits_set u)
    × (returned u ≡ returned t)

Move-Stays : (all : List Thread) {t u : Thread} → Move all t u → IsFrozen all → Stays t u
Move-Stays all m f =
    go m (omega (arith, f.clean, sum_mono waits_clean reads_mu waits_clean-le all))
      (omega (arith, f.set, sum_mono waits_set waits_mu waits_set-le all))
      (omega (arith, f.stuck, sum_mono is_stuck reads_del is_stuck-le all))
  where
    go :
        {t u : Thread}
        → Move all t u
        → 0 < sum reads_mu all
        → 0 < sum waits_mu all
        → 0 < sum reads_del all
        → Stays t u
    go ask a b c = omega arith
    go (store e) a b c = absurd (omega arith)
    go (read e) a b c = absurd (omega arith)
    go (open_stream n e) a b c = absurd (omega arith)
    go (start n e) a b c = omega arith
    go (take n true) a b c = omega arith
    go (take zero false) a b c = omega arith
    go (take (suc n) false) a b c = omega arith
    go (close true) a b c = omega arith
    go (close false) a b c = omega arith
    go (clean_read e) a b c = absurd (omega arith)
    go (clean_lock e) a b c = absurd (omega arith)
    go expire a b c = omega arith
    go (delete e) a b c = absurd (omega arith)
    go (read_again e) a b c = absurd (omega arith)
    go finish a b c = omega arith

pub sum-split :
    (w : Thread → ℕ) (ts before after : List Thread) (t : Thread)
    → ts ≡ before ++ (t ∷ after)
    → sum w ts ≡ sum w before + (w t + sum w after)
sum-split w ts before after t e = ap (sum w) e ∙ sum-append w before (t ∷ after)

moved-IsFrozen :
    (ts us before after : List Thread) (t u : Thread)
    → ts ≡ before ++ (t ∷ after)
    → us ≡ before ++ (u ∷ after)
    → Stays t u
    → IsFrozen ts
    → IsFrozen us × (sum returned us ≡ sum returned ts)
moved-IsFrozen ts us before after t u e e' (a, b, c, d) f = (
  record {
    stuck = omega (
      arith,
      f.stuck,
      sum-split is_stuck ts before after t e,
      sum-split is_stuck us before after u e',
    );
    clean = omega (
      arith,
      f.clean,
      sum-split waits_clean ts before after t e,
      sum-split waits_clean us before after u e',
    );
    set = omega (
      arith,
      f.set,
      sum-split waits_set ts before after t e,
      sum-split waits_set us before after u e',
    );
  },
  omega (arith, sum-split returned ts before after t e, sum-split returned us before after u e'),
)

new-IsFrozen :
    (ts us : List Thread) (t : Thread)
    → us ≡ t ∷ ts
    → returned t ≡ 0
    → IsFrozen ts
    → IsFrozen us × (sum returned us ≡ sum returned ts)
new-IsFrozen ts us t e z f = (
  record {
    stuck = omega (arith, f.stuck, ap (sum is_stuck) e);
    clean = omega (arith, f.clean, ap (sum waits_clean) e);
    set = omega (arith, f.set, ap (sum waits_set) e);
  },
  omega (arith, ap (sum returned) e),
)

Step-IsFrozen :
    (ts us : List Thread)
    → Step ts us
    → IsFrozen ts
    → IsFrozen us × (sum returned us ≡ sum returned ts)
Step-IsFrozen ts us (move before after {t} {u} m e e') f =
    moved-IsFrozen ts us before after t u e e' (Move-Stays ts m f) f
Step-IsFrozen ts us (call_set e) f = new-IsFrozen ts us setting e refl f
Step-IsFrozen ts us (call_get e) f = new-IsFrozen ts us getting e refl f
Step-IsFrozen ts us (call_stream n e) f = new-IsFrozen ts us (streaming n) e refl f
Step-IsFrozen ts us (tick z e) f = new-IsFrozen ts us cleaning e refl f

Reach-IsFrozen :
    {ts us : List Thread}
    → Reach ts us
    → IsFrozen ts
    → IsFrozen us × (sum returned us ≡ sum returned ts)
Reach-IsFrozen here f = (f, refl)
Reach-IsFrozen (next {us} {vs} r s) f =
    let (g, e) = Reach-IsFrozen r f in let (h, e') = Step-IsFrozen us vs s g in (h, e' ∙ e)

locks_del-le : (t : Thread) → locks_del t ≤ cleans t
locks_del-le clean_waiting = omega arith
locks_del-le walking = omega arith
locks_del-le deleting = omega arith
locks_del-le relocking = omega arith
locks_del-le _ = omega arith

-- The store after a stream whose receiver left, with a round of cleaning and a `Set` behind it.
abbrev pub frozen : ℕ → List Thread → List Thread
frozen n ts = set_waiting ∷ (clean_waiting ∷ (feeding false (suc n) ∷ ts))

frozen-Reach :
    (n : ℕ) (ts : List Thread) → sum waits_mu ts ≡ 0 → sum cleans ts ≡ 0 → Reach ts (frozen n ts)
frozen-Reach n ts quiet rested =
    let free : sum locks_del ts ≡ 0 = omega (arith, sum_mono locks_del cleans locks_del-le ts) in
    let stuck = feeding false (suc n) ∷ ts in
    let opened : Reach ts (feeding true (suc (suc n)) ∷ ts) =
      next {us = starting (suc (suc n)) ∷ ts}
        (next {us = streaming (suc (suc n)) ∷ ts} (next here (call_stream (suc (suc n)) refl))
          (move [] ts (open_stream (suc (suc n)) (omega arith)) refl refl))
        (move [] ts (start (suc (suc n)) (omega arith)) refl refl) in
    let left : Reach ts stuck = next opened (move [] ts (take (suc n) false) refl refl) in
    let cleaner : Reach ts (clean_waiting ∷ stuck) =
      next {us = cleaning ∷ stuck} (next left (tick (omega arith) refl))
        (move [] stuck (clean_read (omega arith)) refl refl) in
    next {us = setting ∷ (clean_waiting ∷ stuck)} (next cleaner (call_set refl))
      (move [] (clean_waiting ∷ stuck) ask refl refl)

-- A store at rest, that is with nobody in `mu.Lock` and no round of cleaning, freezes where the loop
-- of `StreamSessions` cannot send the first of two or more sessions and returns: the next round of
-- cleaning and the next `Set` bring it to a state from which no call of `Set`, `Get` or `Stream` that
-- has not returned ever returns, whatever comes.
pub stream_freezes :
    (n : ℕ) (ts : List Thread)
    → sum waits_mu ts ≡ 0
    → sum cleans ts ≡ 0
    → Reach ts (frozen n ts)
      × ((us : List Thread) → Reach (frozen n ts) us → sum returned us ≡ sum returned (frozen n ts))
stream_freezes n ts quiet rested = (
  frozen-Reach n ts quiet rested,
  λ us r.
      (Reach-IsFrozen r (record { stuck = omega arith; clean = omega arith; set = omega arith })).1,
)
