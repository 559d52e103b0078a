-- ===== src/Session/Locking/Examples.antt =====
-- The locks with concrete goroutines.
use istio_oidc.Common.{true, List, [], ◌∷◌, ◌≡◌, ◌⊎◌, refl, sum}
use istio_oidc.Session.Locking.{Thread, getting, feeding, set_done, clean_waiting, Reach}
use istio_oidc.Session.Locking.Freezing.{returned, frozen, stream_freezes}
use istio_oidc.Session.Locking.Progress.{pending, CanMove, locking_progress}

abbrev visited : List Thread
visited = getting ∷ (set_done ∷ [])

-- A stream of three sessions whose receiver leaves with the first.
stream_freezes_example :
    Reach visited (frozen 1 visited)
    × ((us : List Thread)
        → Reach (frozen 1 visited) us
        → sum returned us ≡ sum returned (frozen 1 visited))
stream_freezes_example = stream_freezes 1 visited refl refl

-- A stream, for which a round of cleaning waits, for which a call of `Get` does not wait.
abbrev busy : List Thread
busy = feeding true 2 ∷ (clean_waiting ∷ (getting ∷ []))

locking_progress_example : (sum pending busy ≡ 0) ⊎ CanMove busy
locking_progress_example = locking_progress busy refl
