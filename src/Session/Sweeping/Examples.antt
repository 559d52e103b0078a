-- ===== src/Session/Sweeping/Examples.antt =====
-- A round of cleaning in which a login comes before the deletion.
use istio_oidc.Common.{ℕ, String, [], ◌∷◌, ◌≡◌, ◌⊎◌, refl, map, Elem, true}
use istio_oidc.Common.Map
use istio_oidc.Session.{
  get, Stamped, list_of, set, assign, ensure, push_back, admit, is_unstamped, is_expired,
}
use istio_oidc.Session.Invariant.{IsWellFormed}
use istio_oidc.Session.Serials.{unstamped}
use istio_oidc.Session.Examples.{bob, three, three-IsWellFormed}
use istio_oidc.Session.Sweeping.{
  Round, start_round, sweep_on, sweep_todo, sweep_first, sweep_at, sweep_for, delete_at, remove_at,
  go, call, Reach, here, next,
}
use istio_oidc.Session.Sweeping.Keeping.{IsGiven, HasExpired, round_keeps}

abbrev aiming : Round
aiming = sweep_on 16 (start_round three)

abbrev met : Round
met = record aiming { store = (set aiming.store (unstamped bob)).0 }

met-Reach : Reach 16 (start_round three) met
unfolding sweep_on sweep_todo sweep_first sweep_at is_expired list_of Map.get
met-Reach = next (next here go) (call (unstamped bob) refl)

-- The first session has gone, and the new one is there.
met_end : map (λ v. v.serial) (list_of (sweep_for 3 16 met).store "self") ≡ 2 ∷ 3 ∷ 4 ∷ []
unfolding sweep_for sweep_on sweep_todo sweep_first sweep_at delete_at remove_at is_expired list_of
    set assign ensure push_back admit is_unstamped Map.get Map.put Map.remove
met_end = refl

round_keeps_example :
    IsWellFormed met.store
    × ((k : String) (w : Stamped)
        → Elem w (list_of three k)
        → Elem w (list_of met.store k) ⊎ (is_expired 16 w ≡ true))
    × ((id : String)
        → (get met.store id ≡ get three id) ⊎ (IsGiven id met-Reach ⊎ HasExpired 16 three id))
    × (n : ℕ) × ((sweep_for n 16 met).todo ≡ [])
round_keeps_example = round_keeps 16 three met met-Reach three-IsWellFormed
