-- ===== src/Session/Walking/Examples.antt =====
-- A stream that meets a new session on its way.
use istio_oidc.Common.{inl, ℕ, List, [], ◌∷◌, ◌++◌, ◌≡◌, refl, map}
use istio_oidc.Common.Map
use istio_oidc.Session.Histories.{Call, clean_round, perform}
use istio_oidc.Session.{
  clean, sweep_lists, sweep, is_expired, Stamped, list_of, since, set, assign, ensure, push_back,
  admit, is_unstamped,
}
use istio_oidc.Session.Serials.{unstamped}
use istio_oidc.Session.Streaming.{of_peer, wanted}
use istio_oidc.Session.Examples.{bob, three, three-IsWellFormed}
use istio_oidc.Session.Walking.{
  Walk, start_walk, copied, walk_at, walk_on, walk_for, go, call, Reach, here, next,
}
use istio_oidc.Session.Walking.Sending.{walk_sends}

-- A round of cleaning takes the first of the three sessions before the walk starts.
abbrev before : List Call
before = clean_round 12 ∷ []

abbrev setting_off : Walk
setting_off = start_walk (copied three) (perform before three)

abbrev met : Walk
met = record (walk_on (("self", 3) ∷ []) setting_off) {
  store = (set (walk_on (("self", 3) ∷ []) setting_off).store (unstamped bob)).0;
}

met-Reach : Reach (("self", 3) ∷ []) setting_off met
met-Reach = next (next here go) (call (unstamped bob))

-- The session that came after the call is sent too.
met_sent : map (λ v. v.serial) (walk_for 4 (("self", 3) ∷ []) met).sent ≡ 3 ∷ 4 ∷ []
unfolding walk_for walk_on walk_at start_walk perform clean sweep_lists sweep is_expired since
    list_of set assign ensure push_back admit is_unstamped Map.get Map.put Map.remove
met_sent = refl

walk_sends_example :
    (n : ℕ) × ((walk_for n (("self", 3) ∷ []) met).todo ≡ [])
    × (more : List Stamped) × (rest : List Stamped) × (list_of
          (walk_for n (("self", 3) ∷ []) met).store
          "self"
        ≡ (list_of (perform before three) "self" ++ more) ++ rest)
    × (of_peer "self" (walk_for n (("self", 3) ∷ []) met).sent
        ≡ since (wanted (("self", 3) ∷ []) "self") (list_of (perform before three) "self" ++ more))
walk_sends_example =
    walk_sends (("self", 3) ∷ []) three before met "self" three-IsWellFormed (inl refl) met-Reach
