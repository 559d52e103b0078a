-- ===== src/Session/Examples.antt =====
-- Runs of the session store, and the theorems about it at concrete stores.
use istio_oidc.Common.{
  ℕ, ◌+◌, ◌-◌, ◌≤◌, ◌≡◌, refl, ◌<◌, ◌^◌, ◌⊎◌, some, [], ◌∷◌, ◌++◌, arith, back, err, subst,
}
use istio_oidc.Common.Map
use istio_oidc.Session.{
  Session, Stamped, SessionStore, new_session_store, get, list_of, set, since, stream, clean,
  is_expired, assign, ensure, push_back, admit, sweep, sweep_lists, stream_lists, is_unstamped,
}
use istio_oidc.Session.Invariant.{IsWellFormed, Above}
use istio_oidc.Session.Setting.{stamped, set_outcome, IsRefused, IsAccepted}
use istio_oidc.Session.Keeping.{set-IsWellFormed}
use istio_oidc.Session.Histories.{set_session, clean_round, perform, history-IsWellFormed}
use istio_oidc.Session.Cleaning.{clean_rounds, expired_count, clean_rounds-expired_count}
use istio_oidc.Session.Serials.{IsCounted, unstamped, numbered_from, set_all, set_all-numbered}

abbrev pub alice : Session
alice = record { id = "a"; refresh_token = "ra"; expiry = 10 }

abbrev pub bob : Session
bob = record { id = "b"; refresh_token = "rb"; expiry = 20 }

abbrev carol : Session
carol = record { id = "c"; refresh_token = "rc"; expiry = 15 }

abbrev pub from_self : ℕ → Session → Stamped
from_self n s = record { session = s; stamp = record { peer_id = "self"; serial = n } }

abbrev pub fresh : SessionStore
fresh = new_session_store "self"

-- The store after three logins.
abbrev pub three : SessionStore
three = record {
  self_id = "self";
  curr = 3;
  found = ("a", alice) ∷ ("b", bob) ∷ ("c", carol) ∷ [];
  store = ("self", from_self 1 alice ∷ from_self 2 bob ∷ from_self 3 carol ∷ []) ∷ [];
}

three_logins : set_all fresh (alice ∷ bob ∷ carol ∷ []) ≡ three
unfolding set_all set assign ensure admit push_back list_of is_unstamped Map.get Map.put
three_logins = refl

replay_refused : (set three (from_self 2 bob)).1 ≡ err "out of order session"
unfolding set assign ensure admit push_back list_of is_unstamped Map.get Map.put
replay_refused = refl

-- Two sessions have run out at 16, and a round takes the first.
clean_once : list_of (clean three 16) "self" ≡ from_self 2 bob ∷ from_self 3 carol ∷ []
unfolding list_of clean sweep_lists sweep is_expired Map.get Map.remove
clean_once = refl

stream_from_two : stream three (("self", 2) ∷ []) ≡ from_self 2 bob ∷ from_self 3 carol ∷ []
unfolding stream stream_lists since Map.get
stream_from_two = refl

fresh-IsWellFormed : IsWellFormed fresh
unfolding get list_of Map.get
fresh-IsWellFormed = record {
  distinct = tt;
  ordered = λ peer. tt;
  backed = λ id sess h. ground arith;
}

pub fresh-IsCounted : IsCounted fresh
unfolding list_of Map.get
fresh-IsCounted = tt

two-IsWellFormed : IsWellFormed (set (set fresh (unstamped alice)).0 (unstamped bob)).0
two-IsWellFormed =
    set-IsWellFormed _ (unstamped bob) (set-IsWellFormed fresh (unstamped alice) fresh-IsWellFormed)

pub three-IsWellFormed : IsWellFormed three
unfolding set_all
three-IsWellFormed =
    subst IsWellFormed three_logins (set-IsWellFormed _ (unstamped carol) two-IsWellFormed)

history-IsWellFormed_example :
    IsWellFormed (
      perform
        (set_session (unstamped alice) ∷ clean_round 16 ∷ set_session (unstamped bob) ∷ [])
        fresh)
    × ((perform
          (set_session (unstamped alice) ∷ clean_round 16 ∷ set_session (unstamped bob) ∷ [])
          fresh).curr
        < 2 ^ 64)
history-IsWellFormed_example =
    history-IsWellFormed "self"
      (set_session (unstamped alice) ∷ clean_round 16 ∷ set_session (unstamped bob) ∷ [])

set_outcome_example :
    ((last : Stamped) × (back (list_of three (stamped three (from_self 2 bob)).peer_id) ≡ some last)
      × ((stamped three (from_self 2 bob)).serial ≤ last.serial)
      × IsRefused three (from_self 2 bob))
    ⊎ (Above
          (back (list_of three (stamped three (from_self 2 bob)).peer_id))
          (stamped three (from_self 2 bob)).serial
        × IsAccepted three (from_self 2 bob))
set_outcome_example = set_outcome three (from_self 2 bob)

clean_rounds-expired_count_example :
    expired_count 16 (list_of (clean_rounds 1 three 16) "self")
    ≡ expired_count 16 (list_of three "self") - 1
clean_rounds-expired_count_example = clean_rounds-expired_count 1 three 16 "self"

set_all-numbered_example :
    list_of (set_all fresh (alice ∷ bob ∷ [])) "self"
    ≡ list_of fresh "self" ++ numbered_from "self" (0 + 1) (alice ∷ bob ∷ [])
set_all-numbered_example = set_all-numbered fresh (alice ∷ bob ∷ []) (omega arith) fresh-IsCounted
