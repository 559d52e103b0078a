-- ===== src/Session.antt =====
-- state/session/store.go: the session store. Here each method is one step, a function on the store, and
-- `Stream` and `clean` are taken at the moment of the call; Walking and Sweeping take them step by step.
-- A time is the number of nanoseconds since Go's zero time, which is 0.
pub mod Invariant
pub mod Setting
pub mod Keeping
pub mod Streaming
pub mod Cleaning
pub mod Serials
pub mod Foreign
pub mod Walking
pub mod Sweeping
pub mod Locking
pub mod Histories
pub mod Examples
use istio_oidc.Common.{
  ℕ, ◌+◌, ◌%◌, ◌^◌, String, Bool, true, false, ◌&&◌, Option, none, some, List, [], ◌∷◌, ◌++◌, ltb,
  leb, eqb, if◌then◌else◌, or_else, back, select, Result, ok, err, ◌==◌,
}
use istio_oidc.Common.Map
use istio_oidc.Common.Map.{GoMap}

pub record Session : Type 0 where
  pub id : String
  pub refresh_token : String
  pub expiry : ℕ

pub record Stamp : Type 0 where
  pub peer_id : String
  pub serial : ℕ

pub record Stamped : Type 0 where
  pub session : Session
  pub open session use *
  pub stamp : Stamp
  pub open stamp use *

pub record SessionStore : Type 0 where
  pub self_id : String
  pub curr : ℕ
  pub found : GoMap Session
  pub store : GoMap (List Stamped)

abbrev pub new_session_store : String → SessionStore
new_session_store peer_id = record { self_id = peer_id; curr = 0; found = []; store = [] }

-- `ss.lookup[id]`
unfoldable pub get : SessionStore → String → Option Session
get s id = Map.get id s.found

-- The list of a peer, empty where the map has none.
unfoldable pub list_of : SessionStore → String → List Stamped
list_of s peer = or_else (Map.get peer s.store) []

-- `sess.Stamp == (Stamp{})`
unfoldable pub is_unstamped : Stamped → Bool
is_unstamped v = v.peer_id == "" && eqb v.serial 0

-- A session without a stamp gets this store's name and the next serial, a uint64.
unfoldable pub assign : SessionStore → Stamped → SessionStore × Stamped
unfolding is_unstamped
assign s v =
    let next = (s.curr + 1) % 2 ^ 64 in
    if is_unstamped v
    then (
      record s { curr = next },
      record { session = v.session; stamp = record { peer_id = s.self_id; serial = next } },
    )
    else (s, v)

-- A peer's first session makes its list.
unfoldable pub ensure : SessionStore → String → SessionStore
ensure s peer = elim (Map.get peer s.store) [
  | none ↦ record s { store = Map.put peer [] s.store }
  | some l ↦ s
]

unfoldable pub push_back : SessionStore → Stamped → SessionStore
unfolding list_of
push_back s v = record s {
  store = Map.put v.peer_id (list_of s v.peer_id ++ v ∷ []) s.store;
  found = Map.put v.id v.session s.found;
}

-- The comparison with the last session of the list.
unfoldable pub admit : SessionStore → Stamped → Option Stamped → SessionStore × Result Stamped
admit s v none = (push_back s v, ok v)
admit s v (some last) =
    if leb v.serial last.serial then (s, err "out of order session") else (push_back s v, ok v)

unfoldable pub set : SessionStore → Stamped → SessionStore × Result Stamped
set s v =
    let (s', v') = assign s v in
    let t = ensure s' v'.peer_id in admit t v' (back (list_of t v'.peer_id))

-- The sessions of one list that a reader who has them up to `from` is sent.
unfoldable pub since : ℕ → List Stamped → List Stamped
since from l = select (λ v. leb from v.serial) l

unfoldable pub stream_lists : GoMap ℕ → GoMap (List Stamped) → List Stamped
stream_lists from [] = []
stream_lists from ((k, l) ∷ m) = since (or_else (Map.get k from) 0) l ++ stream_lists from m

unfoldable pub stream : SessionStore → GoMap ℕ → List Stamped
unfolding stream_lists
stream s from = stream_lists from s.store

-- `v.Expiry.Before(min)`
unfoldable pub is_expired : ℕ → Stamped → Bool
is_expired min v = ltb v.expiry min

-- The loop over one list in `clean`, with `delete`: the list that is left, and the look-up map.
-- `l.Remove(e)` of container/list clears `e.next` and `e.list`, so the `e.Next()` after a deletion is
-- nil: the loop ends there, and the elements behind `e` stay unvisited.
unfoldable pub sweep : ℕ → List Stamped → GoMap Session → List Stamped × GoMap Session
sweep min [] found = ([], found)
sweep min (v ∷ rest) found =
    let (rest', found') = sweep min rest found in
    if is_expired min v then (rest, Map.remove v.id found) else (v ∷ rest', found')

unfoldable pub sweep_lists :
    ℕ → GoMap (List Stamped) → GoMap Session → GoMap (List Stamped) × GoMap Session
unfolding sweep
sweep_lists min [] found = ([], found)
sweep_lists min ((k, l) ∷ m) found =
    let (l', found') = sweep min l found in
    let (m', found'') = sweep_lists min m found' in ((k, l') ∷ m', found'')

unfoldable pub clean : SessionStore → ℕ → SessionStore
unfolding sweep_lists
clean s min =
    let (store', found') = sweep_lists min s.store s.found in
    record s { store = store'; found = found' }
