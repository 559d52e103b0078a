-- ===== src/Session/Sweeping.antt =====
-- A round of cleaning in state/session/store.go, step by step: `clean` holds `mu` for reading but gives
-- it up around each `delete`, and there calls of `Set` come in.
pub mod Ending
pub mod Deleting
pub mod Keeping
mod Examples
use istio_oidc.Common.{
  ℕ, zero, suc, ◌+◌, String, Bool, true, false, List, [], ◌∷◌, ◌++◌, Option, none, some, ◌≡◌,
  get_elem?, if◌then◌else◌,
}
use istio_oidc.Common.Map
use istio_oidc.Session.Walking.{copied}
use istio_oidc.Session.{Stamped, SessionStore, list_of, is_expired, set}

-- In the loop, with `mu` held; before the `mu.Lock` of `delete` for a session; and behind `delete`,
-- before `mu.RLock`.
pub data Phase : Type 0 where
  walking : Phase
  deleting : Stamped → Phase
  relocking : Phase

-- A round: the peers whose lists are left, the first of them with the number of its sessions that the
-- loop has passed.
pub record Round : Type 0 where
  pub store : SessionStore
  pub todo : List String
  pub position : ℕ
  pub phase : Phase

-- The start of `clean`.
abbrev pub start_round : SessionStore → Round
start_round s = record { store = s; todo = copied s; position = 0; phase = walking }

-- `l.Remove(e)` for the element at a position.
unfoldable pub remove_at : List Stamped → ℕ → List Stamped
remove_at [] n = []
remove_at (v ∷ l) zero = l
remove_at (v ∷ l) (suc n) = v ∷ remove_at l n

-- `delete`
unfoldable pub delete_at : SessionStore → String → ℕ → Stamped → SessionStore
unfolding remove_at list_of
delete_at s k n v = record s {
  store = Map.put k (remove_at (list_of s k) n) s.store;
  found = Map.remove v.id s.found;
}

-- The loop at an element, or at the end of a list.
unfoldable pub sweep_at : ℕ → Round → List String → Option Stamped → Round
unfolding is_expired
sweep_at min r ks none = record r { todo = ks; position = 0 }
sweep_at min r ks (some v) =
    if is_expired min v
    then record r { phase = deleting v }
    else record r { position = r.position + 1 }

-- A step of the round at the first of the lists that are left. Behind a deletion `e.Next()` is nil,
-- which ends the loop over the list.
unfoldable pub sweep_first : ℕ → Round → String → List String → Phase → Round
unfolding sweep_at delete_at
sweep_first min r k ks walking = sweep_at min r ks (get_elem? (list_of r.store k) r.position)
sweep_first min r k ks (deleting v) = record r {
  store = delete_at r.store k r.position v;
  phase = relocking;
}
sweep_first min r k ks relocking = record r { todo = ks; position = 0; phase = walking }

unfoldable pub sweep_todo : ℕ → Round → List String → Round
unfolding sweep_first
sweep_todo min r [] = r
sweep_todo min r (k ∷ ks) = sweep_first min r k ks r.phase

unfoldable pub sweep_on : ℕ → Round → Round
unfolding sweep_todo
sweep_on min r = sweep_todo min r r.todo

-- So many steps of the round in a row.
unfoldable pub sweep_for : ℕ → ℕ → Round → Round
sweep_for zero min r = r
sweep_for (suc n) min r = sweep_for n min (sweep_on min r)

abbrev pub is_locked : Phase → Bool
is_locked walking = true
is_locked (deleting v) = false
is_locked relocking = false

-- The round goes on; a call of `Set` comes in while `mu` is free; or the range over the map meets a
-- list that was made meanwhile.
pub data Step (min : ℕ) (r : Round) : Round → Type 0 where
  go : Step min r (sweep_on min r)
  call :
      (v : Stamped)
      → is_locked r.phase ≡ false
      → Step min r (record r { store = (set r.store v).0 })
  meet : (k : String) → Step min r (record r { todo = r.todo ++ k ∷ [] })

pub data Reach (min : ℕ) (r : Round) : Round → Type 0 where
  here : Reach min r r
  next : {t u : Round} → Reach min r t → Step min t u → Reach min r u
