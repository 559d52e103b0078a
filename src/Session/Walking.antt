-- ===== src/Session/Walking.antt =====
-- `Stream` of state/session/store.go and its goroutine, which walks the lists of the store while calls of
-- `Set` append to them. No round of cleaning deletes from a list meanwhile, as the goroutine holds
-- `delMu`; until it has taken it, any calls may change the store.
pub mod Names
mod Ending
pub mod Places
pub mod Sending
mod Examples
use istio_oidc.Common.{
  ℕ, zero, suc, ◌+◌, String, List, [], ◌∷◌, ◌++◌, Option, none, some, ◌≡◌, map, get_elem?,
}
use istio_oidc.Common.Map.{GoMap}
use istio_oidc.Session.{Stamped, SessionStore, list_of, since, set}
use istio_oidc.Session.Streaming.{wanted}

-- The goroutine: the peers whose lists are left, the first of them with the number of its sessions
-- that the loop has passed, and what it has sent. A list is known by its peer, as the store never
-- replaces one.
pub record Walk : Type 0 where
  pub store : SessionStore
  pub todo : List String
  pub position : ℕ
  pub sent : List Stamped

-- The copy of the map that `Stream` makes: the peers that have a list.
abbrev pub copied : SessionStore → List String
copied s = map (λ e. e.0) s.store

-- The goroutine when it has taken `delMu`, with the copy and the store as it is then.
unfoldable pub start_walk : List String → SessionStore → Walk
start_walk peers s = record { store = s; todo = peers; position = 0; sent = [] }

-- A round of the loop over one list, or its end: `e` is the session there, or nil.
unfoldable pub walk_at : GoMap ℕ → Walk → String → List String → Option Stamped → Walk
unfolding since
walk_at from w k ks (some v) = record w {
  position = w.position + 1;
  sent = w.sent ++ since (wanted from k) (v ∷ []);
}
walk_at from w k ks none = record w { todo = ks; position = 0 }

unfoldable pub walk_on : GoMap ℕ → Walk → Walk
unfolding walk_at
walk_on from w = elim (w.todo) [
  | [] ↦ w
  | k ∷ ks ↦ walk_at from w k ks (get_elem? (list_of w.store k) w.position)
]

-- So many steps of the goroutine in a row.
unfoldable pub walk_for : ℕ → GoMap ℕ → Walk → Walk
walk_for zero from w = w
walk_for (suc n) from w = walk_for n from (walk_on from w)

-- The goroutine goes on, or a call of `Set` comes between.
pub data Step (from : GoMap ℕ) (w : Walk) : Walk → Type 0 where
  go : Step from w (walk_on from w)
  call : (v : Stamped) → Step from w (record w { store = (set w.store v).0 })

pub data Reach (from : GoMap ℕ) (w : Walk) : Walk → Type 0 where
  here : Reach from w w
  next : {t u : Walk} → Reach from w t → Step from t u → Reach from w u
