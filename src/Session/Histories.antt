-- ===== src/Session/Histories.antt =====
-- The session store after any calls.
use istio_oidc.Common.{
  ℕ, ◌<◌, ◌^◌, String, List, [], ◌∷◌, ◌≡◌, refl, none, arith, Bool-cases, inl, inr, back, Option,
  some,
}
use istio_oidc.Common.Map
use istio_oidc.Session.{
  Stamped, SessionStore, new_session_store, get, list_of, is_unstamped, assign, ensure, push_back,
  admit, set, clean,
}
use istio_oidc.Session.Invariant.{IsWellFormed}
use istio_oidc.Session.Keeping.{set-IsWellFormed}
use istio_oidc.Session.Cleaning.{clean-IsWellFormed}

-- A call that changes the store: a session to set, or a round of cleaning.
pub data Call : Type 0 where
  set_session : Stamped → Call
  clean_round : ℕ → Call

unfoldable pub perform : List Call → SessionStore → SessionStore
perform [] s = s
perform (set_session v ∷ calls) s = perform calls (set s v).0
perform (clean_round min ∷ calls) s = perform calls (clean s min)

new-IsWellFormed : (id : String) → IsWellFormed (new_session_store id)
unfolding list_of get Map.get
new-IsWellFormed id = record { distinct = tt; ordered = λ k. tt; backed = λ i sess e. cc }

ensure-curr : (s : SessionStore) (peer : String) → (ensure s peer).curr ≡ s.curr
unfolding ensure
ensure-curr s peer = ground arith

admit-curr : (s : SessionStore) (v : Stamped) (o : Option Stamped) → (admit s v o).0.curr ≡ s.curr
unfolding admit push_back
admit-curr s v none = refl
admit-curr s v (some last) = ground arith

assign-curr : (s : SessionStore) (v : Stamped) → s.curr < 2 ^ 64 → (assign s v).0.curr < 2 ^ 64
unfolding assign
assign-curr s v h = elim (Bool-cases (is_unstamped v)) [
  | inl e ↦ rw e (omega arith)
  | inr e ↦ rw e h
]

set-curr : (s : SessionStore) (v : Stamped) → s.curr < 2 ^ 64 → (set s v).0.curr < 2 ^ 64
unfolding set
set-curr s v h =
    let (s', v') = assign s v in
    let t = ensure s' v'.peer_id in
    omega (
      arith,
      admit-curr t v' (back (list_of t v'.peer_id)),
      ensure-curr s' v'.peer_id,
      assign-curr s v h,
    )

pub perform-IsWellFormed :
    (calls : List Call) (s : SessionStore) → IsWellFormed s → IsWellFormed (perform calls s)
unfolding perform
perform-IsWellFormed [] s h = h
perform-IsWellFormed (set_session v ∷ calls) s h =
    perform-IsWellFormed calls (set s v).0 (set-IsWellFormed s v h)
perform-IsWellFormed (clean_round min ∷ calls) s h =
    perform-IsWellFormed calls (clean s min) (clean-IsWellFormed s min h)

perform-curr :
    (calls : List Call) (s : SessionStore) → s.curr < 2 ^ 64 → (perform calls s).curr < 2 ^ 64
unfolding perform
perform-curr [] s b = b
perform-curr (set_session v ∷ calls) s b = perform-curr calls (set s v).0 (set-curr s v b)
perform-curr (clean_round min ∷ calls) s b = perform-curr calls (clean s min) (unfold clean in b)

-- A new store is well formed after any calls of `Set` and rounds of cleaning, whatever sessions it is
-- given: each peer has one list, with the peer's sessions in the order of their serials, and every
-- session that is found by its id is in a list. The counter stays in its 64 bits.
pub history-IsWellFormed :
    (id : String) (calls : List Call)
    → IsWellFormed (perform calls (new_session_store id))
      × ((perform calls (new_session_store id)).curr < 2 ^ 64)
history-IsWellFormed id calls = (
  perform-IsWellFormed calls (new_session_store id) (new-IsWellFormed id),
  perform-curr calls (new_session_store id) (omega arith),
)
