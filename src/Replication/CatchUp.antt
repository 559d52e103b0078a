-- ===== src/Replication/CatchUp.antt =====
-- A peer catches up with another: the server's stream meets the client's store.
use istio_oidc.Common.{
  ℕ, ◌≤◌, ◌<◌, String, ◌≡◌, refl, sym, ◌∙◌, inl, inr, List, [], ◌∷◌, ◌++◌, arith, back, Elem, All,
  true, false, Bool-cases, if◌then◌else◌, ◌==◌, eq_refl, subst, append_assoc, append-nil,
  select-Elem, Elem-select, leb, le→leb,
}
use istio_oidc.Common.Map.{GoMap}
use istio_oidc.Session
use istio_oidc.Session.{Stamped, SessionStore, list_of, is_unstamped, since, push_back, ensure}
use istio_oidc.Session.Invariant.{Above, Ordered, IsWellFormed}
use istio_oidc.Session.Setting.{Above-cases}
use istio_oidc.Session.Foreign.{
  set-foreign, set-foreign_refused, list_of-pushed, Above-Ordered, IsKnown, IsKnown-pushed,
}
use istio_oidc.Session.Streaming.{of_peer, wanted, of_peer-stream}
use istio_oidc.Replication.Stream.{receive}

-- Every session of the list has a stamp.
abbrev pub AreStamped : List Stamped → Type 0
AreStamped = All (λ v. is_unstamped v ≡ false)

-- Behind the client's own list of each peer the peer's sessions of the stream come in order.
abbrev pub Fits : SessionStore → List Stamped → Type 0
Fits s vs = (k : String) → Ordered k (list_of s k ++ of_peer k vs)

of_peer-cons :
    (k : String) (v : Stamped) (vs : List Stamped)
    → of_peer k (v ∷ vs) ≡ (if v.peer_id == k then v ∷ of_peer k vs else of_peer k vs)
of_peer-cons k v vs = ground arith

-- What a client has of a peer after one session, and what is still to come.
step_lem :
    (s : SessionStore) (v : Stamped) (vs : List Stamped) (k : String)
    → list_of (push_back (ensure s v.peer_id) v) k ++ of_peer k vs
      ≡ list_of s k ++ of_peer k (v ∷ vs)
step_lem s v vs k = elim (Bool-cases (v.peer_id == k)) [
  | inl same ↦
      rw (list_of-pushed s v k, of_peer-cons k v vs, same)
        (append_assoc (list_of s k) (v ∷ []) (of_peer k vs))
  | inr other ↦ rw (list_of-pushed s v k, of_peer-cons k v vs, other)
]

Fits-Above :
    (s : SessionStore) (v : Stamped) (vs : List Stamped)
    → Fits s (v ∷ vs)
    → Above (back (list_of s v.peer_id)) v.serial
Fits-Above s v vs f =
    Above-Ordered v.peer_id (list_of s v.peer_id) (of_peer v.peer_id vs) v
      (rw (of_peer-cons v.peer_id v vs, eq_refl v.peer_id) at (f v.peer_id))

-- A client whose lists the stream fits behind takes every session.
pub receive-Fits :
    (s : SessionStore) (vs : List Stamped)
    → AreStamped vs
    → Fits s vs
    → ((receive s vs).1 ≡ true)
      × ((k : String) → list_of (receive s vs).0 k ≡ list_of s k ++ of_peer k vs)
unfolding receive
receive-Fits s [] st f = (refl, λ k. sym (append-nil (list_of s k)))
receive-Fits s (v ∷ vs) st f =
    let t = push_back (ensure s v.peer_id) v in
    let rest = receive-Fits t vs st.1 (λ k. subst (Ordered k) (sym (step_lem s v vs k)) (f k)) in
    rw (set-foreign s v st.0 (Fits-Above s v vs f)) (rest.0, λ k. rest.1 k ∙ step_lem s v vs k)

not_known :
    (s : SessionStore) (w v : Stamped)
    → v ≡ w
    → IsKnown s v.peer_id v.serial
    → ¬ Above (back (list_of s w.peer_id)) w.serial
not_known s w v e (last, b, h) a =
    let less : last.serial < v.serial =
      subst (λ o. Above o v.serial) b
        (subst (λ (x : Stamped). Above (back (list_of s x.peer_id)) x.serial) (sym e) a) in
    absurd (omega arith)

later :
    (s : SessionStore) (w v : Stamped) (vs : List Stamped)
    → IsKnown s v.peer_id v.serial
    → Above (back (list_of s w.peer_id)) w.serial
    → Elem v (w ∷ vs)
    → Elem v vs
later s w v vs known a (inl e) = absurd (not_known s w v e known a)
later s w v vs known a (inr m) = m

-- A stream with a session that the client has already, or has a later one of the same peer of, ends
-- in a refusal.
pub receive_stale :
    (s : SessionStore) (vs : List Stamped) (v : Stamped)
    → AreStamped vs
    → Elem v vs
    → IsKnown s v.peer_id v.serial
    → (receive s vs).1 ≡ false
unfolding receive
receive_stale s [] v st m known = absurd m
receive_stale s (w ∷ vs) v st m known = elim (Above-cases (back (list_of s w.peer_id)) w.serial) [
  | inl (last, b, h) ↦ rw (set-foreign_refused s w last st.0 b h)
  | inr a ↦ rw (set-foreign s w st.0 a) (
      receive_stale (push_back (ensure s w.peer_id) w) vs v st.1 (later s w v vs known a m)
        (IsKnown-pushed s w v.peer_id v.serial a known))
]

-- Where no session is of the nameless peer, all have stamps.
of_peer-AreStamped : (vs : List Stamped) → of_peer "" vs ≡ [] → AreStamped vs
unfolding is_unstamped
of_peer-AreStamped [] e = tt
of_peer-AreStamped (v ∷ vs) e = elim (Bool-cases (v.peer_id == "")) [
  | inl same ↦ absurd (cc (rw (of_peer-cons "" v vs, same) at e))
  | inr other ↦ (rw other, of_peer-AreStamped vs (rw (of_peer-cons "" v vs, other) at e))
]

pub stream-AreStamped :
    (s : SessionStore) (from : GoMap ℕ)
    → IsWellFormed s
    → list_of s "" ≡ []
    → AreStamped (Session.stream s from)
stream-AreStamped s from h e =
    of_peer-AreStamped (Session.stream s from)
      (of_peer-stream s from "" h ∙ rw e (unfold since in refl))

pub stream-Elem :
    (s : SessionStore) (from : GoMap ℕ) (k : String) (v : Stamped)
    → IsWellFormed s
    → Elem v (list_of s k)
    → wanted from k ≤ v.serial
    → Elem v (Session.stream s from)
stream-Elem s from k v h m le =
    (select-Elem (λ w. w.peer_id == k) v (Session.stream s from)
      (subst (Elem v) (sym (of_peer-stream s from k h)) (
        unfold since in
        Elem-select (λ w. leb (wanted from k) w.serial) v (list_of s k) m (le→leb _ _ le)))).0
