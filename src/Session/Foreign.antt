-- ===== src/Session/Foreign.antt =====
-- `Set` of a session that comes with a stamp, as a peer sends it.
use istio_oidc.Common.{
  ℕ, ◌≤◌, ◌<◌, String, ◌≡◌, ap, ◌∙◌, inl, inr, List, [], ◌∷◌, ◌++◌, arith, back, ok, err, some,
  false, Bool-cases, if◌then◌else◌, ◌==◌, eq_iff, subst, back-snoc,
}
use istio_oidc.Session.{
  Stamped, SessionStore, list_of, is_unstamped, assign, push_back, ensure, set,
}
use istio_oidc.Session.Invariant.{Above, Ordered, list_of-push_back, list_of-ensure}
use istio_oidc.Session.Setting.{set-accepted, set-refused}

pub assign-stamped : (s : SessionStore) (v : Stamped) → is_unstamped v ≡ false → assign s v ≡ (s, v)
unfolding assign
assign-stamped s v h = rw h

-- A session from a peer goes behind the list of its peer.
pub set-foreign :
    (s : SessionStore) (v : Stamped)
    → is_unstamped v ≡ false
    → Above (back (list_of s v.peer_id)) v.serial
    → set s v ≡ (push_back (ensure s v.peer_id) v, ok v)
set-foreign s v h a =
    subst
      (λ p.
        Above (back (list_of s p.1.peer_id)) p.1.serial
        → set s v ≡ (push_back (ensure p.0 p.1.peer_id) p.1, ok p.1))
      (assign-stamped s v h) (set-accepted s v) a

pub set-foreign_refused :
    (s : SessionStore) (v last : Stamped)
    → is_unstamped v ≡ false
    → back (list_of s v.peer_id) ≡ some last
    → v.serial ≤ last.serial
    → set s v ≡ (ensure s v.peer_id, err "out of order session")
set-foreign_refused s v last h b le =
    subst
      (λ p.
        back (list_of s p.1.peer_id) ≡ some last
        → p.1.serial ≤ last.serial
        → set s v ≡ (ensure p.0 p.1.peer_id, err "out of order session"))
      (assign-stamped s v h) (set-refused s v last) b le

pub list_of-pushed :
    (s : SessionStore) (v : Stamped) (k : String)
    → list_of (push_back (ensure s v.peer_id) v) k
      ≡ (if v.peer_id == k then list_of s k ++ v ∷ [] else list_of s k)
list_of-pushed s v k = elim (Bool-cases (v.peer_id == k)) [
  | inl same ↦ rw same (
      list_of-push_back (ensure s v.peer_id) v k
      ∙ rw (same, list_of-ensure s v.peer_id v.peer_id, (eq_iff v.peer_id k).0 same))
  | inr other ↦
      rw other
        (list_of-push_back (ensure s v.peer_id) v k ∙ rw (other, list_of-ensure s v.peer_id k))
]

-- In an ordered list each serial is above those before it.
pub Above-Ordered :
    (k : String) (l r : List Stamped) (v : Stamped)
    → Ordered k (l ++ (v ∷ r))
    → Above (back l) v.serial
Above-Ordered k [] r v o = tt
Above-Ordered k (x ∷ []) r v o = o.1.0
Above-Ordered k (x ∷ (y ∷ l)) r v o = Above-Ordered k (y ∷ l) r v o.2

-- Some session of the peer is as new as this serial.
abbrev pub IsKnown : SessionStore → String → ℕ → Type 0
IsKnown s k n = (last : Stamped) × (back (list_of s k) ≡ some last) × (n ≤ last.serial)

-- What is known stays known when a session is pushed.
pub IsKnown-pushed :
    (s : SessionStore) (v : Stamped) (k : String) (n : ℕ)
    → Above (back (list_of s v.peer_id)) v.serial
    → IsKnown s k n
    → IsKnown (push_back (ensure s v.peer_id) v) k n
IsKnown-pushed s v k n a (last, b, h) = elim (Bool-cases (v.peer_id == k)) [
  | inl same ↦
      let less : last.serial < v.serial =
        subst (λ o. Above o v.serial)
          (ap (λ j. back (list_of s j)) ((eq_iff v.peer_id k).0 same) ∙ b) a in
      (v, rw (list_of-pushed s v k, same) (back-snoc (list_of s k) v), omega arith)
  | inr other ↦ (last, rw (list_of-pushed s v k, other) b, h)
]
