-- ===== src/Replication/Arriving.antt =====
-- Sessions that other peers send one by one (`Client.SetSession` of replication/client.go, with a
-- goroutine for each), in whatever order they reach `Server.SetSession` of replication/server.go.
use istio_oidc.Common.{
  ◌≤◌, String, ◌≡◌, refl, sym, ap, ◌∙◌, subst, inl, inr, List, [], ◌∷◌, ◌++◌, arith, back,
  back-snoc, Option, none, some, Bool, true, false, Bool-cases, ◌==◌, eq_iff, ltb, lt→ltb, Result,
  ok, err, panic, append-nil, append_assoc,
}
use istio_oidc.Session
use istio_oidc.Session.{Stamped, SessionStore, list_of, ensure, push_back, is_unstamped}
use istio_oidc.Session.Setting.{Above-cases}
use istio_oidc.Session.Invariant.{Above, Ordered, list_of-ensure}
use istio_oidc.Session.Foreign.{set-foreign, set-foreign_refused, list_of-pushed, Above-Ordered}
use istio_oidc.Session.Streaming.{of_peer}
use istio_oidc.Replication.Maps.{Timestamps}
use istio_oidc.Replication.Latest.{Self, update, update-sess_store}
use istio_oidc.Replication.Stream.{
  ProtoStamped, to_message, from_message, message_round_trip, set_session,
}
use istio_oidc.Replication.CatchUp.{AreStamped}

-- The session is newer than the last one.
abbrev pub exceeds : Option Stamped → Stamped → Bool
exceeds none v = true
exceeds (some last) v = ltb last.serial v.serial

-- Of the sessions those that are newer than all before them.
abbrev pub newest : Option Stamped → List Stamped → List Stamped
newest last [] = []
newest last (v ∷ vs) = elim (exceeds last v) [
  | true ↦ v ∷ newest (some v) vs
  | false ↦ newest last vs
]

exceeds-Above : (o : Option Stamped) (v : Stamped) → Above o v.serial → exceeds o v ≡ true
exceeds-Above none v a = refl
exceeds-Above (some last) v a = lt→ltb _ _ a

exceeds_below : (last v : Stamped) → v.serial ≤ last.serial → exceeds (some last) v ≡ false
exceeds_below last v h = ground arith

newest_hit :
    (o : Option Stamped) (v : Stamped) (vs : List Stamped)
    → exceeds o v ≡ true
    → newest o (v ∷ vs) ≡ v ∷ newest (some v) vs
newest_hit o v vs e = ground (arith, e)

newest_miss :
    (o : Option Stamped) (v : Stamped) (vs : List Stamped)
    → exceeds o v ≡ false
    → newest o (v ∷ vs) ≡ newest o vs
newest_miss o v vs e = ground (arith, e)

-- Sessions that come in their order are all among them.
pub newest-Ordered :
    (k : String) (l vs : List Stamped) → Ordered k (l ++ vs) → newest (back l) vs ≡ vs
newest-Ordered k l [] o = refl
newest-Ordered k l (v ∷ vs) o =
    newest_hit (back l) v vs (exceeds-Above (back l) v (Above-Ordered k l vs v o))
    ∙ ap (λ r. v ∷ r)
        (ap (λ b. newest b vs) (sym (back-snoc l v))
          ∙ newest-Ordered k (l ++ v ∷ []) vs
              (subst (Ordered k) (sym (append_assoc l (v ∷ []) vs)) o))

-- The server's branch on the answer of its store.
abbrev reply : Self → Stamped → Result Stamped → Self × Result (Unit {0})
reply c v (ok w) = (update c v.peer_id v.serial, ok tt)
reply c v (err e) = (c, err "Error setting session")
reply c v panic = (c, panic)

reply-sess_store :
    (c : Self) (v : Stamped) (a : Result Stamped) → (reply c v a).0.sess_store ≡ c.sess_store
reply-sess_store c v (ok w) = update-sess_store c v.peer_id v.serial
reply-sess_store c v (err e) = refl
reply-sess_store c v panic = refl

of_peer-cons_same :
    (k : String) (v : Stamped) (vs : List Stamped)
    → (v.peer_id == k) ≡ true
    → of_peer k (v ∷ vs) ≡ v ∷ of_peer k vs
of_peer-cons_same k v vs e = ground (arith, e)

of_peer-cons_other :
    (k : String) (v : Stamped) (vs : List Stamped)
    → (v.peer_id == k) ≡ false
    → of_peer k (v ∷ vs) ≡ of_peer k vs
of_peer-cons_other k v vs e = ground (arith, e)

-- What a list gets of the first session and of those behind it.
abbrev gets : SessionStore → String → List Stamped → List Stamped
gets s k vs = list_of s k ++ newest (back (list_of s k)) (of_peer k vs)

refused :
    (s : SessionStore) (v last : Stamped) (vs : List Stamped) (k : String)
    → back (list_of s v.peer_id) ≡ some last
    → v.serial ≤ last.serial
    → gets (ensure s v.peer_id) k vs ≡ gets s k (v ∷ vs)
refused s v last vs k b le =
    ap (λ l. l ++ newest (back l) (of_peer k vs)) (list_of-ensure s v.peer_id k)
    ∙ ap (λ r. list_of s k ++ r)
        (elim (Bool-cases (v.peer_id == k)) [
          | inl same ↦ rw (of_peer-cons_same k v vs same) (
              sym (
                newest_miss (back (list_of s k)) v (of_peer k vs) (
                  subst (λ j. exceeds (back (list_of s j)) v ≡ false) ((eq_iff v.peer_id k).0 same)
                    (rw b (exceeds_below last v le)))))
          | inr other ↦ rw (of_peer-cons_other k v vs other) refl
        ])

accepted :
    (s : SessionStore) (v : Stamped) (vs : List Stamped) (k : String)
    → Above (back (list_of s v.peer_id)) v.serial
    → gets (push_back (ensure s v.peer_id) v) k vs ≡ gets s k (v ∷ vs)
accepted s v vs k a = elim (Bool-cases (v.peer_id == k)) [
  | inl same ↦
      rw (list_of-pushed s v k, same, of_peer-cons_same k v vs same, back-snoc (list_of s k) v)
        (append_assoc (list_of s k) (v ∷ []) (newest (some v) (of_peer k vs))
          ∙ ap (λ r. list_of s k ++ r)
              (sym (
                newest_hit (back (list_of s k)) v (of_peer k vs) (
                  exceeds-Above (back (list_of s k)) v (
                    subst (λ j. Above (back (list_of s j)) v.serial) ((eq_iff v.peer_id k).0 same)
                      a)))))
  | inr other ↦ rw (list_of-pushed s v k, other, of_peer-cons_other k v vs other) refl
]

step :
    (s : SessionStore) (v : Stamped) (vs : List Stamped) (k : String)
    → is_unstamped v ≡ false
    → gets (Session.set s v).0 k vs ≡ gets s k (v ∷ vs)
step s v vs k st = elim (Above-cases (back (list_of s v.peer_id)) v.serial) [
  | inl (last, b, le) ↦ rw (set-foreign_refused s v last st b le) (refused s v last vs k b le)
  | inr a ↦ rw (set-foreign s v st a) (accepted s v vs k a)
]

module _ (ts : Timestamps) where
  -- The state of a peer that is sent these sessions.
  unfoldable pub arrive : List Stamped → Self → Self
  arrive [] c = c
  arrive (v ∷ vs) c = arrive vs (set_session ts c (to_message ts v)).0

  message-sess_store :
      (c : Self) (m : ProtoStamped ts.Timestamp)
      → (set_session ts c m).0.sess_store ≡ (Session.set c.sess_store (from_message ts m)).0
  unfolding set_session
  message-sess_store c m =
      reply-sess_store (record c { sess_store = (Session.set c.sess_store (from_message ts m)).0 })
        (from_message ts m) (Session.set c.sess_store (from_message ts m)).1

  pub set_session-sess_store :
      (c : Self) (v : Stamped)
      → (set_session ts c (to_message ts v)).0.sess_store ≡ (Session.set c.sess_store v).0
  set_session-sess_store c v =
      message-sess_store c (to_message ts v)
      ∙ ap (λ w. (Session.set c.sess_store w).0) (message_round_trip ts v)

  -- Of the sessions of a peer, in whatever order they arrive, a store gets exactly those that are newer
  -- than the last one that it has of the peer by then, behind its list and in the order of their
  -- arrival: one that arrives behind a later one is lost to it.
  pub arrive_lem :
      (vs : List Stamped) (c : Self) (k : String)
      → AreStamped vs
      → list_of (arrive vs c).sess_store k
        ≡ list_of c.sess_store k ++ newest (back (list_of c.sess_store k)) (of_peer k vs)
  unfolding arrive
  arrive_lem [] c k st = sym (append-nil (list_of c.sess_store k))
  arrive_lem (v ∷ vs) c k st =
      let d = (set_session ts c (to_message ts v)).0 in
      arrive_lem vs d k st.1
      ∙ ap (λ l. l ++ newest (back l) (of_peer k vs))
          (ap (λ s. list_of s k) (set_session-sess_store c v))
      ∙ step c.sess_store v vs k st.0

  message-answer :
      (c : Self) (m : ProtoStamped ts.Timestamp) (w : Stamped)
      → (Session.set c.sess_store (from_message ts m)).1 ≡ ok w
      → (set_session ts c m).1 ≡ ok tt
  unfolding set_session
  message-answer c m w e =
      ap
        (λ a.
          (reply (record c { sess_store = (Session.set c.sess_store (from_message ts m)).0 })
            (from_message ts m) a).1)
        e

  -- A session that is newer than the last of its peer is accepted.
  pub set_session-answer :
      (c : Self) (v : Stamped)
      → is_unstamped v ≡ false
      → Above (back (list_of c.sess_store v.peer_id)) v.serial
      → (set_session ts c (to_message ts v)).1 ≡ ok tt
  set_session-answer c v st a = message-answer c (to_message ts v) v (
      ap (λ w. (Session.set c.sess_store w).1) (message_round_trip ts v)
      ∙ ap (λ p. p.1) (set-foreign c.sess_store v st a))
