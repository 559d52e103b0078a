-- ===== src/Session/Setting.antt =====
-- `Set` of the session store: what it answers and what it leaves, on every branch.
use istio_oidc.Common.{
  ℕ, ◌≤◌, String, ◌≡◌, refl, sym, ap, ◌⊎◌, inl, inr, Option, none, some, [], ◌∷◌, ◌++◌, arith, back,
  ok, err, Bool-cases, if◌then◌else◌, ◌==◌, leb, leb→le, leb-false→lt, lt→leb-false, subst, ◌∙◌,
}
use istio_oidc.Session.{Stamped, SessionStore, get, list_of, assign, ensure, push_back, admit, set}
use istio_oidc.Session.Invariant.{Above, list_of-ensure, list_of-push_back, get-push_back}

-- The session that `set` tries to store: with this store's stamp, if it came without one.
abbrev pub stamped : SessionStore → Stamped → Stamped
stamped s v = (assign s v).1

-- What a refused `set` answers; the sessions stay as they were.
pub record IsRefused (s : SessionStore) (v : Stamped) : Type 0 where
  pub answer : (set s v).1 ≡ err "out of order session"
  pub gets : (id : String) → get (set s v).0 id ≡ get s id
  pub lists : (k : String) → list_of (set s v).0 k ≡ list_of s k

-- An accepted session is found by its id and stands last in the list of its peer.
pub record IsAccepted (s : SessionStore) (v : Stamped) : Type 0 where
  pub answer : (set s v).1 ≡ ok (stamped s v)
  pub gets :
      (id : String)
      → get (set s v).0 id ≡ (if (stamped s v).id == id then some v.session else get s id)
  pub lists :
      (k : String)
      → list_of (set s v).0 k ≡ (
          if (stamped s v).peer_id == k
          then list_of s (stamped s v).peer_id ++ stamped s v ∷ []
          else list_of s k)

list_of-assign :
    (s : SessionStore) (v : Stamped) (k : String) → list_of (assign s v).0 k ≡ list_of s k
unfolding list_of assign
list_of-assign s v k = ground arith

get-assign : (s : SessionStore) (v : Stamped) (id : String) → get (assign s v).0 id ≡ get s id
unfolding get assign
get-assign s v id = ground arith

pub session-assign : (s : SessionStore) (v : Stamped) → (stamped s v).session ≡ v.session
unfolding assign
session-assign s v = ground arith

get-ensure : (s : SessionStore) (p id : String) → get (ensure s p) id ≡ get s id
unfolding get ensure
get-ensure s p id = ground arith

abbrev pub prepared : SessionStore → Stamped → SessionStore
prepared s v = ensure (assign s v).0 (stamped s v).peer_id

pub list_of-prepared :
    (s : SessionStore) (v : Stamped) (k : String) → list_of (prepared s v) k ≡ list_of s k
list_of-prepared s v k = list_of-ensure _ _ k ∙ list_of-assign s v k

pub get-prepared : (s : SessionStore) (v : Stamped) (id : String) → get (prepared s v) id ≡ get s id
get-prepared s v id = get-ensure _ _ id ∙ get-assign s v id

admit_refuses :
    (t : SessionStore) (w : Stamped) (o : Option Stamped) (last : Stamped)
    → o ≡ some last
    → w.serial ≤ last.serial
    → admit t w o ≡ (t, err "out of order session")
unfolding admit
admit_refuses t w o last b h = ground arith

admit_accepts :
    (t : SessionStore) (w : Stamped) (o : Option Stamped)
    → Above o w.serial
    → admit t w o ≡ (push_back t w, ok w)
unfolding admit
admit_accepts t w none h = refl
admit_accepts t w (some last) h = rw (lt→leb-false _ _ h)

-- `set` leaves one of two stores: the prepared one, or that with the session pushed.
pub set-refused :
    (s : SessionStore) (v last : Stamped)
    → back (list_of s (stamped s v).peer_id) ≡ some last
    → (stamped s v).serial ≤ last.serial
    → set s v ≡ (prepared s v, err "out of order session")
unfolding set
set-refused s v last b h =
    admit_refuses _ _ _ last (ap back (list_of-prepared s v (stamped s v).peer_id) ∙ b) h

pub set-accepted :
    (s : SessionStore) (v : Stamped)
    → Above (back (list_of s (stamped s v).peer_id)) (stamped s v).serial
    → set s v ≡ (push_back (prepared s v) (stamped s v), ok (stamped s v))
unfolding set
set-accepted s v h = admit_accepts _ _ _ (
    subst (λ l. Above (back l) (stamped s v).serial)
      (sym (list_of-prepared s v (stamped s v).peer_id)) h)

set-IsRefused :
    (s : SessionStore) (v last : Stamped)
    → back (list_of s (stamped s v).peer_id) ≡ some last
    → (stamped s v).serial ≤ last.serial
    → IsRefused s v
set-IsRefused s v last b h =
    let e = set-refused s v last b h in
    record {
      answer = rw e;
      gets = λ id. rw e (get-prepared s v id);
      lists = λ k. rw e (list_of-prepared s v k);
    }

set-IsAccepted :
    (s : SessionStore) (v : Stamped)
    → Above (back (list_of s (stamped s v).peer_id)) (stamped s v).serial
    → IsAccepted s v
set-IsAccepted s v h =
    let e = set-accepted s v h in
    record {
      answer = rw e;
      gets = λ id. rw (e, get-push_back, get-prepared, session-assign);
      lists = λ k. rw (e, list_of-push_back, list_of-prepared, list_of-prepared);
    }

pub Above-cases :
    (o : Option Stamped) (n : ℕ)
    → ((last : Stamped) × (o ≡ some last) × (n ≤ last.serial)) ⊎ Above o n
Above-cases none n = inr tt
Above-cases (some last) n = elim (Bool-cases (leb n last.serial)) [
  | inl e ↦ inl (last, refl, leb→le _ _ e)
  | inr e ↦ inr (leb-false→lt _ _ e)
]

-- `Set` refuses a session exactly when its serial is not above that of the last session of its peer,
-- and then changes no session. Otherwise it answers the session with its stamp, which is from then
-- on found by its id and last in its peer's list, and changes nothing else.
pub set_outcome :
    (s : SessionStore) (v : Stamped)
    → ((last : Stamped) × (back (list_of s (stamped s v).peer_id) ≡ some last)
        × ((stamped s v).serial ≤ last.serial)
        × IsRefused s v)
      ⊎ (Above (back (list_of s (stamped s v).peer_id)) (stamped s v).serial × IsAccepted s v)
set_outcome s v = elim (Above-cases (back (list_of s (stamped s v).peer_id)) (stamped s v).serial) [
  | inl (last, b, h) ↦ inl (last, b, h, set-IsRefused s v last b h)
  | inr h ↦ inr (h, set-IsAccepted s v h)
]

-- What holds of the prepared store, and of it with the session pushed, holds after `set`.
pub set_cases {ℓ} :
    (P : SessionStore → Type ℓ) (s : SessionStore) (v : Stamped)
    → P (prepared s v)
    → (Above (back (list_of s (stamped s v).peer_id)) (stamped s v).serial
        → P (push_back (prepared s v) (stamped s v)))
    → P (set s v).0
set_cases P s v kept pushed =
    elim (Above-cases (back (list_of s (stamped s v).peer_id)) (stamped s v).serial) [
      | inl (last, b, h) ↦ rw (set-refused s v last b h) kept
      | inr h ↦ rw (set-accepted s v h) (pushed h)
    ]
