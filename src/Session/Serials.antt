-- ===== src/Session/Serials.antt =====
-- The serials that the store gives to its own sessions.
use istio_oidc.Common.{
  ℕ, ◌+◌, ◌%◌, ◌^◌, ◌<◌, String, ◌≡◌, refl, sym, ap, ◌∙◌, List, [], ◌∷◌, ◌++◌, arith, back,
  back-snoc, length, append_assoc, append-nil, eq_refl, ok, some, subst,
}
use istio_oidc.Session.{
  Session, Stamped, SessionStore, get, list_of, is_unstamped, assign, push_back, ensure, set,
}
use istio_oidc.Session.Invariant.{Above, get-push_back, list_of-push_back, list_of-ensure}
use istio_oidc.Session.Setting.{set-accepted}

-- A session as `setToken` hands it over: with the zero stamp.
abbrev pub unstamped : Session → Stamped
unstamped sess = record { session = sess; stamp = record { peer_id = ""; serial = 0 } }

-- The session with this store's next serial.
abbrev pub numbered : SessionStore → Session → Stamped
numbered s sess = record {
  session = sess;
  stamp = record { peer_id = s.self_id; serial = s.curr + 1 };
}

-- The counter has reached the serials of the store's own list.
abbrev pub IsCounted : SessionStore → Type 0
IsCounted s = Above (back (list_of s s.self_id)) (s.curr + 1)

assign-unstamped :
    (s : SessionStore) (sess : Session)
    → s.curr + 1 < 2 ^ 64
    → assign s (unstamped sess) ≡ (record s { curr = s.curr + 1 }, numbered s sess)
unfolding assign is_unstamped
assign-unstamped s sess h = let small : (s.curr + 1) % 2 ^ 64 ≡ s.curr + 1 = omega arith in rw small

-- What a `set` of an own session leaves.
pub record IsNext (s t : SessionStore) (sess : Session) : Type 0 where
  pub self : t.self_id ≡ s.self_id
  pub curr : t.curr ≡ s.curr + 1
  pub list : list_of t s.self_id ≡ list_of s s.self_id ++ numbered s sess ∷ []

set-numbered :
    (s : SessionStore) (sess : Session)
    → s.curr + 1 < 2 ^ 64
    → IsCounted s
    → set s (unstamped sess) ≡ (
      push_back (ensure (record s { curr = s.curr + 1 }) s.self_id) (numbered s sess),
      ok (numbered s sess),
    )
set-numbered s sess room counted =
    let e = assign-unstamped s sess room in
    subst
      (λ p.
        Above (back (list_of s p.1.peer_id)) p.1.serial
        → set s (unstamped sess) ≡ (push_back (ensure p.0 p.1.peer_id) p.1, ok p.1))
      e (set-accepted s (unstamped sess)) counted

fields-pushed :
    (t : SessionStore) (p : String) (v : Stamped)
    → ((push_back (ensure t p) v).self_id ≡ t.self_id) × ((push_back (ensure t p) v).curr ≡ t.curr)
unfolding push_back ensure
fields-pushed t p v = ground arith

set-IsNext :
    (s : SessionStore) (sess : Session)
    → s.curr + 1 < 2 ^ 64
    → IsCounted s
    → IsNext s (set s (unstamped sess)).0 sess
set-IsNext s sess room counted =
    rw (set-numbered s sess room counted)
      (record { self = (fields-pushed t p v).0; curr = (fields-pushed t p v).1; list = list })
  where
    t : SessionStore
    t = record s { curr = s.curr + 1 }

    p : String
    p = s.self_id

    v : Stamped
    v = numbered s sess

    list : list_of (push_back (ensure t p) v) p ≡ list_of s p ++ v ∷ []
    list =
        list_of-push_back (ensure t p) v p
        ∙ rw (eq_refl p, list_of-ensure t p p) (unfold list_of in refl)

IsNext-IsCounted : (s t : SessionStore) (sess : Session) → IsNext s t sess → IsCounted t
unfolding list_of
IsNext-IsCounted s t sess h =
    rw (h.self, h.list, back-snoc (list_of s s.self_id) (numbered s sess), h.curr) (omega arith)

-- `set` for one own session after another.
unfoldable pub set_all : SessionStore → List Session → SessionStore
set_all s [] = s
set_all s (sess ∷ rest) = set_all (set s (unstamped sess)).0 rest

-- Sessions with consecutive serials, from the one given on.
pub numbered_from : String → ℕ → List Session → List Stamped
numbered_from peer n [] = []
numbered_from peer n (sess ∷ rest) =
    record { session = sess; stamp = record { peer_id = peer; serial = n } }
    ∷ numbered_from peer (n + 1) rest

-- A store whose counter has reached its own list, and whose counter does not overflow its uint64,
-- accepts every session of its own, and numbers them without a gap from the counter on.
pub set_all-numbered :
    (s : SessionStore) (l : List Session)
    → s.curr + length l < 2 ^ 64
    → IsCounted s
    → list_of (set_all s l) s.self_id
      ≡ list_of s s.self_id ++ numbered_from s.self_id (s.curr + 1) l
unfolding set_all numbered_from
set_all-numbered s [] room counted = sym (append-nil _)
set_all-numbered s (sess ∷ rest) room counted =
    let t = (set s (unstamped sess)).0 in
    let next = set-IsNext s sess (omega arith) counted in
    let ih = set_all-numbered t rest (omega (arith, next.curr)) (IsNext-IsCounted s t sess next) in
    let at_self =
      subst (λ p. list_of (set_all t rest) p ≡ list_of t p ++ numbered_from p (t.curr + 1) rest)
        next.self ih in
    let at_curr =
      subst
        (λ n.
          list_of (set_all t rest) s.self_id
          ≡ list_of t s.self_id ++ numbered_from s.self_id (n + 1) rest)
        next.curr at_self in
    at_curr
    ∙ ap (λ m. m ++ numbered_from s.self_id (s.curr + 1 + 1) rest) next.list
    ∙ append_assoc (list_of s s.self_id) (numbered s sess ∷ []) _

-- An own session is accepted: the store answers it with the next serial, and finds it by its id.
pub set-own :
    (s : SessionStore) (sess : Session)
    → s.curr + 1 < 2 ^ 64
    → IsCounted s
    → ((set s (unstamped sess)).1 ≡ ok (numbered s sess))
      × (get (set s (unstamped sess)).0 sess.id ≡ some sess)
set-own s sess room counted =
    rw (set-numbered s sess room counted, get-push_back, eq_refl sess.id) (refl, refl)
