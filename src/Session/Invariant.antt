-- ===== src/Session/Invariant.antt =====
-- What holds of every session store: each list has its peer's sessions in the order of their
-- serials, and each session that a look-up finds stands in a list.
use istio_oidc.Common.{
  ℕ, ◌≤◌, ◌<◌, String, ◌≡◌, refl, inl, inr, Option, none, some, List, [], ◌∷◌, ◌++◌, arith, back,
  Elem, or_else, if◌then◌else◌, ◌==◌, eq_iff,
}
use istio_oidc.Common.Map
use istio_oidc.Common.Map.{GoMap, Distinct, get-put, Distinct-put}
use istio_oidc.Session.{Session, Stamped, SessionStore, get, list_of, ensure, push_back}

-- A serial that may follow the last element of a list.
abbrev pub Above : Option Stamped → ℕ → Type 0
Above none n = Unit
Above (some v) n = v.serial < n

-- Every serial of the list is greater.
abbrev pub After : ℕ → List Stamped → Type 0
After n [] = Unit
After n (v ∷ l) = (n < v.serial) × After n l

-- Sessions of one peer, with rising serials.
abbrev pub Ordered : String → List Stamped → Type 0
Ordered peer [] = Unit
Ordered peer (v ∷ l) = (v.peer_id ≡ peer) × After v.serial l × Ordered peer l

-- The session stands in the list of its peer, under its own id.
abbrev pub IsBacked : SessionStore → String → Session → Type 0
IsBacked s id sess = (v : Stamped) × (v.session ≡ sess) × (v.id ≡ id) × Elem v (list_of s v.peer_id)

pub record IsWellFormed (s : SessionStore) : Type 0 where
  pub distinct : Distinct s.store
  pub ordered : (peer : String) → Ordered peer (list_of s peer)
  pub backed : (id : String) (sess : Session) → get s id ≡ some sess → IsBacked s id sess

pub After-trans : (m n : ℕ) (l : List Stamped) → m ≤ n → After n l → After m l
After-trans m n [] h a = tt
After-trans m n (v ∷ l) h a = (omega arith, After-trans m n l h a.1)

After-snoc :
    (n : ℕ) (l : List Stamped) (w : Stamped) → After n l → n < w.serial → After n (l ++ w ∷ [])
After-snoc n [] w a h = (h, tt)
After-snoc n (v ∷ l) w a h = (a.0, After-snoc n l w a.1 h)

-- Below the last serial of an ordered list all serials of the list lie.
pub Ordered-le-back :
    (peer : String) (l : List Stamped) (v w : Stamped)
    → Ordered peer l
    → back l ≡ some w
    → Elem v l
    → v.serial ≤ w.serial
Ordered-le-back peer [] v w o b m = absurd m
Ordered-le-back peer (x ∷ []) v w o b (inl e) = ground arith
Ordered-le-back peer (x ∷ []) v w o b (inr m) = absurd m
Ordered-le-back peer (x ∷ (y ∷ l)) v w o b (inr m) = Ordered-le-back peer (y ∷ l) v w o.2 b m
Ordered-le-back peer (x ∷ (y ∷ l)) v w o b (inl e) =
    ground (arith, Ordered-le-back peer (y ∷ l) y w o.2 b (inl refl), o.1.0)

pub Ordered-snoc :
    (peer : String) (l : List Stamped) (w : Stamped)
    → Ordered peer l
    → w.peer_id ≡ peer
    → Above (back l) w.serial
    → Ordered peer (l ++ w ∷ [])
Ordered-snoc peer [] w o e h = (e, tt, tt)
Ordered-snoc peer (v ∷ []) w o e h = (o.0, (h, tt), (e, tt, tt))
Ordered-snoc peer (v ∷ (x ∷ l)) w o e h =
    let rest = Ordered-snoc peer (x ∷ l) w o.2 e h in
    (o.0, (o.1.0, After-trans v.serial x.serial (l ++ w ∷ []) (omega arith) rest.1), rest)

-- An empty list for a peer shows in no list.
pub list_of-ensure : (s : SessionStore) (p k : String) → list_of (ensure s p) k ≡ list_of s k
unfolding list_of ensure
list_of-ensure s p k = ground (arith, get-put p k [] s.store, eq_iff p k)

pub list_of-push_back :
    (s : SessionStore) (v : Stamped) (k : String)
    → list_of (push_back s v) k
      ≡ (if v.peer_id == k then list_of s v.peer_id ++ v ∷ [] else list_of s k)
unfolding list_of push_back
list_of-push_back s v k =
    ground (arith, get-put v.peer_id k (or_else (Map.get v.peer_id s.store) [] ++ v ∷ []) s.store)

pub get-push_back :
    (s : SessionStore) (v : Stamped) (id : String)
    → get (push_back s v) id ≡ (if v.id == id then some v.session else get s id)
unfolding get push_back
get-push_back s v id = get-put v.id id v.session s.found
