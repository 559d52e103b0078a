-- ===== src/Replication/Latest.antt =====
-- replication/self.go: the latest serials that a peer advertises. The mutex makes each method atomic.
use istio_oidc.Common.{
  ℕ, ◌≤◌, ◌<◌, String, ◌≡◌, ◌↔◌, refl, none, Bool, true, false, [], ◌∷◌, ltb, arith, or_else,
  if◌then◌else◌, ◌==◌, eq_iff, Elem, inl, inr, Bool-cases, ltb→lt, lt→ltb, subst, ◌∙◌,
}
use istio_oidc.Common.Map
use istio_oidc.Common.Map.{GoMap, Distinct, get-put, Lacks, Distinct-put}
use istio_oidc.Session.{SessionStore}

pub record Self : Type 0 where
  pub id : String
  pub ep : String
  pub latest : GoMap ℕ
  pub sess_store : SessionStore

abbrev pub new_self : String → String → SessionStore → Self
new_self id ep store = record { id = id; ep = ep; latest = []; sess_store = store }

-- `s.latest[k]`, 0 for a peer that is not in the map.
abbrev pub latest_of : Self → String → ℕ
latest_of s k = or_else (Map.get k s.latest) 0

unfoldable pub copy_into : GoMap ℕ → GoMap ℕ → GoMap ℕ
copy_into latest [] = latest
copy_into latest ((k, v) ∷ m) = copy_into (Map.put k v latest) m

unfoldable pub copy_latest : Self → GoMap ℕ
unfolding copy_into
copy_latest s = copy_into [] s.latest

unfoldable pub needs_update : Self → GoMap ℕ → Bool
needs_update s [] = false
needs_update s ((k, v) ∷ latest) =
    let rest = needs_update s latest in if ltb (latest_of s k) v then true else rest

unfoldable pub update : Self → String → ℕ → Self
update s id serial =
    if ltb (latest_of s id) serial then record s { latest = Map.put id serial s.latest } else s

-- The advertised serial of the peer is the larger one of the old and the new; those of the other
-- peers and the sessions stay.
pub latest_of-update :
    (s : Self) (id : String) (serial : ℕ) (k : String)
    → latest_of (update s id serial) k ≡ (
        if id == k
        then (if ltb (latest_of s id) serial then serial else latest_of s id)
        else latest_of s k)
unfolding update
latest_of-update s id serial k = ground (arith, get-put id k serial s.latest, eq_iff id k)

pub latest_of-update-le :
    (s : Self) (id : String) (serial : ℕ) (k : String)
    → latest_of s k ≤ latest_of (update s id serial) k
latest_of-update-le s id serial k = ground (arith, latest_of-update s id serial k, eq_iff id k)

pub update-sess_store :
    (s : Self) (id : String) (serial : ℕ) → (update s id serial).sess_store ≡ s.sess_store
unfolding update
update-sess_store s id serial = ground arith

-- A peer has more of some other peer's sessions than this one knows of.
abbrev pub HasNews : Self → GoMap ℕ → Type 0
HasNews s latest = (k : String) × (v : ℕ) × Elem (k, v) latest × (latest_of s k < v)

needs_update_sound : (s : Self) (latest : GoMap ℕ) → needs_update s latest ≡ true → HasNews s latest
unfolding needs_update
needs_update_sound s [] h = cc
needs_update_sound s ((k, v) ∷ latest) h = elim (Bool-cases (ltb (latest_of s k) v)) [
  | inl news ↦ (k, v, inl refl, ltb→lt _ _ news)
  | inr old ↦ let (j, w, m, less) = needs_update_sound s latest (rw old at h) in (j, w, inr m, less)
]

needs_update_complete :
    (s : Self) (latest : GoMap ℕ) (k : String) (v : ℕ)
    → Elem (k, v) latest
    → latest_of s k < v
    → needs_update s latest ≡ true
unfolding needs_update
needs_update_complete s [] k v m h = absurd m
needs_update_complete s ((j, w) ∷ latest) k v (inl e) h =
    ground (arith, e, lt→ltb (latest_of s k) v h)
needs_update_complete s ((j, w) ∷ latest) k v (inr m) h =
    ground (arith, needs_update_complete s latest k v m h)

-- A peer has news exactly if it advertises a serial that is larger than the one known of that peer.
pub needs_update_iff :
    (s : Self) (latest : GoMap ℕ) → (needs_update s latest ≡ true) ↔ HasNews s latest
needs_update_iff s latest =
    (needs_update_sound s latest, λ h. needs_update_complete s latest h.0 h.1 h.2 h.3)

copy_into-Distinct : (acc m : GoMap ℕ) → Distinct acc → Distinct (copy_into acc m)
unfolding copy_into
copy_into-Distinct acc [] d = d
copy_into-Distinct acc ((k, v) ∷ m) d =
    copy_into-Distinct (Map.put k v acc) m (Distinct-put k v acc d)

pub copy_latest-Distinct : (s : Self) → Distinct (copy_latest s)
unfolding copy_latest
copy_latest-Distinct s = copy_into-Distinct [] s.latest tt

get-copy_into-Lacks :
    (k : String) (acc m : GoMap ℕ) → Lacks k m → Map.get k (copy_into acc m) ≡ Map.get k acc
unfolding copy_into
get-copy_into-Lacks k acc [] h = refl
get-copy_into-Lacks k acc ((j, v) ∷ m) h =
    get-copy_into-Lacks k (Map.put j v acc) m h.1 ∙ rw (get-put j k v acc, h.0)

get-copy_into :
    (k : String) (acc m : GoMap ℕ)
    → Distinct m
    → Map.get k acc ≡ none
    → Map.get k (copy_into acc m) ≡ Map.get k m
unfolding copy_into Map.get
get-copy_into k acc [] d e = e
get-copy_into k acc ((j, v) ∷ m) d e = elim (Bool-cases (j == k)) [
  | inl same ↦ rw same (
      get-copy_into-Lacks k (Map.put j v acc) m (subst (λ i. Lacks i m) ((eq_iff j k).0 same) d.0)
      ∙ rw (get-put j k v acc, same))
  | inr other ↦ rw other (get-copy_into k (Map.put j v acc) m d.1 (rw (get-put j k v acc, other) e))
]

pub get-copy_latest :
    (s : Self) (k : String) → Distinct s.latest → Map.get k (copy_latest s) ≡ Map.get k s.latest
unfolding copy_latest
get-copy_latest s k d = get-copy_into k [] s.latest d (unfold Map.get in refl)
