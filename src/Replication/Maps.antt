-- ===== src/Replication/Maps.antt =====
-- replication/maps.go: sessions and stamps as protobuf messages and back.
use istio_oidc.Common.{
  ℕ, String, ◌≡◌, refl, ◌∙◌, Option, none, some, List, [], ◌∷◌, arith, ◌==◌, eq_iff, Bool-cases,
  inl, inr,
}
use istio_oidc.Common.Map
use istio_oidc.Common.Map.{GoMap, Distinct, Lacks, get-put, get-Lacks, Distinct-put}
use istio_oidc.Session.{Session, Stamp}

-- `timestamppb` of the protobuf library: a `time.Time` as a message, and back. The library documents
-- that `AsTime` of `New(t)` is the instant `t`.
pub record Timestamps : Type 1 where
  pub Timestamp : Type 0
  pub new : ℕ → Timestamp
  pub as_time : Timestamp → ℕ
  pub as_time-new : (t : ℕ) → as_time (new t) ≡ t

-- `api.Session` and `api.Stamp`; the conversions between `[]byte` and `string` keep the bytes.
pub record ProtoSession (Timestamp : Type 0) : Type 0 where
  pub id : String
  pub refresh_token : String
  pub expiry : Timestamp

pub record ProtoStamp : Type 0 where
  pub peer_id : String
  pub serial : ℕ

module _ (ts : Timestamps) where
  open ts use {Timestamp, new, as_time, as_time-new}

  unfoldable pub session_to_proto : Session → ProtoSession Timestamp
  session_to_proto obj = record {
    id = obj.id;
    refresh_token = obj.refresh_token;
    expiry = new obj.expiry;
  }

  unfoldable pub session_from_proto : ProtoSession Timestamp → Session
  session_from_proto proto = record {
    id = proto.id;
    refresh_token = proto.refresh_token;
    expiry = as_time proto.expiry;
  }

  pub session_round_trip : (obj : Session) → session_from_proto (session_to_proto obj) ≡ obj
  unfolding session_from_proto session_to_proto
  session_round_trip obj = λ i. record obj { expiry = as_time-new obj.expiry i }

unfoldable pub stamp_to_proto : Stamp → ProtoStamp
stamp_to_proto obj = record { peer_id = obj.peer_id; serial = obj.serial }

unfoldable pub stamp_from_proto : ProtoStamp → Stamp
stamp_from_proto proto = record { peer_id = proto.peer_id; serial = proto.serial }

pub stamp_round_trip : (obj : Stamp) → stamp_from_proto (stamp_to_proto obj) ≡ obj
unfolding stamp_from_proto stamp_to_proto
stamp_round_trip obj = refl

unfoldable pub latest_to_proto : GoMap ℕ → List ProtoStamp
latest_to_proto [] = []
latest_to_proto ((k, v) ∷ dict) = record { peer_id = k; serial = v } ∷ latest_to_proto dict

-- The loop that fills the map: of two entries for one peer the later one stays.
unfoldable pub fill : GoMap ℕ → List ProtoStamp → GoMap ℕ
fill dict [] = dict
fill dict (obj ∷ proto) = fill (Map.put obj.peer_id obj.serial dict) proto

unfoldable pub latest_from_proto : List ProtoStamp → GoMap ℕ
unfolding fill
latest_from_proto proto = fill [] proto

fill-Distinct :
    (dict : GoMap ℕ) (proto : List ProtoStamp) → Distinct dict → Distinct (fill dict proto)
unfolding fill
fill-Distinct dict [] d = d
fill-Distinct dict (obj ∷ proto) d =
    fill-Distinct (Map.put obj.peer_id obj.serial dict) proto
      (Distinct-put obj.peer_id obj.serial dict d)

pub latest_from_proto-Distinct : (proto : List ProtoStamp) → Distinct (latest_from_proto proto)
unfolding latest_from_proto
latest_from_proto-Distinct proto = fill-Distinct [] proto tt

abbrev or_in : Option ℕ → Option ℕ → Option ℕ
or_in none o = o
or_in (some v) o = some v

or_in-none : (o : Option ℕ) → or_in o none ≡ o
or_in-none none = refl
or_in-none (some v) = refl

get-fill :
    (k : String) (dict m : GoMap ℕ)
    → Distinct m
    → Map.get k (fill dict (latest_to_proto m)) ≡ or_in (Map.get k m) (Map.get k dict)
unfolding fill latest_to_proto Map.get
get-fill k dict [] d = refl
get-fill k dict ((j, v) ∷ m) d = get-fill k (Map.put j v dict) m d.1 ∙ elim (Bool-cases (j == k)) [
  | inl same ↦ ground (arith, get-put j k v dict, get-Lacks j m d.0, eq_iff j k, same)
  | inr other ↦ rw (get-put j k v dict, other)
]

-- The serials that a peer is told are those that were to be told.
pub latest_round_trip :
    (m : GoMap ℕ) (k : String)
    → Distinct m
    → Map.get k (latest_from_proto (latest_to_proto m)) ≡ Map.get k m
unfolding latest_from_proto Map.get
latest_round_trip m k d = get-fill k [] m d ∙ or_in-none (Map.get k m)
