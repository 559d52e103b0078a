-- ===== src/Replication/Examples.antt =====
-- Exchanges between two peers, and the theorems about them at concrete peers.
use istio_oidc.Common.{
  List, ◌++◌, none, ℕ, String, ◌≡◌, refl, inl, inr, true, false, [], ◌∷◌, arith, back, Elem, none,
  ok, ◌≤◌,
}
use istio_oidc.Common.Map
use istio_oidc.Session.Streaming.{of_peer}
use istio_oidc.Replication.CatchUp.{AreStamped}
use istio_oidc.Replication.Arriving.{newest, arrive, arrive_lem}
use istio_oidc.Session.{is_unstamped, Stamped, list_of}
use istio_oidc.Session.Examples.{alice, bob, fresh, three, from_self, three-IsWellFormed}
use istio_oidc.Replication.Maps.{Timestamps}
use istio_oidc.Replication.Latest.{Self, new_self, latest_of}
use istio_oidc.Replication.Lookup.{Settings, srv_not_found, lookup_endpoints}
use istio_oidc.Replication.Retrying.{attempts, catch_up_once}
use istio_oidc.Replication.Handshaking.{catch_up}
use istio_oidc.Replication.Exchange.{IsServing, IsFresh, exchange, first_exchange}

-- Timestamps that are numbers.
abbrev plain : Timestamps
plain = record { Timestamp = ℕ; new = λ t. t; as_time = λ t. t; as_time-new = λ t. refl }

abbrev server : Self
server = new_self "self" "10.0.0.1:8080" three

abbrev client : Self
client = new_self "other" "10.0.0.2:8080" (record fresh { self_id = "other" })

server-IsServing : IsServing server
unfolding list_of Map.get
server-IsServing = record { store = three-IsWellFormed; named = refl }

client-IsFresh : IsFresh client
unfolding list_of Map.get
client-IsFresh = record { distinct = tt; unknown = λ k. refl; empty = λ k. refl }

bob-served : Elem (from_self 2 bob) (list_of server.sess_store "self")
unfolding list_of Map.get
bob-served = inr (inl refl)

first_exchange_example :
    ((exchange plain server client).1 ≡ true)
    × ((k : String)
        → list_of (exchange plain server client).0.sess_store k ≡ list_of server.sess_store k)
first_exchange_example = first_exchange plain server client server-IsServing client-IsFresh

-- The server once it advertises its sessions.
abbrev telling : Self
telling = record server { latest = ("self", 3) ∷ [] }

telling-IsServing : IsServing telling
unfolding list_of Map.get
telling-IsServing = record { store = three-IsWellFormed; named = refl }

telling_latest : latest_of telling "self" ≡ 3
unfolding Map.get
telling_latest = refl

abbrev static_pair : Settings
static_pair = record {
  mode = "static";
  advertise_address = "10.0.0.1:8080";
  static_peers = "10.0.0.1:8080" ∷ "10.0.0.2:8080" ∷ [];
  domain = "";
  lookup_srv = srv_not_found;
  lookup_ip = λ host. none;
  endpoint = λ ip port. ip;
}

static_pair_found : lookup_endpoints static_pair ≡ ok ("10.0.0.2:8080" ∷ [])
unfolding lookup_endpoints
static_pair_found = refl

bob-told : Elem (from_self 2 bob) (list_of telling.sess_store "self")
unfolding list_of Map.get
bob-told = inr (inl refl)

-- The client once a session of the server has been told to it.
abbrev informed : Self
informed = record client { latest = ("self", 4) ∷ [] }

informed_knows : (p : String) → latest_of telling p ≤ latest_of informed p
unfolding Map.get
informed_knows p = ground arith

catch_up_once_example :
    ((catch_up plain telling client).1 ≡ true)
    × ((catch_up plain telling (attempts plain 4 telling client)).1 ≡ false)
    × ((p : String)
        → list_of (attempts plain 4 telling client).sess_store p ≡ list_of telling.sess_store p)
    × (catch_up plain telling informed ≡ (informed, true))
catch_up_once_example =
    catch_up_once plain 3 telling client informed "self" "self" (from_self 2 bob) telling-IsServing
      client-IsFresh (tt, tt) (omega (arith, telling_latest)) bob-told informed_knows

-- Two logins of one peer whose sessions arrive in the other order: the first is lost.
abbrev swapped : List Stamped
swapped = from_self 2 bob ∷ from_self 1 alice ∷ []

first_lost : newest none (of_peer "self" swapped) ≡ from_self 2 bob ∷ []
first_lost = refl

swapped-AreStamped : AreStamped swapped
unfolding is_unstamped
swapped-AreStamped = (refl, (refl, tt))

arrive_lem_example :
    list_of (arrive plain swapped client).sess_store "self"
    ≡ list_of client.sess_store "self"
      ++ newest (back (list_of client.sess_store "self")) (of_peer "self" swapped)
arrive_lem_example = arrive_lem plain swapped client "self" swapped-AreStamped
