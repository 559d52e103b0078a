-- ===== src/Replication/Peers.antt =====
-- replication/peers.go and worker.go: the table of connections and its refresh.
use istio_oidc.Common.{
  String, Bool, true, false, List, [], ◌∷◌, none, some, Result, ok, err, panic, or_else,
  if◌then◌else◌,
}
use istio_oidc.Common.Map
use istio_oidc.Common.Map.{GoMap}

-- A connection, as far as the table and the handshake know it.
pub record Connection : Type 0 where
  pub ep : String
  pub live : Bool
  pub dead : Bool

-- The table, and the connections that were disconnected and taken out of it.
pub record Peers : Type 0 where
  pub conns : GoMap Connection
  pub closed : List Connection

abbrev pub new_peers : Peers
new_peers = record { conns = []; closed = [] }

abbrev pub new_connection : String → Connection
new_connection ep = record { ep = ep; live = false; dead = false }

abbrev pub disconnect : Connection → Connection
disconnect conn = record conn { dead = true }

-- `keep[ep] = true` for each endpoint.
unfoldable pub keep_all : List String → GoMap Bool → GoMap Bool
keep_all [] keep = keep
keep_all (ep ∷ eps) keep = keep_all eps (Map.put ep true keep)

-- The loop over the table that takes out what is not kept.
unfoldable pub drop_conns :
    GoMap Bool → GoMap Connection → List Connection → GoMap Connection × List Connection
drop_conns keep [] closed = ([], closed)
drop_conns keep ((ep, conn) ∷ conns) closed =
    let (conns', closed') = drop_conns keep conns closed in
    if or_else (Map.get ep keep) false
    then ((ep, conn) ∷ conns', closed')
    else (conns', disconnect conn ∷ closed')

-- `Peers.refresh`, by what the lookup answers.
unfoldable pub refresh_peers : Result (List String) → Peers → Peers × Result (List String)
unfolding keep_all drop_conns
refresh_peers (ok eps) p =
    let (conns', closed') = drop_conns (keep_all eps []) p.conns p.closed in
    (record { conns = conns'; closed = closed' }, ok eps)
refresh_peers (err e) p = (p, err "failed refreshing endpoints")
refresh_peers panic p = (p, panic)

-- `Peers.getConnection`: the connection of an endpoint, and whether it is new.
unfoldable pub get_connection : String → Peers → Peers × Connection × Bool
get_connection ep p = elim (Map.get ep p.conns) [
  | some conn ↦ (p, conn, false)
  | none ↦ (record p { conns = Map.put ep (new_connection ep) p.conns }, new_connection ep, true)
]

-- The loop of the worker's `refresh` over the endpoints.
unfoldable pub connect_all : List String → Peers → Peers
unfolding get_connection
connect_all [] p = p
connect_all (ep ∷ eps) p = connect_all eps (get_connection ep p).0

-- The worker's `refresh`.
unfoldable pub refresh_round : Result (List String) → Peers → Peers
unfolding refresh_peers connect_all
refresh_round answer p =
    let (p', r) = refresh_peers answer p in elim r [ ok eps ↦ connect_all eps p' | _ ↦ p' ]
