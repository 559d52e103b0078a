-- ===== src/Replication/Refreshing.antt =====
-- What a refresh leaves of the table of connections.
use istio_oidc.Common.{
  String, Bool, true, false, List, [], ◌∷◌, none, some, ok, err, or_else, if◌then◌else◌, ◌==◌, ◌≡◌,
  refl, arith, eq_iff,
}
use istio_oidc.Common.Map
use istio_oidc.Common.Map.{GoMap, get-put}
use istio_oidc.Replication.Peers.{
  Connection, Peers, new_connection, keep_all, drop_conns, refresh_peers, get_connection,
  connect_all, refresh_round,
}

-- Whether an endpoint is in a list.
abbrev pub listed : String → List String → Bool
listed ep [] = false
listed ep (e ∷ eps) = if e == ep then true else listed ep eps

abbrev nothing_kept : GoMap Bool
nothing_kept = []

get_nil : (ep : String) → or_else (Map.get ep nothing_kept) false ≡ false
unfolding Map.get
get_nil ep = refl

keep_all-get :
    (eps : List String) (keep : GoMap Bool) (ep : String)
    → or_else (Map.get ep (keep_all eps keep)) false
      ≡ (if listed ep eps then true else or_else (Map.get ep keep) false)
unfolding keep_all
keep_all-get [] keep ep = refl
keep_all-get (e ∷ eps) keep ep =
    ground (arith, keep_all-get eps (Map.put e true keep) ep, get-put e ep true keep, eq_iff e ep)

drop_conns-get :
    (keep : GoMap Bool) (conns : GoMap Connection) (closed : List Connection) (ep : String)
    → Map.get ep (drop_conns keep conns closed).0
      ≡ (if or_else (Map.get ep keep) false then Map.get ep conns else none)
unfolding drop_conns Map.get
drop_conns-get keep [] closed ep = ground arith
drop_conns-get keep ((e, conn) ∷ conns) closed ep =
    ground (arith, drop_conns-get keep conns closed ep, eq_iff e ep)

connect_all-get :
    (eps : List String) (p : Peers) (ep : String)
    → Map.get ep (connect_all eps p).conns ≡ (
        if listed ep eps
        then some (or_else (Map.get ep p.conns) (new_connection ep))
        else Map.get ep p.conns)
unfolding connect_all get_connection
connect_all-get [] p ep = refl
connect_all-get (e ∷ eps) p ep = ground (
  arith,
  connect_all-get eps p ep,
  connect_all-get eps (record p { conns = Map.put e (new_connection e) p.conns }) ep,
  get-put e ep (new_connection e) p.conns,
  eq_iff e ep,
)

-- After a round of the worker the table has a connection for exactly the endpoints that the lookup
-- found: the one that was there, or a new one. If the lookup failed the table stays as it was.
pub refresh_round-get :
    (eps : List String) (e : String) (p : Peers) (ep : String)
    → (Map.get ep (refresh_round (ok eps) p).conns
        ≡ (if listed ep eps then some (or_else (Map.get ep p.conns) (new_connection ep)) else none))
      × (refresh_round (err e) p ≡ p)
unfolding refresh_round refresh_peers
refresh_round-get eps e p ep =
    let (conns', closed') = drop_conns (keep_all eps []) p.conns p.closed in
    (
      ground (
        arith,
        connect_all-get eps (record { conns = conns'; closed = closed' }) ep,
        drop_conns-get (keep_all eps []) p.conns p.closed ep,
        keep_all-get eps [] ep,
        get_nil ep,
      ),
      refl,
    )
