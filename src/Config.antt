-- ===== src/Config.antt =====
-- The config package: struct.go, the defaults of normalize.go, and the address to advertise
-- (address.go).
mod Pieces
mod Advertising
mod Defaults
mod Examples
use Prim.Native.Char.{code}
use Prim.Native.String.{◌++◌}
use istio_oidc.Common.{
  ℕ, String, Bool, true, false, not, ◌&&◌, List, [], ◌∷◌, Option, none, some, Result, ok, err,
  panic, ◌>>=◌, wrap, or_err, eqb, if◌then◌else◌, ◌==◌,
}
use istio_oidc.Common.Map.{GoMap}

-- A `time.Duration`, in nanoseconds; `negsuc n` is -(n + 1).
pub data ℤ : Type 0 where
  pos : ℕ → ℤ
  negsuc : ℕ → ℤ

unfoldable pub is_zero : ℤ → Bool
is_zero (pos n) = eqb n 0
is_zero (negsuc n) = false

abbrev pub second : ℤ
second = pos 1000000000

abbrev pub minute : ℤ
minute = pos 60000000000

-- `controller`; its labels are `none` where the map is nil.
pub record Controller : Type 0 where
  pub istio_root_namespace : String
  pub envoy_filter_name_prefix : String
  pub envoy_filter_labels : Option (GoMap String)
  pub leader_election : Bool
  pub leader_election_namespace : String
  pub leader_election_name : String

pub record ExtAuthz : Type 0 where
  pub cluster_name : String
  pub timeout : ℤ

pub record Sessions : Type 0 where
  pub cleaning_interval : ℤ
  pub cleaning_grace_period : ℤ

-- `replication`; the peers' address is the domain and the service.
pub record Replication : Type 0 where
  pub mode : String
  pub static_peers : List String
  pub peer_domain : String
  pub peer_service : String
  pub advertise_address : String
  pub establish_interval : ℤ

-- `config`, with the addresses of `service` and `telemetry`.
pub record Config : Type 0 where
  pub controller : Controller
  pub service_address : String
  pub ext_authz : ExtAuthz
  pub sessions : Sessions
  pub replication : Replication
  pub telemetry_address : String

-- An address of the system: one of package net's `*IPNet`, or of another type.
pub data InterfaceAddr (Ip : Type 0) : Type 0 where
  ip_net : Ip → InterfaceAddr Ip
  other_addr : InterfaceAddr Ip

-- What is used of package net and of the system: `SplitHostPort`, `ParseIP`, the tests and the text of
-- an address, `InterfaceAddrs`, and the file with the namespace of the service account.
pub record System : Type 1 where
  pub Ip : Type 0
  pub split_host_port : String → Option (String × String)
  pub parse_ip : String → Option Ip
  pub is_unspecified : Ip → Bool
  pub is_loopback : Ip → Bool
  pub ip_text : Ip → String
  pub interface_addrs : Option (List (InterfaceAddr Ip))
  pub own_namespace : Option String

abbrev pub or_default : String → String → String
or_default s d = if s == "" then d else s

abbrev pub or_interval : ℤ → ℤ → ℤ
or_interval t d = if is_zero t then d else t

-- `strings.HasSuffix(s, "-")`
unfoldable pub ends_in_dash : String → Bool
ends_in_dash String.[] = false
ends_in_dash (String.◌∷◌ c s) = if s == "" then eqb (code c) b'-' else ends_in_dash s

unfoldable pub normalize_prefix : String → String
unfolding ends_in_dash
normalize_prefix s = if s == "" then "ext-authz-" else if ends_in_dash s then s else s ++ "-"

abbrev pub default_labels : GoMap String
default_labels = ("istio-oidc", "ext-authz") ∷ []

abbrev pub or_labels : Option (GoMap String) → Option (GoMap String)
or_labels none = some default_labels
or_labels (some labels) = some labels

unfoldable pub normalize_service : String → String
normalize_service address = or_default address ":8080"

unfoldable pub normalize_telemetry : String → String
normalize_telemetry address = or_default address ":8081"

unfoldable pub normalize_sessions : Sessions → Sessions
unfolding is_zero
normalize_sessions s = record {
  cleaning_interval = or_interval s.cleaning_interval minute;
  cleaning_grace_period = or_interval s.cleaning_grace_period minute;
}

-- An error stands for the exit of the process with this message.
unfoldable pub normalize_ext_authz : ExtAuthz → Result ExtAuthz
unfolding is_zero
normalize_ext_authz ea =
    if ea.cluster_name == ""
    then err "missing cluster name"
    else ok (record ea { timeout = or_interval ea.timeout second })

-- The switch over the modes.
unfoldable pub normalize_mode : String → Result String
normalize_mode mode =
    if mode == ""
    then ok "none"
    else if mode == "none"
    then ok mode
    else if mode == "static"
    then ok mode
    else if mode == "dns"
    then ok mode
    else err "invalid replication mode"

module _ (sys : System) where
  -- The loop over the addresses of the system.
  unfoldable pub first_address : String → List (InterfaceAddr sys.Ip) → Result String
  first_address port [] = err "system has no non-loopback addresses"
  first_address port (other_addr ∷ addrs) = panic
  first_address port (ip_net ip ∷ addrs) =
      if sys.is_loopback ip then first_address port addrs else ok (sys.ip_text ip ++ (":" ++ port))

  -- `net.InterfaceAddrs` and the loop.
  unfoldable pub system_address : String → Result String
  unfolding first_address
  system_address port = or_err "no addresses" sys.interface_addrs >>= first_address port

  -- The branch on the address to bind to.
  unfoldable pub address_of : Option sys.Ip → String → Result String
  unfolding system_address
  address_of none port = system_address port
  address_of (some ip) port =
      if not (sys.is_unspecified ip)
      then ok (sys.ip_text ip ++ (":" ++ port))
      else system_address port

  -- `advertiseAddress`
  unfoldable pub advertise_address : String → Result String
  unfolding address_of
  advertise_address bind_addr =
      or_err "failed parsing bind address" (sys.split_host_port bind_addr) >>= λ found.
      address_of (sys.parse_ip found.0) found.1

  unfoldable pub normalize_replication : String → Replication → Result Replication
  unfolding normalize_mode advertise_address is_zero
  normalize_replication bind_addr r = normalize_mode r.mode >>= λ mode.
      (if r.advertise_address == ""
        then wrap "could not determine address to advertise" (advertise_address bind_addr)
        else ok r.advertise_address)
      >>= λ address. ok (record r {
        mode = mode;
        advertise_address = address;
        establish_interval = or_interval r.establish_interval minute;
      })

  -- The namespace for the election of a leader.
  unfoldable pub election_namespace : Controller → Result String
  election_namespace c =
      if c.leader_election && (c.leader_election_namespace == "")
      then or_err "missing leader election namespace" sys.own_namespace
      else ok c.leader_election_namespace

  unfoldable pub normalize_controller : Controller → Result Controller
  unfolding normalize_prefix election_namespace
  normalize_controller c = election_namespace c >>= λ namespace. ok (record c {
    istio_root_namespace = or_default c.istio_root_namespace "istio-system";
    envoy_filter_name_prefix = normalize_prefix c.envoy_filter_name_prefix;
    envoy_filter_labels = or_labels c.envoy_filter_labels;
    leader_election_namespace = namespace;
    leader_election_name = or_default c.leader_election_name "istio-oidc";
  })

  -- `config.normalize`
  unfoldable pub normalize_config : Config → Result Config
  unfolding normalize_controller normalize_service normalize_ext_authz normalize_sessions
      normalize_replication normalize_telemetry
  normalize_config c = normalize_controller c.controller >>= (λ controller.
      normalize_ext_authz c.ext_authz >>= λ ext_authz.
      let service = normalize_service c.service_address in
      normalize_replication service c.replication >>= λ replication. ok (record {
        controller = controller;
        service_address = service;
        ext_authz = ext_authz;
        sessions = normalize_sessions c.sessions;
        replication = replication;
        telemetry_address = normalize_telemetry c.telemetry_address;
      }))
