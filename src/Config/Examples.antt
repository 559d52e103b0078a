-- ===== src/Config/Examples.antt =====
-- A configuration with little in it, and the theorems about it.
use istio_oidc.Common.{String, true, [], ◌∷◌, none, some, ok, ◌==◌, ◌≡◌, refl, if◌then◌else◌}
use istio_oidc.Config.{
  pos, Controller, Config, System, ip_net, minute, second, normalize_config, advertise_address,
}
use istio_oidc.Config.Defaults.{IsComplete, normalize_config-IsComplete}

-- A system with a loopback address and another one.
abbrev host : System
host = record {
  Ip = String;
  split_host_port = λ s. if s == ":8080" then some ("", "8080") else none;
  parse_ip = λ s. if s == "" then none else some s;
  is_unspecified = λ ip. ip == "0.0.0.0";
  is_loopback = λ ip. ip == "127.0.0.1";
  ip_text = λ ip. ip;
  interface_addrs = some (ip_net "127.0.0.1" ∷ (ip_net "10.0.0.1" ∷ []));
  own_namespace = some "istio-oidc";
}

abbrev no_controller : Controller
no_controller = record {
  istio_root_namespace = "";
  envoy_filter_name_prefix = "oidc";
  envoy_filter_labels = none;
  leader_election = true;
  leader_election_namespace = "";
  leader_election_name = "";
}

abbrev given : Config
given = record {
  controller = no_controller;
  service_address = "";
  ext_authz = record { cluster_name = "auth"; timeout = pos 0 };
  sessions = record { cleaning_interval = pos 5; cleaning_grace_period = pos 0 };
  replication = record {
    mode = "";
    static_peers = [];
    peer_domain = "";
    peer_service = "";
    advertise_address = "";
    establish_interval = pos 0;
  };
  telemetry_address = "";
}

abbrev complete : Config
complete = record {
  controller = record {
    istio_root_namespace = "istio-system";
    envoy_filter_name_prefix = "oidc-";
    envoy_filter_labels = some (("istio-oidc", "ext-authz") ∷ []);
    leader_election = true;
    leader_election_namespace = "istio-oidc";
    leader_election_name = "istio-oidc";
  };
  service_address = ":8080";
  ext_authz = record { cluster_name = "auth"; timeout = second };
  sessions = record { cleaning_interval = pos 5; cleaning_grace_period = minute };
  replication = record {
    mode = "none";
    static_peers = [];
    peer_domain = "";
    peer_service = "";
    advertise_address = "10.0.0.1:8080";
    establish_interval = minute;
  };
  telemetry_address = ":8081";
}

given_normalized : normalize_config host given ≡ ok complete
unfolding normalize_config
given_normalized = refl

normalize_config-IsComplete_example :
    IsComplete host complete × (normalize_config host complete ≡ ok complete)
normalize_config-IsComplete_example =
    normalize_config-IsComplete host given complete given_normalized

found_address : advertise_address host ":8080" ≡ ok "10.0.0.1:8080"
unfolding advertise_address
found_address = refl
