-- ===== src/Config/Defaults.antt =====
-- What the defaults make of a configuration.
use istio_oidc.Common.{
  String, true, false, ◌&&◌, Option, none, some, ok, wrap, or_err, if◌then◌else◌, ◌==◌, ◌≡◌, ◌≢◌,
  refl, arith, inl, inr, Bool-cases, >>=-eq-ok, sym, subst,
}
use istio_oidc.Common.Map.{GoMap}
use istio_oidc.Config.{
  is_zero, second, minute, Controller, ExtAuthz, Sessions, Replication, Config, System, or_default,
  or_interval, ends_in_dash, normalize_prefix, or_labels, normalize_service, normalize_telemetry,
  normalize_sessions, normalize_ext_authz, normalize_mode, advertise_address, normalize_replication,
  election_namespace, normalize_controller, normalize_config,
}
use istio_oidc.Config.Pieces.{
  ok-inj, or_default_lem, or_interval_lem, normalize_prefix_lem, IsMode, mode_fixed,
  normalize_mode-IsMode,
}
use istio_oidc.Config.Advertising.{chosen-ne}

module _ (sys : System) where
  -- A section with nothing left open.
  pub record IsComplete (c : Config) : Type 0 where
    pub root_namespace : (c.controller.istio_root_namespace == "") ≡ false
    pub dashed : ends_in_dash c.controller.envoy_filter_name_prefix ≡ true
    pub labelled : c.controller.envoy_filter_labels ≢ none
    pub election_name : (c.controller.leader_election_name == "") ≡ false
    pub service : (c.service_address == "") ≡ false
    pub cluster : (c.ext_authz.cluster_name == "") ≡ false
    pub timeout : is_zero c.ext_authz.timeout ≡ false
    pub cleaning : is_zero c.sessions.cleaning_interval ≡ false
    pub grace : is_zero c.sessions.cleaning_grace_period ≡ false
    pub mode : IsMode c.replication.mode
    pub advertised : (c.replication.advertise_address == "") ≡ false
    pub establishing : is_zero c.replication.establish_interval ≡ false
    pub telemetry : (c.telemetry_address == "") ≡ false

  abbrev ReplicationIsComplete : Replication → Type 0
  ReplicationIsComplete r =
      IsMode r.mode
      × ((r.advertise_address == "") ≡ false)
      × (is_zero r.establish_interval ≡ false)
      × ((bind : String) → normalize_replication sys bind r ≡ ok r)

  made_replication :
      (r : Replication) (mode address : String)
      → IsMode mode
      → (address == "") ≡ false
      → ReplicationIsComplete (record r {
        mode = mode;
        advertise_address = address;
        establish_interval = or_interval r.establish_interval minute;
      })
  unfolding normalize_replication is_zero
  made_replication r mode address m a =
      let (nonzero, idem) = or_interval_lem r.establish_interval minute refl in
      (m, a, nonzero, λ bind. rw (mode_fixed mode m, a, idem) refl)

  normalize_replication_lem :
      (bind : String) (r r' : Replication)
      → normalize_replication sys bind r ≡ ok r'
      → ReplicationIsComplete r'
  unfolding normalize_replication
  normalize_replication_lem bind r r' h =
      let (mode, e, f) = >>=-eq-ok (normalize_mode r.mode) _ h in
      let (address, g, made) =
        >>=-eq-ok
          (if r.advertise_address == ""
            then wrap "could not determine address to advertise" (advertise_address sys bind)
            else ok r.advertise_address)
          _ f in
      subst ReplicationIsComplete (ok-inj made) (
        made_replication r mode address (normalize_mode-IsMode r.mode mode e)
          (chosen-ne sys bind r.advertise_address address g))

  abbrev ExtAuthzIsComplete : ExtAuthz → Type 0
  ExtAuthzIsComplete ea =
      ((ea.cluster_name == "") ≡ false)
      × (is_zero ea.timeout ≡ false)
      × (normalize_ext_authz ea ≡ ok ea)

  normalize_ext_authz_lem :
      (ea ea' : ExtAuthz) → normalize_ext_authz ea ≡ ok ea' → ExtAuthzIsComplete ea'
  unfolding normalize_ext_authz is_zero
  normalize_ext_authz_lem ea ea' h = elim (Bool-cases (ea.cluster_name == "")) [
    | inl e ↦ absurd (cc (rw e at h))
    | inr e ↦
        let (nonzero, idem) = or_interval_lem ea.timeout second refl in
        subst ExtAuthzIsComplete (ok-inj (rw e at h)) (e, nonzero, rw (e, idem) refl)
  ]

  abbrev ControllerIsComplete : Controller → Type 0
  ControllerIsComplete c =
      ((c.istio_root_namespace == "") ≡ false)
      × (ends_in_dash c.envoy_filter_name_prefix ≡ true)
      × (c.envoy_filter_labels ≢ none)
      × ((c.leader_election_name == "") ≡ false)
      × (normalize_controller sys c ≡ ok c)

  election_namespace_idem :
      (c : Controller) (namespace : String)
      → election_namespace sys c ≡ ok namespace
      → (if c.leader_election && (namespace == "")
          then or_err "missing leader election namespace" sys.own_namespace
          else ok namespace)
        ≡ ok namespace
  unfolding election_namespace
  election_namespace_idem c namespace h = ground arith

  or_labels_lem :
      (o : Option (GoMap String)) → (or_labels o ≢ none) × (or_labels (or_labels o) ≡ or_labels o)
  or_labels_lem none = (cc, refl)
  or_labels_lem (some labels) = (cc, refl)

  made_controller :
      (c : Controller) (namespace : String)
      → election_namespace sys c ≡ ok namespace
      → ControllerIsComplete (record c {
        istio_root_namespace = or_default c.istio_root_namespace "istio-system";
        envoy_filter_name_prefix = normalize_prefix c.envoy_filter_name_prefix;
        envoy_filter_labels = or_labels c.envoy_filter_labels;
        leader_election_namespace = namespace;
        leader_election_name = or_default c.leader_election_name "istio-oidc";
      })
  unfolding normalize_controller election_namespace
  made_controller c namespace h =
      let root = or_default_lem c.istio_root_namespace "istio-system" refl in
      let name = or_default_lem c.leader_election_name "istio-oidc" refl in
      let (dashed, filled, prefix) = normalize_prefix_lem c.envoy_filter_name_prefix in
      let (labels, same) = or_labels_lem c.envoy_filter_labels in
      (
        root.0,
        dashed,
        labels,
        name.0,
        rw (election_namespace_idem c namespace h, root.1, name.1, prefix, same) refl,
      )

  normalize_controller_lem :
      (c c' : Controller) → normalize_controller sys c ≡ ok c' → ControllerIsComplete c'
  unfolding normalize_controller
  normalize_controller_lem c c' h =
      let (namespace, e, made) = >>=-eq-ok (election_namespace sys c) _ h in
      subst ControllerIsComplete (ok-inj made) (made_controller c namespace e)

  normalize_sessions_lem :
      (s : Sessions)
      → (is_zero (normalize_sessions s).cleaning_interval ≡ false)
        × (is_zero (normalize_sessions s).cleaning_grace_period ≡ false)
        × (normalize_sessions (normalize_sessions s) ≡ normalize_sessions s)
  unfolding normalize_sessions is_zero
  normalize_sessions_lem s =
      let interval = or_interval_lem s.cleaning_interval minute refl in
      let grace = or_interval_lem s.cleaning_grace_period minute refl in
      (interval.0, grace.0, rw (interval.1, grace.1) refl)

  made_config :
      (c : Config) (controller : Controller) (ea : ExtAuthz) (r : Replication)
      → ControllerIsComplete controller
      → ExtAuthzIsComplete ea
      → ReplicationIsComplete r
      → (c' : Config)
      → c' ≡ record {
        controller = controller;
        service_address = normalize_service c.service_address;
        ext_authz = ea;
        sessions = normalize_sessions c.sessions;
        replication = r;
        telemetry_address = normalize_telemetry c.telemetry_address;
      }
      → IsComplete c' × (normalize_config sys c' ≡ ok c')
  unfolding normalize_config normalize_service normalize_telemetry
  made_config c controller ea r h k l c' e =
      let service = or_default_lem c.service_address ":8080" refl in
      let telemetry = or_default_lem c.telemetry_address ":8081" refl in
      let (interval, grace, sessions) = normalize_sessions_lem c.sessions in
      subst (λ x. IsComplete x × (normalize_config sys x ≡ ok x)) (sym e)
        (
          record {
            root_namespace = h.0;
            dashed = h.1;
            labelled = h.2;
            election_name = h.3;
            service = service.0;
            cluster = k.0;
            timeout = k.1;
            cleaning = interval;
            grace = grace;
            mode = l.0;
            advertised = l.1;
            establishing = l.2;
            telemetry = telemetry.0;
          },
          rw
              (
                h.4,
                k.2,
                l.3 (or_default (or_default c.service_address ":8080") ":8080"),
                sessions,
                service.1,
                telemetry.1,
              )
              refl,
        )

  -- A configuration that is accepted comes out complete: the names, addresses and labels are there,
  -- the prefix ends in a dash, the mode is one that the lookup knows, and no interval is zero. To
  -- accept it once more changes nothing.
  pub normalize_config-IsComplete :
      (c c' : Config)
      → normalize_config sys c ≡ ok c'
      → IsComplete c' × (normalize_config sys c' ≡ ok c')
  unfolding normalize_config
  normalize_config-IsComplete c c' h =
      let (controller, e, f) = >>=-eq-ok (normalize_controller sys c.controller) _ h in
      let (ea, g, i) = >>=-eq-ok (normalize_ext_authz c.ext_authz) _ f in
      let (r, j, made) =
        >>=-eq-ok (normalize_replication sys (normalize_service c.service_address) c.replication) _
          i in
      made_config c controller ea r (normalize_controller_lem c.controller controller e)
        (normalize_ext_authz_lem c.ext_authz ea g)
        (normalize_replication_lem (normalize_service c.service_address) c.replication r j) c'
        (sym (ok-inj made))
