-- ===== src/Leader.antt =====
-- controller/accesspolicy/leader.go, gateway.go, helpers.go and envoyfilter.go: the reconciler that
-- keeps the resources of a policy in order.
mod Finalizing
mod Secrets
mod Living
mod Examples
use istio_oidc.Common.{
  ℕ, String, Bool, true, false, not, ◌&&◌, List, [], ◌∷◌, ◌++◌, Option, none, some, Result, ok, err,
  panic, or_else, eqb, length, if◌then◌else◌, ◌==◌,
}
use istio_oidc.Common.Map
use istio_oidc.Common.Map.{GoMap}
use istio_oidc.Net.{UrlLib}
use istio_oidc.Api.{ApiAccessPolicy, ApiSpec, normalize}
use istio_oidc.Api.Validation.{validate_spec}
use istio_oidc.OpenId.Chars.{text_length}
use istio_oidc.Worker.{Fetched, found, not_found, failed}

-- `contains`
unfoldable pub contains : List String → String → Bool
contains [] target = false
contains (x ∷ list) target = let rest = contains list target in if x == target then true else rest

-- `remove`
unfoldable pub remove : List String → String → List String
remove [] target = []
remove (x ∷ list) target = let rest = remove list target in if x == target then rest else x ∷ rest

abbrev pub finalizer : String
finalizer = "finalizer.istio-oidc"

-- An Istio gateway: its selector, and its servers with their hosts and port.
pub record Gateway : Type 0 where
  pub selector : GoMap String
  pub servers : List (List String × ℕ)

-- What the reconciler writes to the cluster.
pub data Write : Type 0 where
  update_policy : ApiAccessPolicy → Write
  update_status : ApiAccessPolicy → Write
  update_secret : String → Option (GoMap String) → Write
  create_filter : GoMap String → Write

-- The cluster's answers: what it has, whether it accepts a write, and the selectors of the filters
-- there are. A secret's data is `none` where the map is nil. `random_key` is what `rand.Read` fills 64 bytes with, `address` the format `%s:%d`, and
-- `same_labels` is `reflect.DeepEqual`.
pub record LeaderCluster : Type 0 where
  pub net : UrlLib
  pub accepts : Write → Bool
  pub gateways : String → String → Fetched Gateway
  pub secrets : String → String → Fetched (Option (GoMap String))
  pub filters : Option (List (GoMap String))
  pub random_key : Option String
  pub address : String → ℕ → String
  pub same_labels : GoMap String → GoMap String → Bool

-- The accepted writes and the events, the latest first.
pub record Leader : Type 0 where
  pub writes : List Write
  pub events : List String

abbrev pub event : String → Leader → Leader
event reason l = record l { events = reason ∷ l.events }

infixl 10 ◌>>>◌
abbrev pub ◌>>>◌ {ℓ κ} :
    {A : Type ℓ} {B : Type κ}
    → Leader × Result A
    → (Leader → A → Leader × Result B)
    → Leader × Result B
(l, ok a) >>> next = next l a
(l, err e) >>> next = (l, err e)
(l, panic) >>> next = (l, panic)

module _ (k : LeaderCluster) where
  -- A write, which may be refused.
  unfoldable pub write : Write → String → Leader → Leader × Result (Unit {0})
  write w msg l = if k.accepts w then (record l { writes = w ∷ l.writes }, ok tt) else (l, err msg)

  unfoldable pub add_finalizer : ApiAccessPolicy → Leader → Leader × Result ApiAccessPolicy
  unfolding write contains
  add_finalizer ap l =
      let ap' = record ap { finalizers = ap.finalizers ++ finalizer ∷ [] } in
      if not ap.deleting && not (contains ap.finalizers finalizer)
      then (write (update_policy ap') "failed adding AccessPolicy finalizer" l >>> λ m _.
          (m, ok ap'))
      else (l, ok ap)

  unfoldable pub remove_finalizer : ApiAccessPolicy → Leader → Leader × Result (Unit {0})
  unfolding write contains remove
  remove_finalizer ap l =
      if ap.deleting && contains ap.finalizers finalizer
      then write (update_policy (record ap { finalizers = remove ap.finalizers finalizer }))
          "failed removing AccessPolicy finalizer" l
      else (l, ok tt)

  -- An event for each error of the validation.
  abbrev pub validation_events : List String → Leader → Leader
  validation_events [] l = l
  validation_events (e ∷ errs) l = validation_events errs (event "Validation" l)

  unfoldable pub reconcile_spec : ApiAccessPolicy → Leader → Leader × Result ApiAccessPolicy
  unfolding write normalize validate_spec
  reconcile_spec ap l =
      let ap' = record ap { spec = normalize ap.spec } in
      write (update_policy ap') "failed updating AccessPolicy spec"
        (validation_events (validate_spec k.net ap.spec []) l)
      >>> λ m _. (m, ok ap')

  abbrev pub hosts_of : ℕ → List String → List String
  hosts_of port [] = []
  hosts_of port (host ∷ hosts) = k.address host port ∷ hosts_of port hosts

  -- `virtualHosts`
  unfoldable pub virtual_hosts : List (List String × ℕ) → List String
  virtual_hosts [] = []
  virtual_hosts ((hosts, port) ∷ servers) = hosts_of port hosts ++ virtual_hosts servers

  unfoldable pub reconcile_status : ApiAccessPolicy → Leader → Leader × Result ApiAccessPolicy
  unfolding write virtual_hosts
  reconcile_status ap l = elim (k.gateways ap.namespace ap.spec.gateway) [
    | found gw ↦
        let ap' = record ap {
          status = record { selector = gw.selector; virtual_hosts = virtual_hosts gw.servers };
        } in
        write (update_status ap') "failed updating AccessPolicy status" l >>> λ m _. (m, ok ap')
    | _ ↦ (event "MissingGateway" l, ok ap)
  ]

  -- `len(secret.Data[key]) == 0`
  abbrev pub report_empty : String → String → Option (GoMap String) → Leader → Leader
  report_empty key reason data' l =
      if eqb (text_length (or_else (Map.get key (or_else data' [])) "")) 0
      then event reason (event reason l)
      else l

  -- The token key is made anew unless it has the 64 bytes of a SHA-512 digest. A nil map takes no
  -- entry: the assignment is a panic.
  unfoldable pub with_token_key :
      String → Option (GoMap String) → Leader → Leader × Result (Option (GoMap String))
  with_token_key key none l = (l, panic)
  with_token_key key (some data') l =
      if eqb (text_length (or_else (Map.get key data') "")) 64
      then (l, ok (some data'))
      else elim k.random_key [
        | none ↦ (l, err "failed creating token secret")
        | some fresh ↦ (
          event "GeneratedTokenSecret" (event "GeneratedTokenSecret" l),
          ok (some (Map.put key fresh data')),
        )
      ]

  -- `reconcileSecret`, with the secret that was found.
  unfoldable pub renew_secret :
      ApiAccessPolicy → Option (GoMap String) → Leader → Leader × Result (Unit {0})
  unfolding with_token_key write
  renew_secret ap data' l =
      let ref = ap.spec.oidc.credentials_secret in
      with_token_key ref.token_secret_key data' (
        report_empty ref.client_secret_key "MissingClientSecret" data'
          (report_empty ref.client_id_key "MissingClientID" data' l))
      >>> λ m renewed.
          write (update_secret ref.name renewed) "failed updating AccessPolicy status" m

  unfoldable pub reconcile_secret : ApiAccessPolicy → Leader → Leader × Result (Unit {0})
  unfolding renew_secret
  reconcile_secret ap l = elim (k.secrets ap.namespace ap.spec.oidc.credentials_secret.name) [
    | found data' ↦ renew_secret ap data' l
    | _ ↦ (event "MissingSecret" l, ok tt)
  ]

  unfoldable pub some_filter : GoMap String → List (GoMap String) → Bool
  some_filter selector [] = false
  some_filter selector (labels ∷ filters) =
      let rest = some_filter selector filters in
      if k.same_labels labels selector then true else rest

  unfoldable pub reconcile_envoy_filter : ApiAccessPolicy → Leader → Leader × Result (Unit {0})
  unfolding write some_filter
  reconcile_envoy_filter ap l =
      if eqb (length ap.status.selector) 0 then (l, ok tt) else elim k.filters [
        | none ↦ (l, err "failed listing EnvoyFilters")
        | some all ↦
            if some_filter ap.status.selector all
            then (l, ok tt)
            else write (create_filter ap.status.selector) "failed creating EnvoyFilter" l
      ]

  -- The four steps of a policy that is not being deleted.
  unfoldable pub reconcile_live : ApiAccessPolicy → Leader → Leader × Result (Unit {0})
  unfolding reconcile_spec reconcile_status reconcile_secret reconcile_envoy_filter
  reconcile_live ap l = reconcile_spec ap l >>> (λ m p.
      reconcile_status p m >>> λ n q. reconcile_secret q n >>> λ o _. reconcile_envoy_filter q o)

  -- `Reconcile`, by what the cluster has under the name.
  unfoldable pub reconcile_leader : Fetched ApiAccessPolicy → Leader → Leader × Result (Unit {0})
  unfolding add_finalizer reconcile_live remove_finalizer
  reconcile_leader not_found l = (l, ok tt)
  reconcile_leader failed l = (l, err "failed getting AccessPolicy")
  reconcile_leader (found ap) l =
      add_finalizer ap l >>> λ m p. if p.deleting then remove_finalizer p m else reconcile_live p m
