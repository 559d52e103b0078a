-- ===== src/Watching/Examples.antt =====
-- An event of a filter, and what wakes at it.
use istio_oidc.Common.{true, false, [], ◌∷◌, some, ◌≡◌, refl}
use istio_oidc.Common.Map
use istio_oidc.Config.{Controller}
use istio_oidc.Watching.{
  Meta, Event, update, Runtime, envoy_filter, same_object, filter_mapper, leader_watches,
  filter_watches, woken, same_kind, in_namespace, has_labels, check,
}

abbrev controller : Controller
controller = record {
  istio_root_namespace = "istio-system";
  envoy_filter_name_prefix = "ext-authz-";
  envoy_filter_labels = some (("istio-oidc", "ext-authz") ∷ []);
  leader_election = false;
  leader_election_namespace = "";
  leader_election_name = "istio-oidc";
}

abbrev eager : Runtime
eager = record { version_changed = λ e. true; generation_changed = λ e. true }

abbrev labelled : Meta
labelled = record {
  namespace = "istio-system";
  name = "ext-authz-a";
  labels = ("istio-oidc", "ext-authz") ∷ [];
}

abbrev changed : Event
changed = update (record labelled { labels = [] }) labelled

both_wake :
    (woken (filter_watches eager controller) envoy_filter changed ≡ same_object ∷ [])
    × (woken (leader_watches eager controller) envoy_filter changed ≡ filter_mapper ∷ [])
unfolding woken filter_watches leader_watches same_kind in_namespace has_labels check Map.get
both_wake = (refl, refl)
