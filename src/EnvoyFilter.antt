-- ===== src/EnvoyFilter.antt =====
-- controller/envoyfilter/envoyfilter.go: the patches that make the proxy ask the authorization server.
pub mod ClusterName
mod Asking
mod Patching
pub mod Reconciling
pub mod Protobuf
pub mod Wire
mod Serving
mod Proxy
mod Examples
use istio_oidc.Common.{
  ℕ, ◌%◌, ◌^◌, String, Bool, true, false, List, [], ◌∷◌, ◌++◌, Option, none, some, if◌then◌else◌,
}
use istio_oidc.Common.Map.{GoMap}
use istio_oidc.EnvoyFilter.ClusterName.{parse_istio_cluster_name}
use istio_oidc.AccessPolicy.{AccessPolicy, Route}

pub data ApplyTo : Type 0 where
  http_filter virtual_host http_route to_cluster : ApplyTo

pub data Operation : Type 0 where
  insert_before merge : Operation

-- What a patch is for: all of the gateway, its router, a virtual host, a route of one, or a cluster.
pub data Match : Type 0 where
  gateway router : Match
  vhost : String → Match
  vhost_route : String → String → Match
  cluster : String → ℕ → String → Match

-- The value: a cluster's name, the filter that asks a cluster within a time, or the settings of a
-- virtual host or a route. These name a policy and a route, or disable the filter.
pub data PatchValue : Type 0 where
  named : String → PatchValue
  ext_authz : String → String → PatchValue
  check_settings : String → String → PatchValue
  disabled : PatchValue

pub record Patch : Type 0 where
  pub apply_to : ApplyTo
  pub match_on : Match
  pub operation : Operation
  pub value : PatchValue

-- The configuration: the cluster's name, and the timeout as it is printed; `address` is the format
-- `%s:%d`.
pub record FilterSettings : Type 0 where
  pub cluster_name : String
  pub timeout : String
  pub address : String → ℕ → String

-- `extAuthzPerRoute`
unfoldable pub per_route : String → String → Option Route → PatchValue
per_route policy route none = disabled
per_route policy route (some r) = if r.enable_authz then check_settings policy route else disabled

unfoldable pub vhost_patch : AccessPolicy → String → Patch
unfolding per_route
vhost_patch pol host = record {
  apply_to = virtual_host;
  match_on = vhost host;
  operation = merge;
  value = per_route pol.name "" (some pol.default_route);
}

unfoldable pub route_patch : AccessPolicy → String → String → Route → Patch
unfolding per_route
route_patch pol host route data' = record {
  apply_to = http_route;
  match_on = vhost_route host route;
  operation = merge;
  value = per_route pol.name route (some data');
}

-- The loop over the routes of a policy.
unfoldable pub route_patches : AccessPolicy → String → GoMap Route → List Patch
unfolding route_patch
route_patches pol host [] = []
route_patches pol host ((route, data') ∷ routes) =
    route_patch pol host route data' ∷ route_patches pol host routes

-- The loop over the virtual hosts of a policy.
unfoldable pub vhost_patches : AccessPolicy → List String → List Patch
unfolding vhost_patch route_patches
vhost_patches pol [] = []
vhost_patches pol (host ∷ hosts) =
    vhost_patch pol host ∷ (route_patches pol host pol.routes ++ vhost_patches pol hosts)

unfoldable pub policy_patches : List AccessPolicy → List Patch
unfolding vhost_patches
policy_patches [] = []
policy_patches (pol ∷ pols) = vhost_patches pol pol.virtual_hosts ++ policy_patches pols

-- The name that the filter asks, and the patch that gives an Istio cluster this name.
unfoldable pub cluster_patch : FilterSettings → String × List Patch
unfolding parse_istio_cluster_name
cluster_patch c = elim (parse_istio_cluster_name c.cluster_name) [
  | none ↦ (c.cluster_name, [])
  | some found ↦ (
    c.address found.0 found.1,
    record {
      apply_to = to_cluster;
      match_on = cluster found.0 (found.1 % 2 ^ 32) found.2;
      operation = merge;
      value = named (c.address found.0 found.1);
    }
        ∷ [],
  )
]

unfoldable pub filter_patch : FilterSettings → String → Patch
filter_patch c name = record {
  apply_to = http_filter;
  match_on = router;
  operation = insert_before;
  value = ext_authz name c.timeout;
}

-- The filter is disabled for all that no later patch enables it for.
abbrev pub disable_patch : Patch
disable_patch = record {
  apply_to = virtual_host;
  match_on = gateway;
  operation = merge;
  value = disabled;
}

-- `newEnvoyFilter`: the patches of the filter.
unfoldable pub new_envoy_filter : FilterSettings → List AccessPolicy → List Patch
unfolding policy_patches cluster_patch filter_patch
new_envoy_filter c pols =
    let (name, patches) = cluster_patch c in
    patches ++ (filter_patch c name ∷ (disable_patch ∷ policy_patches pols))
