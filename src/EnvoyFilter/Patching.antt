-- ===== src/EnvoyFilter/Patching.antt =====
-- Which patches the filter has.
use istio_oidc.Common.{
  String, List, [], ◌∷◌, ◌++◌, inl, inr, Elem, Elem-append_left, Elem-append_right, ap, subst, refl,
  All, Elem-All,
}
use istio_oidc.Common.Map.{GoMap}
use istio_oidc.AccessPolicy.{AccessPolicy, Route}
use istio_oidc.EnvoyFilter.{
  Patch, FilterSettings, vhost_patch, route_patch, route_patches, vhost_patches, policy_patches,
  cluster_patch, filter_patch, disable_patch, new_envoy_filter,
}

Elem-route_patches :
    (pol : AccessPolicy) (host : String) (routes : GoMap Route) (k : String) (r : Route)
    → Elem (k, r) routes
    → Elem (route_patch pol host k r) (route_patches pol host routes)
unfolding route_patches
Elem-route_patches pol host [] k r e = absurd e
Elem-route_patches pol host ((j, v) ∷ routes) k r (inl e) =
    inl (ap (λ x. route_patch pol host x.0 x.1) e)
Elem-route_patches pol host ((j, v) ∷ routes) k r (inr e) =
    inr (Elem-route_patches pol host routes k r e)

-- The patches of a policy for one of its virtual hosts: that of its default route, and one for each of
-- its named routes.
abbrev pub ArePatched : AccessPolicy → String → List Patch → Type 0
ArePatched pol host patches =
    Elem (vhost_patch pol host) patches
    × All (λ e. Elem (route_patch pol host e.0 e.1) patches) pol.routes

All-Elem : {A : Type 0} (P : A → Type 0) (xs : List A) → ((x : A) → Elem x xs → P x) → All P xs
All-Elem P [] f = tt
All-Elem P (x ∷ xs) f = (f x (inl refl), All-Elem P xs (λ y m. f y (inr m)))

-- What has the patches has them among others too.
ArePatched-mono :
    (pol : AccessPolicy) (host : String) (ps qs : List Patch)
    → ((p : Patch) → Elem p ps → Elem p qs)
    → ArePatched pol host ps
    → ArePatched pol host qs
ArePatched-mono pol host ps qs f h = (
  f (vhost_patch pol host) h.0,
  All-Elem (λ e. Elem (route_patch pol host e.0 e.1) qs) pol.routes
      (λ e m.
        f (route_patch pol host e.0 e.1)
          (Elem-All (λ x. Elem (route_patch pol host x.0 x.1) ps) e pol.routes h.1 m)),
)

vhost_patches-ArePatched :
    (pol : AccessPolicy) (hosts : List String) (host : String)
    → Elem host hosts
    → ArePatched pol host (vhost_patches pol hosts)
unfolding vhost_patches
vhost_patches-ArePatched pol [] host e = absurd e
vhost_patches-ArePatched pol (h ∷ hosts) host (inl e) =
    subst
      (λ x.
        ArePatched pol host
          (vhost_patch pol x ∷ (route_patches pol x pol.routes ++ vhost_patches pol hosts)))
      e
      (
        inl refl,
        All-Elem _ pol.routes (λ r m. inr (
            Elem-append_left (route_patch pol host r.0 r.1) (route_patches pol host pol.routes)
              (vhost_patches pol hosts) (Elem-route_patches pol host pol.routes r.0 r.1 m))),
      )
vhost_patches-ArePatched pol (h ∷ hosts) host (inr e) =
    ArePatched-mono pol host (vhost_patches pol hosts) (vhost_patches pol (h ∷ hosts))
      (λ p m.
        inr (Elem-append_right p (route_patches pol h pol.routes) (vhost_patches pol hosts) m))
      (vhost_patches-ArePatched pol hosts host e)

policy_patches-ArePatched :
    (pols : List AccessPolicy) (pol : AccessPolicy) (host : String)
    → Elem pol pols
    → Elem host pol.virtual_hosts
    → ArePatched pol host (policy_patches pols)
unfolding policy_patches
policy_patches-ArePatched [] pol host e m = absurd e
policy_patches-ArePatched (q ∷ pols) pol host (inl e) m =
    subst (λ x. ArePatched pol host (vhost_patches x x.virtual_hosts ++ policy_patches pols)) e
      (ArePatched-mono pol host (vhost_patches pol pol.virtual_hosts)
        (vhost_patches pol pol.virtual_hosts ++ policy_patches pols)
        (λ p n. Elem-append_left p (vhost_patches pol pol.virtual_hosts) (policy_patches pols) n)
        (vhost_patches-ArePatched pol pol.virtual_hosts host m))
policy_patches-ArePatched (q ∷ pols) pol host (inr e) m =
    ArePatched-mono pol host (policy_patches pols)
      (vhost_patches q q.virtual_hosts ++ policy_patches pols)
      (λ p n. Elem-append_right p (vhost_patches q q.virtual_hosts) (policy_patches pols) n)
      (policy_patches-ArePatched pols pol host e m)

-- The filter has, for each virtual host of each policy, the patch of the policy's default route and
-- the patch of each of its named routes, if it has any.
pub new_envoy_filter-ArePatched :
    (c : FilterSettings) (pols : List AccessPolicy) (pol : AccessPolicy) (host : String)
    → Elem pol pols
    → Elem host pol.virtual_hosts
    → ArePatched pol host (new_envoy_filter c pols)
unfolding new_envoy_filter
new_envoy_filter-ArePatched c pols pol host e m =
    let (name, patches) = cluster_patch c in
    let rest = filter_patch c name ∷ (disable_patch ∷ policy_patches pols) in
    ArePatched-mono pol host (policy_patches pols) (patches ++ rest)
      (λ p n. Elem-append_right p patches rest (inr (inr n)))
      (policy_patches-ArePatched pols pol host e m)
