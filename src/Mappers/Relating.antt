-- ===== src/Mappers/Relating.antt =====
-- Which policies a changed provider reaches, against those that use it.
use Prim.Native.String.{◌++◌}
use istio_oidc.Common.{
  String, true, false, List, [], ◌∷◌, some, ◌==◌, ◌≡◌, ◌↔◌, refl, arith, Elem, map, select,
  select-Elem, Elem-select, inl, inr, eq_iff, ap, sym, subst,
}
use istio_oidc.Api.{ApiAccessPolicy}
use istio_oidc.Worker.Reconciling.{slash-longer}
use istio_oidc.Mappers.{
  Changed, op_is_related, listed_policies, request_of, map_requests, map_provider,
}

Elem-requests :
    (ps : List ApiAccessPolicy) (r : String × String)
    → Elem r (map request_of ps)
    → (policy : ApiAccessPolicy) × Elem policy ps × (r ≡ request_of policy)
Elem-requests [] r e = absurd e
Elem-requests (q ∷ ps) r (inl e) = (q, inl refl, e)
Elem-requests (q ∷ ps) r (inr e) = let (policy, m, f) = Elem-requests ps r e in (policy, inr m, f)

requests-Elem :
    (ps : List ApiAccessPolicy) (policy : ApiAccessPolicy)
    → Elem policy ps
    → Elem (request_of policy) (map request_of ps)
requests-Elem [] policy e = absurd e
requests-Elem (q ∷ ps) policy (inl e) = inl (ap request_of e)
requests-Elem (q ∷ ps) policy (inr e) = inr (requests-Elem ps policy e)

-- A changed provider has exactly those policies reconciled that are in its namespace and refer to it
-- by its bare name.
pub map_provider_lem :
    (obj : Changed) (all : List ApiAccessPolicy) (r : String × String)
    → Elem r (map_provider obj (some all)) ↔ (
        (policy : ApiAccessPolicy) × Elem policy all
        × (r ≡ (policy.namespace, policy.name))
        × ((policy.namespace == obj.namespace) ≡ true)
        × ((policy.spec.oidc.provider == obj.name) ≡ true))
unfolding map_provider map_requests listed_policies op_is_related
map_provider_lem obj all r = (
  λ e.
      let here = λ (q : ApiAccessPolicy). q.namespace == obj.namespace in
      let related = λ (q : ApiAccessPolicy). q.spec.oidc.provider == obj.name in
      let (policy, m, f) = Elem-requests (select related (select here all)) r e in
      let (m', is_related) = select-Elem related policy (select here all) m in
      let (m'', is_here) = select-Elem here policy all m' in (policy, m'', f, is_here, is_related),
  λ h.
      let (policy, m, f, is_here, is_related) = h in
      let here = λ (q : ApiAccessPolicy). q.namespace == obj.namespace in
      let related = λ (q : ApiAccessPolicy). q.spec.oidc.provider == obj.name in
      subst (λ x. Elem x (map request_of (select related (select here all)))) (sym f)
        (requests-Elem (select related (select here all)) policy (
          Elem-select related policy (select here all) (Elem-select here policy all m is_here)
            is_related)),
)

-- A policy that refers to a provider with its namespace is reconciled by no change of that provider.
pub op_is_related-namespace :
    (obj : Changed) (policy : ApiAccessPolicy)
    → policy.spec.oidc.provider ≡ obj.namespace ++ ("/" ++ obj.name)
    → op_is_related obj policy ≡ false
unfolding op_is_related
op_is_related-namespace obj policy h = ground (
  arith,
  h,
  slash-longer obj.namespace obj.name,
  eq_iff policy.spec.oidc.provider obj.name,
  eq_iff obj.name (obj.namespace ++ ("/" ++ obj.name)),
)
