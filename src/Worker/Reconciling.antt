-- ===== src/Worker/Reconciling.antt =====
-- What a reconciliation does to the store.
use Prim.Native.String.{◌++◌, ◌∷◌, []}
use text.Mathlib.TextLemmas.{nil-append, cons-append}
use istio_oidc.Common.{
  String, false, some, ok, if◌then◌else◌, ◌==◌, ◌≡◌, refl, arith, ◌⊎◌, eq_iff, inl, inr,
  Option-cases, Result-cases, Bool-cases, ◌+◌, ap,
}
use istio_oidc.Common.Map.{GoMap, get-remove}
use istio_oidc.Api.{ApiAccessPolicy}
use istio_oidc.Api.Provider.{match_provider}
use istio_oidc.OpenId.Chars.{text_length}
use istio_oidc.OpenId.Provider.{OpenIdProvider, ApiOpenIdProvider, new_provider}
use istio_oidc.AccessPolicy.{AccessPolicy, new_policy, update_policy, delete_policy, find}
use istio_oidc.Worker.{
  Cluster, Worker, Fetched, found, not_found, failed, event, with_provider, store_policy,
  make_policy, read_credentials, reconcile_auth, delete_auth,
}

-- The policy that a resource, a provider's resource and a secret make was stored.
abbrev pub IsStored :
    Cluster → ApiAccessPolicy → ApiOpenIdProvider → GoMap String → Worker → Worker → Type 0
IsStored k ap op cred w w' =
    (pol : AccessPolicy) × (provider : OpenIdProvider) × (new_policy k.net ap (some cred) ≡ ok pol)
    × (new_provider k.tables k.configuration op ≡ ok provider)
    × (w' ≡ record w { store = update_policy (with_provider provider pol) w.store })

abbrev pub IsReported : Worker → Worker → Type 0
IsReported w w' = (reason : String) × (w' ≡ event reason w)

Fetched-cases :
    {A : Type 0} (r : Fetched A) → ((a : A) × (r ≡ found a)) ⊎ (r ≡ not_found) ⊎ (r ≡ failed)
Fetched-cases (found a) = inl (a, refl)
Fetched-cases not_found = inr (inl refl)
Fetched-cases failed = inr (inr refl)

one_slash : text_length "/" ≡ 1
one_slash = refl

make_policy_outcome :
    (k : Cluster) (ap : ApiAccessPolicy) (op : ApiOpenIdProvider) (cred : GoMap String)
    (w w' : Worker)
    → make_policy k ap op cred w ≡ ok w'
    → IsReported w w' ⊎ IsStored k ap op cred w w'
unfolding make_policy store_policy
make_policy_outcome k ap op cred w w' h = elim (Result-cases (new_policy k.net ap (some cred))) [
  | inl (pol, e) ↦ elim (Result-cases (new_provider k.tables k.configuration op)) [
    | inl (provider, f) ↦ inr (pol, provider, e, f, ground (arith, e, f, h))
    | inr (inl (_, f)) ↦ inl ("Invalid", ground (arith, e, f, h))
    | inr (inr f) ↦ absurd (ground (arith, e, f, h))
  ]
  | inr (inl (_, e)) ↦ inl ("Invalid", ground (arith, e, h))
  | inr (inr e) ↦ absurd (ground (arith, e, h))
]

read_credentials_outcome :
    (k : Cluster) (ap : ApiAccessPolicy) (r : Fetched ApiOpenIdProvider) (w w' : Worker)
    → read_credentials k ap r w ≡ ok w'
    → IsReported w w'
      ⊎ ((op : ApiOpenIdProvider) × (cred : GoMap String) × (r ≡ found op)
          × (k.secrets ap.namespace ap.spec.oidc.credentials_secret.name ≡ found cred)
          × IsStored k ap op cred w w')
unfolding read_credentials
read_credentials_outcome k ap (found op) w w' h =
    elim (Fetched-cases (k.secrets ap.namespace ap.spec.oidc.credentials_secret.name)) [
      | inl (cred, e) ↦ elim (make_policy_outcome k ap op cred w w' (ground (arith, e, h))) [
        | inl reported ↦ inl reported
        | inr stored ↦ inr (op, cred, refl, e, stored)
      ]
      | inr (inl e) ↦ inl ("MissingCredentials", ground (arith, e, h))
      | inr (inr e) ↦ inl ("MissingCredentials", ground (arith, e, h))
    ]
read_credentials_outcome k ap not_found w w' h = inl ("MissingProvider", ground (arith, h))
read_credentials_outcome k ap failed w w' h = inl ("MissingProvider", ground (arith, h))

-- A reconciliation of a policy that is not being deleted, where it returns, either leaves the store as
-- it is and records one event, or records none and stores the policy that the resource makes with the
-- secret of its own namespace and with the provider that its reference names, where a reference
-- without a namespace means the policy's own.
pub reconcile_auth_outcome :
    (k : Cluster) (ap : ApiAccessPolicy) (w w' : Worker)
    → reconcile_auth k ap w ≡ ok w'
    → IsReported w w'
      ⊎ ((groups : String × String) × (op : ApiOpenIdProvider) × (cred : GoMap String)
          × (match_provider ap.spec.oidc.provider ≡ some groups)
          × (k.providers (if groups.0 == "" then ap.namespace else groups.0) groups.1 ≡ found op)
          × (k.secrets ap.namespace ap.spec.oidc.credentials_secret.name ≡ found cred)
          × IsStored k ap op cred w w')
unfolding reconcile_auth
reconcile_auth_outcome k ap w w' h = elim (Option-cases (match_provider ap.spec.oidc.provider)) [
  | inl e ↦ inl ("InvalidProvider", ground (arith, e, h))
  | inr (groups, e) ↦
      let key = if groups.0 == "" then ap.namespace else groups.0 in
      elim (read_credentials_outcome k ap (k.providers key groups.1) w w' (ground (arith, e, h))) [
        | inl reported ↦ inl reported
        | inr (op, cred, f, g, stored) ↦ inr (groups, op, cred, e, f, g, stored)
      ]
]

text_length-append : (s t : String) → text_length (s ++ t) ≡ text_length s + text_length t
text_length-append [] t = rw (nil-append t) (omega arith)
text_length-append (c ∷ s) t = rw cons-append (omega (arith, text_length-append s t))

pub slash-longer : (ns name : String) → (name == (ns ++ ("/" ++ name))) ≡ false
slash-longer ns name = elim (Bool-cases (name == (ns ++ ("/" ++ name)))) [
  | inr e ↦ e
  | inl e ↦ absurd (
      omega (
        arith,
        ap text_length ((eq_iff name (ns ++ ("/" ++ name))).0 e),
        text_length-append ns ("/" ++ name),
        text_length-append "/" name,
        one_slash,
      ))
]

-- A policy that is deleted stays in the store: policies are stored under `namespace/name`, and the
-- deletion is of `name`, so that the store still finds the policy it found before.
pub delete_auth-find :
    (ap : ApiAccessPolicy) (w : Worker)
    → find (ap.namespace ++ ("/" ++ ap.name)) (delete_auth ap w).store
      ≡ find (ap.namespace ++ ("/" ++ ap.name)) w.store
unfolding delete_auth find delete_policy
delete_auth-find ap w =
    rw
      (
        get-remove ap.name (ap.namespace ++ ("/" ++ ap.name)) w.store.dict,
        slash-longer ap.namespace ap.name,
      )
      refl
