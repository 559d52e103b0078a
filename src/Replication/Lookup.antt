-- ===== src/Replication/Lookup.antt =====
-- replication/lookup.go: the endpoints of the other peers, in the three modes.
use istio_oidc.Common.{
  ℕ, String, false, not, List, [], ◌∷◌, ◌++◌, select, Option, Result, ok, err, panic, ◌>>=◌, or_err,
  if◌then◌else◌, ◌==◌, ◌≡◌, arith, All, Bool-cases, inl, inr, >>=-eq-ok, subst,
}

-- The answer of `LookupSRV`: targets with their ports, "not found", or another error.
pub data SrvAnswer : Type 0 where
  srv_records : List (String × ℕ) → SrvAnswer
  srv_not_found : SrvAnswer
  srv_failed : SrvAnswer

-- The configuration, and the resolver's answers; `endpoint` is the format `%s:%d`.
pub record Settings : Type 0 where
  pub mode : String
  pub advertise_address : String
  pub static_peers : List String
  pub domain : String
  pub lookup_srv : SrvAnswer
  pub lookup_ip : String → Option (List String)
  pub endpoint : String → ℕ → String

-- Every endpoint but this peer's own.
abbrev pub others : Settings → List String → List String
others c eps = select (λ ep. not (ep == c.advertise_address)) eps

-- `staticEndpoints.lookupEndpoints`
unfoldable pub static_endpoints : Settings → List String
static_endpoints c = others c c.static_peers

-- The inner loop of `dnsEndpoints.lookupEndpoints`.
unfoldable pub endpoints_of : Settings → ℕ → List String → List String
endpoints_of c port [] = []
endpoints_of c port (ip ∷ ips) =
    let rest = endpoints_of c port ips in
    let ep = c.endpoint ip port in if ep == c.advertise_address then rest else ep ∷ rest

unfoldable pub resolve_all : Settings → List (String × ℕ) → Result (List String)
unfolding endpoints_of
resolve_all c [] = ok []
resolve_all c ((target, port) ∷ srvs) =
    let rest = resolve_all c srvs in
    or_err "failed resolving endpoint" (c.lookup_ip target) >>= λ ips.
    rest >>= λ eps. ok (endpoints_of c port ips ++ eps)

unfoldable pub dns_endpoints : Settings → SrvAnswer → Result (List String)
unfolding resolve_all
dns_endpoints c (srv_records srvs) = resolve_all c srvs
dns_endpoints c srv_not_found = ok []
dns_endpoints c srv_failed = err "failed looking up endpoints"

-- `newEndpointLookup` and the lookup of the mode; another mode is a panic.
unfoldable pub lookup_endpoints : Settings → Result (List String)
unfolding static_endpoints dns_endpoints
lookup_endpoints c =
    if c.mode == "static"
    then ok (static_endpoints c)
    else if c.mode == "dns"
    then dns_endpoints c c.lookup_srv
    else if c.mode == "none"
    then ok []
    else panic

unfoldable pub authority : Settings → String → String
authority c ep = if c.mode == "static" then ep else if c.mode == "dns" then c.domain else ""

-- None of the endpoints is this peer's own.
abbrev pub AreOthers : Settings → List String → Type 0
AreOthers c eps = All (λ ep. (ep == c.advertise_address) ≡ false) eps

select-AreOthers : (c : Settings) (eps : List String) → AreOthers c (others c eps)
select-AreOthers c [] = tt
select-AreOthers c (ep ∷ eps) = ground (arith, select-AreOthers c eps)

AreOthers-append :
    (c : Settings) (xs ys : List String) → AreOthers c xs → AreOthers c ys → AreOthers c (xs ++ ys)
AreOthers-append c [] ys h k = k
AreOthers-append c (x ∷ xs) ys h k = (h.0, AreOthers-append c xs ys h.1 k)

endpoints_of-AreOthers :
    (c : Settings) (port : ℕ) (ips : List String) → AreOthers c (endpoints_of c port ips)
unfolding endpoints_of
endpoints_of-AreOthers c port [] = tt
endpoints_of-AreOthers c port (ip ∷ ips) = ground (arith, endpoints_of-AreOthers c port ips)

-- What a result that may be a list is known to hold.
abbrev OthersOf : Settings → Result (List String) → Type 0
OthersOf c (ok eps) = AreOthers c eps
OthersOf c (err e) = Unit
OthersOf c panic = Unit

resolve_all-OthersOf :
    (c : Settings) (srvs : List (String × ℕ)) (eps : List String)
    → resolve_all c srvs ≡ ok eps
    → AreOthers c eps
unfolding resolve_all
resolve_all-OthersOf c [] eps h = subst (OthersOf c) h tt
resolve_all-OthersOf c ((target, port) ∷ srvs) eps h =
    let (ips, _, h') = >>=-eq-ok (or_err "failed resolving endpoint" (c.lookup_ip target)) _ h in
    let (rest, e, h'') = >>=-eq-ok (resolve_all c srvs) _ h' in
    subst (OthersOf c) h'' (
      AreOthers-append c (endpoints_of c port ips) rest (endpoints_of-AreOthers c port ips)
        (resolve_all-OthersOf c srvs rest e))

dns_endpoints-AreOthers :
    (c : Settings) (a : SrvAnswer) (eps : List String)
    → dns_endpoints c a ≡ ok eps
    → AreOthers c eps
unfolding dns_endpoints
dns_endpoints-AreOthers c (srv_records srvs) eps h = resolve_all-OthersOf c srvs eps h
dns_endpoints-AreOthers c srv_not_found eps h = subst (OthersOf c) h tt
dns_endpoints-AreOthers c srv_failed eps h = absurd (ground (arith, h))

-- In every mode the endpoints that a lookup finds are those of other peers: this peer never connects
-- to the address that it advertises.
pub lookup_endpoints-AreOthers :
    (c : Settings) (eps : List String) → lookup_endpoints c ≡ ok eps → AreOthers c eps
unfolding lookup_endpoints
lookup_endpoints-AreOthers c eps h = elim (Bool-cases (c.mode == "static")) [
  | inl e ↦
      let same : ok (static_endpoints c) ≡ ok eps = ground (arith, e, h) in
      subst (OthersOf c) same (select-AreOthers c c.static_peers)
  | inr e ↦ elim (Bool-cases (c.mode == "dns")) [
    | inl f ↦ dns_endpoints-AreOthers c c.lookup_srv eps (ground (arith, e, f, h))
    | inr f ↦ elim (Bool-cases (c.mode == "none")) [
      | inl g ↦ let same : ok [] ≡ ok eps = ground (arith, e, f, g, h) in subst (OthersOf c) same tt
      | inr g ↦ absurd (ground (arith, e, f, g, h))
    ]
  ]
]
