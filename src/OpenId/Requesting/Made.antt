-- ===== src/OpenId/Requesting/Made.antt =====
-- What a provider is made of.
use Prim.Native.String.{◌++◌}
use istio_oidc.Common.{
  String, List, [], ◌∷◌, Option, some, ok, wrap, or_err, ◌≡◌, refl, ap, subst, >>=-eq-ok,
  wrap-eq-ok, or_err-eq-ok,
}
use istio_oidc.OpenId.Chars.{UnicodeTables}
use istio_oidc.OpenId.Path.{Parsed, parse_role_path}
use istio_oidc.OpenId.Provider.{
  RoleMapping, ApiRoleMapping, OpenIdConfiguration, OpenIdProvider, ApiOpenIdProvider,
  from_str_to_const, parsed_path, convert_mapping, convert_mappings, new_provider,
}
use istio_oidc.OpenId.Requesting.{Http, do_json_request, fetch_provider}

ok_inj : {A : Type 0} {a b : A} → ok a ≡ ok b → a ≡ b
ok_inj e = cc

module _ (u : UnicodeTables) where
  -- A mapping of the resource that names a token and has a role path.
  pub record IsMapped (rm : ApiRoleMapping) (m : RoleMapping) : Type 0 where
    pub from : from_str_to_const rm.from ≡ some m.from
    pub prefix : m.prefix ≡ rm.prefix
    pub path : (rest : String) × (parse_role_path u rm.path ≡ Parsed.ok (m.path, rest))

  -- One for each, in their order.
  abbrev pub AreMapped : List ApiRoleMapping → List RoleMapping → Type 0
  AreMapped [] [] = Unit
  AreMapped (rm ∷ rms) (m ∷ ms) = IsMapped rm m × AreMapped rms ms
  AreMapped [] (m ∷ ms) = ⊥
  AreMapped (rm ∷ rms) [] = ⊥

  parsed_path-ok :
      (p : Parsed (List String × String)) (path : List String)
      → parsed_path p ≡ ok path
      → (rest : String) × (p ≡ Parsed.ok (path, rest))
  unfolding parsed_path
  parsed_path-ok (Parsed.ok (path', rest)) path e = (rest, ap (λ q. Parsed.ok (q, rest)) (ok_inj e))
  parsed_path-ok (Parsed.err e') path e = absurd (cc)
  parsed_path-ok Parsed.panic path e = absurd (cc)

  convert_mapping-IsMapped :
      (rm : ApiRoleMapping) (m : RoleMapping) → convert_mapping u rm ≡ ok m → IsMapped rm m
  unfolding convert_mapping
  convert_mapping-IsMapped rm m h =
      let (from, e, h') = >>=-eq-ok (or_err "invalid from" (from_str_to_const rm.from)) _ h in
      let (path, f, made) = >>=-eq-ok (parsed_path (parse_role_path u rm.path)) _ h' in
      subst (IsMapped rm) (ok_inj made) (record {
        from = or_err-eq-ok "invalid from" (from_str_to_const rm.from) e;
        prefix = refl;
        path = parsed_path-ok (parse_role_path u rm.path) path f;
      })

  convert_mappings-AreMapped :
      (rms : List ApiRoleMapping) (ms : List RoleMapping)
      → convert_mappings u rms ≡ ok ms
      → AreMapped rms ms
  unfolding convert_mappings
  convert_mappings-AreMapped [] ms h = subst (AreMapped []) (ok_inj h) tt
  convert_mappings-AreMapped (rm ∷ rms) ms h =
      let (m, e, h') = >>=-eq-ok (convert_mapping u rm) _ h in
      let (rest, f, made) = >>=-eq-ok (convert_mappings u rms) _ h' in
      subst (AreMapped (rm ∷ rms)) (ok_inj made)
        (convert_mapping-IsMapped rm m e, convert_mappings-AreMapped rms rest f)

module _ (http : Http) (decode : http.Body → Option OpenIdConfiguration) where
  -- The answer of the address has this document.
  abbrev pub IsAnswered : String → OpenIdConfiguration → Type 0
  IsAnswered url cfg =
      (req : http.Req) × (body : http.Body) × (http.new_request url ≡ some req)
      × (http.send req ≡ some body)
      × (decode body ≡ some cfg)

  do_json_request-IsAnswered :
      (url : String) (cfg : OpenIdConfiguration)
      → do_json_request http decode url ≡ ok cfg
      → IsAnswered url cfg
  unfolding do_json_request
  do_json_request-IsAnswered url cfg h =
      let (req, e, h') = >>=-eq-ok (or_err "failed preparing request" (http.new_request url)) _ h in
      let (body, f, g) = >>=-eq-ok (or_err "communication error" (http.send req)) _ h' in
      (
        req,
        body,
        or_err-eq-ok "failed preparing request" (http.new_request url) e,
        or_err-eq-ok "communication error" (http.send req) f,
        or_err-eq-ok "failed decoding JSON" (decode body) g,
      )

  -- A provider that is made of a resource has its namespace and name, the configuration that the
  -- issuer's well-known address answers, and one mapping for each of the resource's, in their order:
  -- with its prefix, the token that it names, and the names that its role path is parsed to.
  pub fetch_provider-IsMade :
      (u : UnicodeTables) (op : ApiOpenIdProvider) (p : OpenIdProvider)
      → fetch_provider http u decode op ≡ ok p
      → (p.name ≡ op.namespace ++ ("/" ++ op.name))
        × IsAnswered (op.issuer ++ "/.well-known/openid-configuration") p.cfg
        × AreMapped u op.role_mappings p.maps
  unfolding fetch_provider new_provider
  fetch_provider-IsMade u op p h =
      let url = op.issuer ++ "/.well-known/openid-configuration" in
      let fetched = do_json_request http decode url in
      let mapped = convert_mappings u op.role_mappings in
      let (cfg, e, h') = >>=-eq-ok (wrap "unable to fetch OIDC provider config" fetched) _ h in
      let (maps, f, made) = >>=-eq-ok (wrap "unable to parse role mappings" mapped) _ h' in
      let answered =
        do_json_request-IsAnswered url cfg
          (wrap-eq-ok "unable to fetch OIDC provider config" fetched e) in
      let each =
        convert_mappings-AreMapped u op.role_mappings maps
          (wrap-eq-ok "unable to parse role mappings" mapped f) in
      subst
        (λ (q : OpenIdProvider).
          (q.name ≡ op.namespace ++ ("/" ++ op.name))
          × IsAnswered url q.cfg
          × AreMapped u op.role_mappings q.maps)
        (ok_inj made) (refl, answered, each)
