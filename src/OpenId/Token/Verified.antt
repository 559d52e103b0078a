-- ===== src/OpenId/Token/Verified.antt =====
-- Where token data comes from.
use istio_oidc.Common.{
  ℕ, String, ◌≡◌, true, Option, some, none, ok, err, wrap, or_err, >>=-eq-ok, wrap-eq-ok,
  or_err-eq-ok, arith, Bool-cases, inl, inr, if◌then◌else◌, List, [], subst, refl,
}
use istio_oidc.Common.Map.{GoMap, Distinct}
use istio_oidc.OpenId.Roles.{Fields, member}
use istio_oidc.OpenId.Provider.{OpenIdProvider}
use istio_oidc.OpenId.Token.Granted.{collect_roles-Distinct}
use istio_oidc.OpenId.Token.{
  Jose, OAuth2Token, TokenData, asserted, claims, claims_unsafe, extract_token_data, collect_roles,
  subject_of,
}

module _ (j : Jose) where
  open j use {
    Float, Jws, Keys, Claims, fetch_keys, parse_signed, std_claims, json_claims, unsafe_claims,
    validate, expiry_time,
  }

  -- The token is signed by one of the keys, valid at the time, and has these claims.
  abbrev pub IsVerified : String → Keys → ℕ → Fields Float → Type 0
  IsVerified tok jwks now fs =
      (parsed : Jws) × (def : Claims) × (parse_signed tok ≡ some parsed)
      × (std_claims parsed jwks ≡ some def)
      × (validate def now ≡ true)
      × (json_claims parsed jwks ≡ some fs)

  claims-IsVerified :
      (tok : String) (jwks : Keys) (now : ℕ) {fs : Fields Float}
      → claims j tok jwks now ≡ ok fs
      → IsVerified tok jwks now fs
  unfolding claims
  claims-IsVerified tok jwks now {fs} h =
      let (parsed, p, h') = >>=-eq-ok (or_err "failed parsing token" (parse_signed tok)) _ h in
      let (def, q, h'') =
        >>=-eq-ok (or_err "failed deserializing default claims" (std_claims parsed jwks)) _ h' in
      let (valid, claimed) = validated def parsed h'' in
      (parsed, def, or_err-eq-ok _ _ p, or_err-eq-ok _ _ q, valid, claimed)
    where
      validated :
          (def : Claims) (parsed : Jws)
          → (if validate def now
              then or_err "failed deserializing custom claims" (json_claims parsed jwks)
              else err "failed validating token")
            ≡ ok fs
          → (validate def now ≡ true) × (json_claims parsed jwks ≡ some fs)
      validated def parsed e = elim (Bool-cases (validate def now)) [
        | inl v ↦ (v, or_err-eq-ok "failed deserializing custom claims" _ (rw v at e))
        | inr v ↦ absurd (cc (rw v at e))
      ]

  -- Claims that are read from a token without a test of its signature.
  abbrev pub IsRead : String → Claims → Type 0
  IsRead tok def =
      (parsed : Jws) × (parse_signed tok ≡ some parsed) × (unsafe_claims parsed ≡ some def)

  claims_unsafe-IsRead :
      (tok : String) {def : Claims} → claims_unsafe j tok ≡ ok def → IsRead tok def
  unfolding claims_unsafe
  claims_unsafe-IsRead tok h =
      let (parsed, p, q) = >>=-eq-ok (or_err "failed parsing token" (parse_signed tok)) _ h in
      (parsed, or_err-eq-ok _ _ p, or_err-eq-ok _ _ q)

  asserted-eq-ok : (o : Option String) {s : String} → asserted o ≡ ok s → o ≡ some s
  asserted-eq-ok none q = ground arith
  asserted-eq-ok (some s) q = ground arith

  -- Where the data comes from: the subject from the claims `idt` of the ID token, the roles from those
  -- and the claims `at` of the access token, and the expiry from those of the refresh token.
  pub record IsDrawn (op : OpenIdProvider) (tok : OAuth2Token) (at idt : Fields Float)
      (d : TokenData) : Type 0 where
    pub subject : d.subject ≡ subject_of j (member "sub" idt)
    pub roles : collect_roles j at idt op.maps [] ≡ ok d.roles
    pub expiry : (rt : Claims) × IsRead tok.refresh rt × (d.expiry ≡ expiry_time rt)

  made_data :
      (op : OpenIdProvider) (tok : OAuth2Token) (at idt : Fields Float) (rt : Claims)
      (roles : GoMap (List String)) (d : TokenData)
      → collect_roles j at idt op.maps [] ≡ ok roles
      → IsRead tok.refresh rt
      → ok (record {
        subject = subject_of j (member "sub" idt);
        expiry = expiry_time rt;
        roles = roles;
      })
        ≡ ok d
      → IsDrawn op tok at idt d
  made_data op tok at idt rt roles d collected read e =
      subst (IsDrawn op tok at idt) (made e)
        (record { subject = refl; roles = collected; expiry = (rt, read, refl) })
    where
      made : {a b : TokenData} → ok a ≡ ok b → a ≡ b
      made q = cc

  -- The subject and the roles of token data come from the claims of an access token and an ID token
  -- that are both signed by a key of the provider's key set, and valid at the time of the check. Its
  -- expiry comes from the refresh token, whose signature is not tested.
  pub extract_token_data-IsVerified :
      (op : OpenIdProvider) (tok : OAuth2Token) (now later : ℕ) (d : TokenData)
      → extract_token_data j op tok now later ≡ ok d
      → (jwks : Keys) × (raw : String) × (at : Fields Float) × (idt : Fields Float) × (fetch_keys
            op.cfg.jwks_uri
          ≡ ok jwks)
        × (tok.id ≡ some raw)
        × IsVerified tok.access jwks now at
        × IsVerified raw jwks later idt
        × IsDrawn op tok at idt d
  unfolding extract_token_data
  extract_token_data-IsVerified op tok now later d h =
      let (jwks, a, h₁) = >>=-eq-ok (wrap _ (fetch_keys op.cfg.jwks_uri)) _ h in
      let (at, b, h₂) = >>=-eq-ok (wrap _ (claims j tok.access jwks now)) _ h₁ in
      let (rt, c, h₃) = >>=-eq-ok (wrap _ (claims_unsafe j tok.refresh)) _ h₂ in
      let (raw, e, h₄) = >>=-eq-ok (asserted tok.id) _ h₃ in
      let (idt, f, h₅) = >>=-eq-ok (wrap _ (claims j raw jwks later)) _ h₄ in
      let (roles, g, h₆) = >>=-eq-ok (collect_roles j at idt op.maps []) _ h₅ in
      (
        jwks,
        raw,
        at,
        idt,
        wrap-eq-ok _ _ a,
        asserted-eq-ok tok.id e,
        claims-IsVerified tok.access jwks now (wrap-eq-ok _ _ b),
        claims-IsVerified raw jwks later (wrap-eq-ok _ _ f),
        made_data op tok at idt rt roles d g (claims_unsafe-IsRead tok.refresh (wrap-eq-ok _ _ c))
            h₆,
      )

  -- The roles of token data are a Go map: each prefix is there once.
  pub extract_token_data-Distinct :
      (op : OpenIdProvider) (tok : OAuth2Token) (now later : ℕ) (d : TokenData)
      → extract_token_data j op tok now later ≡ ok d
      → Distinct d.roles
  extract_token_data-Distinct op tok now later d h =
      let (jwks, raw, at, idt, _, _, _, _, drawn) =
        extract_token_data-IsVerified op tok now later d h in
      collect_roles-Distinct j at idt op.maps [] d.roles tt drawn.roles
