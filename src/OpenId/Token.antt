-- ===== src/OpenId/Token.antt =====
-- state/openidprovider/token.go: the subject, the expiry and the roles that the tokens of a login give.
pub mod Verified
pub mod Granted
use istio_oidc.Common.{
  ℕ, String, ◌≡◌, Bool, true, false, List, [], ◌∷◌, ◌++◌, Option, none, some, Result, ok, err,
  panic, ◌>>=◌, wrap, or_err, or_else, if◌then◌else◌,
}
use istio_oidc.Common.Map
use istio_oidc.Common.Map.{GoMap}
use istio_oidc.OpenId.Roles.{Json, text, object, Fields, member, extract_roles}
use istio_oidc.OpenId.Provider.{From, access_token, id_token, RoleMapping, OpenIdProvider}

-- The parts of go-jose, net/http and strconv that this package calls. `std_claims` and `json_claims`
-- check the signature by the keys, `unsafe_claims` does not; `validate` is `ValidateWithLeeway` at a
-- time with no leeway, true where it answers no error; `expiry_time` is `Expiry.Time()`.
pub record Jose : Type 1 where
  pub Float : Type 0
  pub Jws : Type 0
  pub Keys : Type 0
  pub Claims : Type 0
  pub format : Float → String
  pub fetch_keys : String → Result Keys
  pub parse_signed : String → Option Jws
  pub std_claims : Jws → Keys → Option Claims
  pub json_claims : Jws → Keys → Option (Fields Float)
  pub unsafe_claims : Jws → Option Claims
  pub validate : Claims → ℕ → Bool
  pub expiry_time : Claims → ℕ

-- `oauth2.Token`; `id_token` is `Extra("id_token")`, where it is a string.
pub record OAuth2Token : Type 0 where
  pub access : String
  pub refresh : String
  pub id : Option String
  pub expiry : ℕ

pub record TokenData : Type 0 where
  pub subject : String
  pub expiry : ℕ
  pub roles : GoMap (List String)

-- A type assertion without `ok`: a panic, where the value is no string.
abbrev pub asserted : Option String → Result String
asserted none = panic
asserted (some s) = ok s

-- `roles[prefix] = append(roles[prefix], extracted...)`
unfoldable pub add_roles : String → List String → GoMap (List String) → GoMap (List String)
add_roles prefix extracted roles =
    Map.put prefix (or_else (Map.get prefix roles) [] ++ extracted) roles

module _ (j : Jose) where
  open j use {
    Float, Jws, Keys, Claims, format, fetch_keys, parse_signed, std_claims, json_claims,
    unsafe_claims, validate, expiry_time,
  }

  unfoldable pub claims : String → Keys → ℕ → Result (Fields Float)
  claims tok jwks now = or_err "failed parsing token" (parse_signed tok) >>= λ parsed.
      or_err "failed deserializing default claims" (std_claims parsed jwks) >>= λ def.
      if validate def now
      then or_err "failed deserializing custom claims" (json_claims parsed jwks)
      else err "failed validating token"

  unfoldable pub claims_unsafe : String → Result Claims
  claims_unsafe tok = or_err "failed parsing token" (parse_signed tok) >>= λ parsed.
      or_err "failed deserializing claims" (unsafe_claims parsed)

  -- The claims that a mapping reads.
  abbrev pub source : From → Fields Float → Fields Float → Fields Float
  source access_token at idt = at
  source id_token at idt = idt

  unfoldable pub collect_roles :
      Fields Float
      → Fields Float
      → List RoleMapping
      → GoMap (List String)
      → Result (GoMap (List String))
  collect_roles at idt [] roles = ok roles
  collect_roles at idt (rm ∷ maps) roles =
      wrap "failed extracting roles" (extract_roles format rm.path (object (source rm.from at idt)))
      >>= λ extracted. collect_roles at idt maps (add_roles rm.prefix extracted roles)

  -- `sub, _ := idt["sub"].(string)`
  unfoldable pub subject_of : Option (Json Float) → String
  subject_of (some (text s)) = s
  subject_of _ = ""

  -- The clock is read once for each of the two verified tokens.
  unfoldable pub extract_token_data : OpenIdProvider → OAuth2Token → ℕ → ℕ → Result TokenData
  extract_token_data op tok now later =
      wrap "unable to retrieve JWKs" (fetch_keys op.cfg.jwks_uri) >>= λ jwks.
      wrap "unable to get access token claims" (claims tok.access jwks now) >>= λ at.
      wrap "unable to get refresh token claims" (claims_unsafe tok.refresh) >>= λ rt.
      asserted tok.id >>= λ raw.
      wrap "unable to get ID token claims" (claims raw jwks later) >>= λ idt.
      collect_roles at idt op.maps [] >>= λ roles.
      ok
        (record { subject = subject_of (member "sub" idt); expiry = expiry_time rt; roles = roles })
