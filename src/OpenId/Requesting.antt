-- ===== src/OpenId/Requesting.antt =====
-- state/openidprovider/request.go: a JSON document from a provider, and the provider that is made with its
-- configuration.
pub mod Made
mod Examples
use Prim.Native.String.{◌++◌}
use istio_oidc.Common.{
  String, Option, none, some, Result, ok, err, panic, ◌>>=◌, wrap, or_err, ◌≡◌, refl, >>=-eq-ok,
}
use istio_oidc.OpenId.Chars.{UnicodeTables}
use istio_oidc.OpenId.Provider.{
  OpenIdConfiguration, OpenIdProvider, ApiOpenIdProvider, convert_mappings, new_provider,
}

-- What is used of net/http and encoding/json: `NewRequestWithContext`, `Do`, and the decoder of a body,
-- each with nothing for an error.
pub record Http : Type 1 where
  pub Req : Type 0
  pub Body : Type 0
  pub new_request : String → Option Req
  pub send : Req → Option Body

module _ (http : Http) where
  -- `doJsonRequest`, with the decoder for the type of `data`.
  unfoldable pub do_json_request {ℓ} : {A : Type ℓ} → (http.Body → Option A) → String → Result A
  do_json_request decode url = or_err "failed preparing request" (http.new_request url) >>= λ req.
      or_err "communication error" (http.send req) >>= λ body.
      or_err "failed decoding JSON" (decode body)

  -- `New`, with its request.
  unfoldable pub fetch_provider :
      UnicodeTables
      → (http.Body → Option OpenIdConfiguration)
      → ApiOpenIdProvider
      → Result OpenIdProvider
  unfolding do_json_request new_provider
  fetch_provider u decode op = new_provider u (do_json_request decode) op
