-- ===== src/Errors/Examples.antt =====
-- An error that was wrapped twice.
use istio_oidc.Common.{[], ◌∷◌, some, ok, ◌≡◌, refl}
use istio_oidc.Common.Map
use istio_oidc.Errors.{
  text, Error, foreign, caused, wrap_error, mk_fields, error_text, put_all, error_fields,
}

abbrev twice : Error
twice =
    caused "" (("url", text "http://b") ∷ [])
      (caused "communication error" (("url", text "http://a") ∷ []) (foreign "refused"))

twice_made :
    wrap_error
      (some (caused "communication error" (("url", text "http://a") ∷ []) (foreign "refused")))
      ""
      (text "url" ∷ (text "http://b" ∷ []))
    ≡ ok (some twice)
unfolding wrap_error mk_fields Map.put
twice_made = refl

twice_text : error_text twice ≡ "communication error: refused"
unfolding error_text
twice_text = refl

twice_field : Map.get "url" (error_fields twice) ≡ some (text "http://b")
unfolding error_fields put_all Map.get Map.put
twice_field = refl
