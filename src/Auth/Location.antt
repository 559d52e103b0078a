-- ===== src/Auth/Location.antt =====
-- The address as it is logged (auth/messages.go): when making it fails.
use istio_oidc.Common.{
  suc, ◌<◌, ◌≤◌, String, List, [], ◌∷◌, map, ok, panic, length, ◌≡◌, refl, arith, ◌↔◌, ◌≢◌, ◌⊎◌,
  inl, inr, ap,
}
use istio_oidc.Net.{Url, UrlLib}
use istio_oidc.Auth.Messages.{values, redact, replace, location}

redact_outcome :
    (codes states : List String)
    → ((redact codes states ≡ panic) × (length states < length codes))
      ⊎ ((xs : List String) × (redact codes states ≡ ok xs) × (length codes ≤ length states))
unfolding redact
redact_outcome [] states = inr (states, refl, omega arith)
redact_outcome (c ∷ codes) [] = inl (refl, omega arith)
redact_outcome (c ∷ codes) (s ∷ states) = elim (redact_outcome codes states) [
  | inl (e, less) ↦ inl (ground (arith, e), omega (arith, less))
  | inr (xs, e, le) ↦ inr ("-" ∷ xs, ground (arith, e), omega (arith, le))
]

length-map : (xs : List String) → length {A = String} (map (λ s. "-") xs) ≡ length xs
length-map [] = refl
length-map (x ∷ xs) = ap suc (length-map xs)

-- The address of a request cannot be logged, which is a run-time panic, if and only if its query has
-- more values for the code than for the state; otherwise there is an address.
pub location-panics_iff :
    (net : UrlLib) (url : Url)
    → (location net url ≡ panic)
      ↔ (length (values "state" (net.query url)) < length (values "code" (net.query url)))
unfolding location
location-panics_iff net url =
    let states = values "state" (net.query url) in
    let codes = values "code" (net.query url) in
    elim (redact_outcome codes (map (λ s. "-") states)) [
      | inl (e, less) ↦ (λ _. omega (arith, less, length-map states), λ _. ground (arith, e))
      | inr (xs, e, le) ↦ (
        λ h. absurd (ground (arith, e, h)),
        λ h. absurd (omega (arith, h, le, length-map states)),
      )
    ]

abbrev logged : UrlLib → Url → List String → Url
logged net url states = record url {
  raw_query = net.encode (replace "state" states (net.query url));
}

pub location_total :
    (net : UrlLib) (url : Url)
    → location net url ≢ panic
    → (loc : Url) × (location net url ≡ ok loc)
unfolding location
location_total net url h =
    elim (redact_outcome (values "code" (net.query url))
      (map (λ s. "-") (values "state" (net.query url)))) [
        | inl (e, _) ↦ absurd (ground (arith, e, h))
        | inr (xs, e, _) ↦ (logged net url xs, ground (arith, e))
      ]
