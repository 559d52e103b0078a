-- ===== src/OpenId/Roles/Walk.antt =====
-- What `extractRoles` answers, by where its path leads in the claims.
use istio_oidc.Common.{
  String, ◌≡◌, refl, ◌⊎◌, inl, inr, List, [], ◌∷◌, none, some, ok, err, Option-cases,
}
use istio_oidc.OpenId.Roles.{
  Json, null, boolean, number, text, array, object, Fields, member, convert, extract_roles,
}

abbrev IsObject : {Float : Type 0} → Json Float → Type 0
IsObject (object fs) = Unit
IsObject _ = ⊥

module _ {Float : Type 0} where
  -- The path leads through objects to a value.
  pub data Finds : List String → Json Float → Json Float → Type 0 where
    at :
        {id : String} {dict : Fields Float} {v : Json Float}
        → member id dict ≡ some v
        → Finds (id ∷ []) (object dict) v
    below :
        {id next : String} {rest : List String} {dict : Fields Float} {obj v : Json Float}
        → member id dict ≡ some obj
        → Finds (next ∷ rest) obj v
        → Finds (id ∷ (next ∷ rest)) (object dict) v

  -- The path leads through objects to one that has no such member.
  pub data Misses : List String → Json Float → Type 0 where
    at :
        {id : String} {rest : List String} {dict : Fields Float}
        → member id dict ≡ none
        → Misses (id ∷ rest) (object dict)
    below :
        {id next : String} {rest : List String} {dict : Fields Float} {obj : Json Float}
        → member id dict ≡ some obj
        → Misses (next ∷ rest) obj
        → Misses (id ∷ (next ∷ rest)) (object dict)

  -- The path leads to a value that is no object, and goes on.
  pub data Stuck : List String → Json Float → Type 0 where
    at :
        {id : String} {rest : List String} {obj : Json Float}
        → ¬ IsObject obj
        → Stuck (id ∷ rest) obj
    below :
        {id next : String} {rest : List String} {dict : Fields Float} {obj : Json Float}
        → member id dict ≡ some obj
        → Stuck (next ∷ rest) obj
        → Stuck (id ∷ (next ∷ rest)) (object dict)

  module _ (format : Float → String) where
    abbrev pub Outcome : List String → Json Float → Type 0
    Outcome path obj =
        ((v : Json Float) × Finds path obj v × (extract_roles format path obj ≡ convert format v))
        ⊎ (Misses path obj × (extract_roles format path obj ≡ ok []))
        ⊎ (Stuck path obj × (extract_roles format path obj ≡ err "unexpected value"))

    -- `extractRoles` answers the roles of the value that the path leads to; no role, where a member is
    -- missing on the way; and an error, where the path goes on at a value that is no object. One of the
    -- three is so for every path but the empty one.
    pub extract_roles-Outcome :
        (id : String) (path : List String) (obj : Json Float) → Outcome (id ∷ path) obj
    unfolding extract_roles
    extract_roles-Outcome id path null = inr (inr (at (λ h. h), refl))
    extract_roles-Outcome id path (boolean b) = inr (inr (at (λ h. h), refl))
    extract_roles-Outcome id path (number n) = inr (inr (at (λ h. h), refl))
    extract_roles-Outcome id path (text s) = inr (inr (at (λ h. h), refl))
    extract_roles-Outcome id path (array xs) = inr (inr (at (λ h. h), refl))
    extract_roles-Outcome id [] (object dict) = elim (Option-cases (member id dict)) [
      | inl e ↦ inr (inl (at e, rw (e, extract_roles)))
      | inr (obj, e) ↦ inl (obj, at e, rw (e, extract_roles))
    ]
    extract_roles-Outcome id (next ∷ rest) (object dict) = elim (Option-cases (member id dict)) [
      | inl e ↦ inr (inl (at e, rw (e, extract_roles)))
      | inr (obj, e) ↦ elim (extract_roles-Outcome next rest obj) [
        | inl (v, f, q) ↦ inl (v, below e f, rw (e, extract_roles) q)
        | inr (inl (m, q)) ↦ inr (inl (below e m, rw (e, extract_roles) q))
        | inr (inr (s, q)) ↦ inr (inr (below e s, rw (e, extract_roles) q))
      ]
    ]
