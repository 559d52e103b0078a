-- ===== src/OpenId/Token/Granted.antt =====
-- The roles under each prefix, as the provider's mappings list them.
use istio_oidc.Common.{
  String, ◌≡◌, refl, sym, ap, ◌∙◌, List, [], ◌∷◌, ◌++◌, Result, ok, wrap, >>=-eq-ok, wrap-eq-ok,
  Bool-cases, inl, inr, if◌then◌else◌, ◌==◌, eq_iff, value_or, or_else, subst, append_assoc,
  append-nil,
}
use istio_oidc.Common.Map
use istio_oidc.Common.Map.{GoMap, Distinct, get-put, Distinct-put}
use istio_oidc.OpenId.Roles.{Fields, object, extract_roles}
use istio_oidc.OpenId.Provider.{RoleMapping}
use istio_oidc.OpenId.Token.{Jose, source, add_roles, collect_roles}

abbrev pub roles_of : GoMap (List String) → String → List String
roles_of roles p = or_else (Map.get p roles) []

roles_of-add_roles :
    (prefix : String) (extracted : List String) (roles : GoMap (List String)) (p : String)
    → roles_of (add_roles prefix extracted roles) p
      ≡ roles_of roles p ++ (if prefix == p then extracted else [])
unfolding add_roles
roles_of-add_roles prefix extracted roles p = elim (Bool-cases (prefix == p)) [
  | inl same ↦ rw same (
      ap (λ o. or_else o []) (get-put prefix p (roles_of roles prefix ++ extracted) roles)
      ∙ rw same (ap (λ q. roles_of roles q ++ extracted) ((eq_iff prefix p).0 same)))
  | inr other ↦ rw other (
      ap (λ o. or_else o []) (get-put prefix p (roles_of roles prefix ++ extracted) roles)
      ∙ rw other (sym (append-nil (roles_of roles p))))
]

module _ (j : Jose) (at idt : Fields j.Float) where
  -- The roles of a token are a Go map: each prefix is there once.
  pub collect_roles-Distinct :
      (maps : List RoleMapping) (roles out : GoMap (List String))
      → Distinct roles
      → collect_roles j at idt maps roles ≡ ok out
      → Distinct out
  unfolding collect_roles add_roles
  collect_roles-Distinct [] roles out d h = subst Distinct (ok_injective h) d
    where
      ok_injective : {a b : GoMap (List String)} → ok a ≡ ok b → a ≡ b
      ok_injective q = cc
  collect_roles-Distinct (rm ∷ maps) roles out d h =
      let (l, e, h') =
        >>=-eq-ok
          (wrap "failed extracting roles"
            (extract_roles j.format rm.path (object (source j rm.from at idt))))
          _ h in
      collect_roles-Distinct maps (add_roles rm.prefix l roles) out
        (Distinct-put rm.prefix _ roles d) h'

  -- What one mapping reads from its token.
  abbrev pub extracted : RoleMapping → Result (List String)
  extracted rm = extract_roles j.format rm.path (object (source j rm.from at idt))

  -- The roles of all mappings with this prefix, in the order of the mappings.
  pub granted : String → List RoleMapping → List String
  granted p [] = []
  granted p (rm ∷ maps) =
      (if rm.prefix == p then value_or [] (extracted rm) else []) ++ granted p maps

  collect_roles-granted :
      (maps : List RoleMapping) (roles out : GoMap (List String)) (p : String)
      → collect_roles j at idt maps roles ≡ ok out
      → roles_of out p ≡ roles_of roles p ++ granted p maps
  unfolding collect_roles granted
  collect_roles-granted [] roles out p h =
      ap (λ (r : Result (GoMap (List String))). roles_of (value_or [] r) p) (sym h)
      ∙ sym (append-nil _)
  collect_roles-granted (rm ∷ maps) roles out p h =
      let (l, e, h') = >>=-eq-ok (wrap _ (extracted rm)) _ h in
      collect_roles-granted maps (add_roles rm.prefix l roles) out p h'
      ∙ rw (roles_of-add_roles rm.prefix l roles p, wrap-eq-ok _ _ e)
          (append_assoc (roles_of roles p) _ (granted p maps))

  -- The roles that a token grants under a prefix are those that the provider's mappings with this
  -- prefix read from their tokens, in the order of the mappings.
  pub collect_roles_lem :
      (maps : List RoleMapping) (out : GoMap (List String)) (p : String)
      → collect_roles j at idt maps [] ≡ ok out
      → roles_of out p ≡ granted p maps
  collect_roles_lem maps out p h = collect_roles-granted maps [] out p h ∙ (unfold Map.get in refl)
