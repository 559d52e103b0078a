-- ===== src/OpenId/Roles.antt =====
-- state/openidprovider/roles.go: the roles at a path in a token's claims.
pub mod Walk
use istio_oidc.Common.{
  String, Bool, true, false, List, [], ◌∷◌, Option, none, some, Result, ok, err, panic, ◌>>=◌,
  if◌then◌else◌, ◌==◌,
}

-- A decoded JSON value, an `interface{}`. `Float` stands for `float64`.
mutual
  pub data Json (Float : Type 0) : Type 0 where
    null : Json Float
    boolean : Bool → Json Float
    number : Float → Json Float
    text : String → Json Float
    array : Items Float → Json Float
    object : Fields Float → Json Float

  pub data Items (Float : Type 0) : Type 0 where
    nil : Items Float
    item : Json Float → Items Float → Items Float

  pub data Fields (Float : Type 0) : Type 0 where
    end : Fields Float
    field : String → Json Float → Fields Float → Fields Float

-- `dict[id]`
unfoldable pub member : {Float : Type 0} → String → Fields Float → Option (Json Float)
member id end = none
member id (field k v fs) = if k == id then some v else member id fs

-- `format` is `strconv.FormatFloat(val, 'f', -1, 64)`.
module _ {Float : Type 0} (format : Float → String) where
  unfoldable pub convert_value : Json Float → Result String
  convert_value (boolean true) = ok "true"
  convert_value (boolean false) = ok "false"
  convert_value (number n) = ok (format n)
  convert_value (text s) = ok s
  convert_value null = ok "null"
  convert_value (array xs) = err "unexpected value"
  convert_value (object fs) = err "unexpected value"

  unfoldable pub convert_slice : Items Float → Result (List String)
  convert_slice nil = ok []
  convert_slice (item el arr) =
      let rest = convert_slice arr in convert_value el >>= λ str. rest >>= λ strs. ok (str ∷ strs)

  unfoldable pub convert : Json Float → Result (List String)
  unfolding convert_value convert_slice
  convert (array arr) = convert_slice arr
  convert obj = convert_value obj >>= λ str. ok (str ∷ [])

  -- The end of the recursion in `extractRoles`: what the rest of the path says to do with a value.
  unfoldable pub extract_roles : List String → Json Float → Result (List String)
  extract_roles [] obj = err "empty path"
  extract_roles (id ∷ path) (object dict) = elim (member id dict) [
    | none ↦ ok []
    | some obj ↦ elim path [ [] ↦ convert obj | next ∷ rest ↦ extract_roles path obj ]
  ]
  extract_roles (id ∷ path) obj = err "unexpected value"
