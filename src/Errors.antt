-- ===== src/Errors.antt =====
-- log/errors/wrapper.go: errors with fields and a cause. The rest of the development keeps an error's
-- message only.
mod Layers
mod Examples
use Prim.Native.String.{◌++◌}
use istio_oidc.Common.{
  String, List, [], ◌∷◌, Option, none, some, Result, ok, err, panic, ◌>>=◌, if◌then◌else◌, ◌==◌,
}
use istio_oidc.Common.Map
use istio_oidc.Common.Map.{GoMap}

-- An argument of type `interface{}`: a string, or another value with its text.
pub data Field : Type 0 where
  text : String → Field
  value : String → Field

-- `annotated`, with no cause or an error as its cause; and an error of another package, which has a
-- message and no fields.
pub data Error : Type 0 where
  foreign : String → Error
  annotated : String → GoMap Field → Error
  caused : String → GoMap Field → Error → Error

-- The loop of `mk` over the metadata, which is a panic where a key has no value or is no string.
unfoldable pub mk_fields : List Field → GoMap Field → Result (GoMap Field)
mk_fields [] fields = ok fields
mk_fields (k ∷ []) fields = panic
mk_fields (text k ∷ (v ∷ meta)) fields = mk_fields meta (Map.put k v fields)
mk_fields (value k ∷ (v ∷ meta)) fields = panic

-- `New`
unfoldable pub new_error : String → List Field → Result Error
unfolding mk_fields
new_error msg meta = mk_fields meta [] >>= λ fields. ok (annotated msg fields)

-- `Wrap`: no error stays none.
unfoldable pub wrap_error : Option Error → String → List Field → Result (Option Error)
unfolding mk_fields
wrap_error none msg meta = ok none
wrap_error (some e) msg meta = mk_fields meta [] >>= λ fields. ok (some (caused msg fields e))

-- `Error`
unfoldable pub error_text : Error → String
error_text (foreign msg) = msg
error_text (annotated msg fields) = msg
error_text (caused msg fields cause) =
    let rest = error_text cause in if msg == "" then rest else msg ++ (": " ++ rest)

-- The loop that copies the entries of a map into another.
unfoldable pub put_all : GoMap Field → GoMap Field → GoMap Field
put_all fields [] = fields
put_all fields ((k, v) ∷ m) = put_all (Map.put k v fields) m

-- `Fields`
unfoldable pub error_fields : Error → GoMap Field
unfolding put_all
error_fields (foreign msg) = []
error_fields (annotated msg fields) = put_all [] fields
error_fields (caused msg fields cause) = put_all (put_all [] (error_fields cause)) fields
