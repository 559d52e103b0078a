-- ===== src/EnvoyFilter/Wire.antt =====
-- The values of the patches on the wire.
use istio_oidc.Common.{
  String, Bool, true, false, Option, none, some, ◌≡◌, refl, ap, ◌&&◌, ◌⊎◌, inl, inr,
}
use mathlib.Core.Path.{ap₂}
use istio_oidc.EnvoyFilter.Protobuf.{
  Value, flag, text, dict, other, Entries, end, entry, ProtoValue, bool_value, string_value,
  struct_value, ProtoFields, no_fields, field, new_value, new_fields, new_struct, with_fields,
  with_field,
}

-- What a message says.
unfoldable mutual
  pub read_value : ProtoValue → Value
  read_value (bool_value b) = flag b
  read_value (string_value s) = text s
  read_value (struct_value fields) = dict (read_fields fields)

  pub read_fields : ProtoFields → Entries
  read_fields no_fields = end
  read_fields (field k v fields) = entry k (read_value v) (read_fields fields)

-- No value in it is of another kind.
unfoldable mutual
  pub is_plain : Value → Bool
  is_plain (flag b) = true
  is_plain (text s) = true
  is_plain (dict m) = are_plain m
  is_plain other = false

  pub are_plain : Entries → Bool
  are_plain end = true
  are_plain (entry k v m) = is_plain v && are_plain m

abbrev Written : Value → Option ProtoValue → Type 0
Written v none = is_plain v ≡ false
Written v (some p) = (is_plain v ≡ true) × (read_value p ≡ v)

abbrev AreWritten : Entries → Option ProtoFields → Type 0
AreWritten m none = are_plain m ≡ false
AreWritten m (some p) = (are_plain m ≡ true) × (read_fields p ≡ m)

with_fields-Written :
    (m : Entries) (o : Option ProtoFields) → AreWritten m o → Written (dict m) (with_fields o)
unfolding is_plain read_value
with_fields-Written m none h = h
with_fields-Written m (some p) h = (h.0, ap (λ x. dict x) h.1)

with_field-AreWritten :
    (k : String) (v : Value) (m : Entries) (a : Option ProtoValue) (b : Option ProtoFields)
    → Written v a
    → AreWritten m b
    → AreWritten (entry k v m) (with_field k a b)
unfolding are_plain read_fields
with_field-AreWritten k v m none b h g = rw h refl
with_field-AreWritten k v m (some p) none h g = rw (h.0, g) refl
with_field-AreWritten k v m (some p) (some q) h g =
    (rw (h.0, g.0) refl, ap₂ (λ x y. entry k x y) h.1 g.1)

mutual
  unfolding new_value new_fields is_plain are_plain read_value read_fields

  new_value-Written : (v : Value) → Written v (new_value v)
  new_value-Written (flag b) = (refl, refl)
  new_value-Written (text s) = (refl, refl)
  new_value-Written (dict m) = with_fields-Written m (new_fields m) (new_fields-AreWritten m)
  new_value-Written other = refl

  new_fields-AreWritten : (m : Entries) → AreWritten m (new_fields m)
  new_fields-AreWritten end = (refl, refl)
  new_fields-AreWritten (entry k v m) =
      with_field-AreWritten k v m (new_value v) (new_fields m) (new_value-Written v)
        (new_fields-AreWritten m)

new_struct-fields : (m : Entries) (o : Option ProtoFields) → new_fields m ≡ o → new_struct m ≡ o
unfolding new_struct new_value
new_struct-fields m none e = rw (e, new_struct) refl
new_struct-fields m (some p) e = rw (e, new_struct) refl

-- `newStruct` makes of a map the message that says the same, where all values in it, at any depth, are
-- Booleans, strings and maps. With a value of any other kind it is a panic.
pub new_struct_lem :
    (m : Entries)
    → ((fields : ProtoFields) × (new_struct m ≡ some fields)
        × (read_fields fields ≡ m)
        × (are_plain m ≡ true))
      ⊎ ((new_struct m ≡ none) × (are_plain m ≡ false))
new_struct_lem m = cases (new_fields m) refl (new_fields-AreWritten m)
  where
    cases :
        (o : Option ProtoFields)
        → new_fields m ≡ o
        → AreWritten m o
        → ((fields : ProtoFields) × (new_struct m ≡ some fields)
            × (read_fields fields ≡ m)
            × (are_plain m ≡ true))
          ⊎ ((new_struct m ≡ none) × (are_plain m ≡ false))
    cases none e h = inr (new_struct-fields m none e, h)
    cases (some p) e h = inl (p, new_struct-fields m (some p) e, h.1, h.0)
