-- ===== src/EnvoyFilter/Protobuf.antt =====
-- controller/envoyfilter/protobuf.go: the values of patches as protobuf messages, and the values that
-- envoyfilter.go makes.
use istio_oidc.Common.{String, Bool, true, Option, none, some}
use istio_oidc.EnvoyFilter.{PatchValue, named, ext_authz, check_settings, disabled}

mutual
  -- A value of `interface{}`, with the entries of a map in the order of the range. `other` is one that
  -- is no Boolean, no string and no map.
  pub data Value : Type 0 where
    flag : Bool → Value
    text : String → Value
    dict : Entries → Value
    other : Value

  pub data Entries : Type 0 where
    end : Entries
    entry : String → Value → Entries → Entries

mutual
  -- `ptypes.Value` and `ptypes.Struct`
  pub data ProtoValue : Type 0 where
    bool_value : Bool → ProtoValue
    string_value : String → ProtoValue
    struct_value : ProtoFields → ProtoValue

  pub data ProtoFields : Type 0 where
    no_fields : ProtoFields
    field : String → ProtoValue → ProtoFields → ProtoFields

abbrev pub with_fields : Option ProtoFields → Option ProtoValue
with_fields none = none
with_fields (some fields) = some (struct_value fields)

abbrev pub with_field : String → Option ProtoValue → Option ProtoFields → Option ProtoFields
with_field k (some v) (some fields) = some (field k v fields)
with_field k (some v) none = none
with_field k none fields = none

-- `newValue`, with `none` for its panic.
unfoldable mutual
  pub new_value : Value → Option ProtoValue
  new_value (flag b) = some (bool_value b)
  new_value (text s) = some (string_value s)
  new_value (dict m) = with_fields (new_fields m)
  new_value other = none

  pub new_fields : Entries → Option ProtoFields
  new_fields end = some no_fields
  new_fields (entry k v m) = with_field k (new_value v) (new_fields m)

-- `newStruct`: the assertion on the kind holds for a map.
unfoldable pub new_struct : Entries → Option ProtoFields
unfolding new_value new_fields
new_struct m = elim (new_value (dict m)) [
  | some (struct_value fields) ↦ some fields
  | some (bool_value b) ↦ none
  | some (string_value s) ↦ none
  | none ↦ none
]

abbrev single : String → Value → Entries
single k v = entry k v end

abbrev per_route_of : String → Value → Entries
per_route_of key v = single "typed_per_filter_config" (
    dict (
      single "envoy.filters.http.ext_authz" (
        dict (
          entry "@type"
            (text "type.googleapis.com/envoy.config.filter.http.ext_authz.v2.ExtAuthzPerRoute")
            (single key v)))))

-- `name`, `extAuthz` and `extAuthzPerRoute`: the value of a patch.
unfoldable pub value_of : PatchValue → Entries
value_of (named cluster) = single "name" (text cluster)
value_of (ext_authz cluster timeout) = entry "name" (text "envoy.filters.http.ext_authz") (
    single "typed_config" (
      dict (
        entry "@type" (text "type.googleapis.com/envoy.config.filter.http.ext_authz.v2.ExtAuthz") (
          single "grpc_service" (
            dict (
              entry "envoy_grpc" (dict (single "cluster_name" (text cluster)))
                (single "timeout" (text timeout))))))))
value_of (check_settings policy route) = per_route_of "check_settings" (
    dict (
      single "context_extensions"
        (dict (entry "accessPolicy" (text policy) (single "route" (text route))))))
value_of disabled = per_route_of "disabled" (flag true)
