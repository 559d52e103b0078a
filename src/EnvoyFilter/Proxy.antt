-- ===== src/EnvoyFilter/Proxy.antt =====
-- A proxy for the checks of envoy filters: what it sends of the settings of a route.
use istio_oidc.Common.{String, [], ◌∷◌, Option, none, some, ◌≡◌, refl, ap, ◌==◌, if◌then◌else◌}
use istio_oidc.Common.Map
use istio_oidc.Common.Map.{GoMap}
use istio_oidc.EnvoyFilter.Protobuf.{
  ProtoValue, bool_value, string_value, struct_value, ProtoFields, no_fields, field,
}
use istio_oidc.EnvoyFilter.Serving.{text_fields, IsSending}

-- The field of a message with a name.
abbrev get_field : String → ProtoFields → Option ProtoValue
get_field key no_fields = none
get_field key (field k v fields) = if k == key then some v else get_field key fields

-- The members of a field that is a message.
abbrev struct_in : Option ProtoValue → ProtoFields
struct_in (some (struct_value fields)) = fields
struct_in (some (bool_value b)) = no_fields
struct_in (some (string_value s)) = no_fields
struct_in none = no_fields

-- The texts of a message.
abbrev texts : ProtoFields → GoMap String
texts no_fields = []
texts (field k (string_value s) fields) = (k, s) ∷ texts fields
texts (field k (bool_value b) fields) = texts fields
texts (field k (struct_value m) fields) = texts fields

abbrev pub sent_of : ProtoFields → GoMap String
sent_of fields =
    let filters = struct_in (get_field "typed_per_filter_config" fields) in
    let settings = struct_in (get_field "envoy.filters.http.ext_authz" filters) in
    let checks = struct_in (get_field "check_settings" settings) in
    texts (struct_in (get_field "context_extensions" checks))

texts-text_fields : (m : GoMap String) → texts (text_fields m) ≡ m
texts-text_fields [] = refl
texts-text_fields ((k, s) ∷ m) = ap (λ t. (k, s) ∷ t) (texts-text_fields m)

pub sent_of-IsSending : IsSending sent_of
sent_of-IsSending extensions k distinct = ap (Map.get k) (texts-text_fields extensions)
