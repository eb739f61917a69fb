-- ===== src/Endpoint/Reader.antt =====
-- ParseEndpointDefinitionFromJson of src/routing/EndpointDefinition.cpp. A schema that a parameter's
-- text is read into has the type and the location that its memory happens to hold; the read always
-- sets the flag of a required parameter.
use rest_api_gateway.Prelude.{
  ℕ, zero, suc, ◌+◌, Bool, true, false, [], Option, none, some, Bytes, codes, if◌then◌else◌,
}
use rest_api_gateway.Method.{string_to_http_method}
use rest_api_gateway.Runtime.{Runtime}
use rest_api_gateway.Json.{
  JsonValue, is_object, is_array, has_member, get_member, get_string, get_boolean, get_array_size,
  get_array_element, serialize,
}
use rest_api_gateway.Json.Parser.{Result, ok, failed, threw, out_of_fuel, parse}
use rest_api_gateway.Schema.{ParameterSchema, ParameterType, ParameterLocation}
use rest_api_gateway.Schema.Reader.{parse_parameter_schema_from_json}
use rest_api_gateway.Endpoint.{
  EndpointDefinition, new_builder, add_parameter_schema, build, is_valid_endpoint,
}

-- What the memory of the schemas holds, for each round of the loop.
abbrev pub Memory : Type 0
Memory = ℕ → ParameterType × ParameterLocation

abbrev fresh_schema : ParameterType × ParameterLocation → ParameterSchema
fresh_schema (type, location) = record {
  name = [];
  parameter_type = type;
  location = location;
  is_required = false;
  description = [];
  default_value = [];
  constraints = record {
    min_value = none;
    max_value = none;
    float_min_value = none;
    float_max_value = none;
    min_length = none;
    max_length = none;
    regex_pattern = none;
    allowed_values = [];
    min_array_items = none;
    max_array_items = none;
  };
}

abbrev when_field {ℓ} : {A : Type ℓ} → JsonValue → Bytes → (JsonValue → A) → A → A
when_field j k read old = if has_member j k then read (get_member j k) else old

abbrev add_read : Option (ParameterSchema × Bool) → EndpointDefinition → Option EndpointDefinition
add_read none e = none
add_read (some (s, true)) e = some (add_parameter_schema s e)
add_read (some (s, false)) e = some e

abbrev then_builder :
    Option EndpointDefinition
    → (EndpointDefinition → Option EndpointDefinition)
    → Option EndpointDefinition
then_builder none next = none
then_builder (some e) next = next e

-- The loop over the parameters: each is written as a text and read again.
unfoldable pub read_parameters :
    Runtime → Memory → ℕ → ℕ → JsonValue → EndpointDefinition → Option EndpointDefinition
read_parameters rt memory zero i j e = some e
read_parameters rt memory (suc left) i j e =
    then_builder
      (add_read
        (parse_parameter_schema_from_json rt (serialize rt (get_array_element j i))
          (fresh_schema (memory i)))
        e)
      (read_parameters rt memory left (i + 1) j)

abbrev read_array : Runtime → Memory → JsonValue → EndpointDefinition → Option EndpointDefinition
read_array rt memory j e =
    if is_array j then read_parameters rt memory (get_array_size j) 0 j e else some e

-- The setters of the builder.
unfoldable pub read_fields : JsonValue → EndpointDefinition
unfolding new_builder
read_fields j = record new_builder {
  path = when_field j (codes "path") get_string new_builder.path;
  method =
      when_field j (codes "method") (λ v. string_to_http_method (get_string v)) new_builder.method;
  description = when_field j (codes "description") get_string new_builder.description;
  requires_authentication =
      when_field j (codes "requires_auth") get_boolean new_builder.requires_authentication;
}

abbrev built : Option EndpointDefinition → Option (EndpointDefinition × Bool)
built none = none
built (some e) = some (build e, is_valid_endpoint (build e))

abbrev definition_of :
    Runtime → Memory → EndpointDefinition → Result JsonValue → Option (EndpointDefinition × Bool)
definition_of rt memory old (ok j) =
    if is_object j
    then built (
        when_field j (codes "parameters") (λ v. read_array rt memory v (read_fields j))
          (some (read_fields j)))
    else some (old, false)
definition_of rt memory old (failed message rest) = some (old, false)
definition_of rt memory old threw = none
definition_of rt memory old out_of_fuel = none

unfoldable pub parse_endpoint_definition_from_json :
    Runtime → Memory → Bytes → EndpointDefinition → Option (EndpointDefinition × Bool)
unfolding read_fields
parse_endpoint_definition_from_json rt memory json old = definition_of rt memory old (parse rt json)
