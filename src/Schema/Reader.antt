-- ===== src/Schema/Reader.antt =====
-- ParseParameterSchemaFromJson of src/routing/ParameterSchema.cpp. The caller's schema may hold
-- anything in the fields that the text does not give, so it is an argument.
use rest_api_gateway.Prelude.{
  ℕ, zero, suc, ◌+◌, ◌-◌, ◌%◌, ◌^◌, Bool, false, List, [], ◌∷◌, ◌++◌, Option, none, some, Bytes,
  codes, ◌=s=◌, if◌then◌else◌,
}
use rest_api_gateway.Prelude.Int.{ℤ, pos, negsuc}
use rest_api_gateway.Runtime.{Runtime}
use rest_api_gateway.Json.{
  JsonValue, is_object, is_array, has_member, get_member, get_string, get_integer, get_boolean,
  get_array_size, get_array_element,
}
use rest_api_gateway.Json.Parser.{Result, ok, failed, threw, out_of_fuel, parse}
use rest_api_gateway.Schema.{
  ParameterType, ParameterLocation, ParameterConstraints, ParameterSchema, is_valid_schema,
}

abbrev type_named : Bytes → ParameterType → ParameterType
type_named t old =
    if t =s= codes "string"
    then ParameterType.string
    else if t =s= codes "integer"
    then ParameterType.integer
    else if t =s= codes "float"
    then ParameterType.float
    else if t =s= codes "boolean"
    then ParameterType.boolean
    else if t =s= codes "object"
    then ParameterType.object
    else if t =s= codes "array"
    then ParameterType.array
    else old

abbrev location_named : Bytes → ParameterLocation → ParameterLocation
location_named t old =
    if t =s= codes "path"
    then ParameterLocation.path
    else if t =s= codes "query"
    then ParameterLocation.query
    else if t =s= codes "header"
    then ParameterLocation.header
    else if t =s= codes "body"
    then ParameterLocation.body
    else old

abbrev when_member {ℓ} : {A : Type ℓ} → JsonValue → Bytes → (JsonValue → A) → A → A
when_member j k read old = if has_member j k then read (get_member j k) else old

-- static_cast<uint32_t> of an int64_t
abbrev word_of : ℤ → ℕ
word_of (pos n) = n % 2 ^ 32
word_of (negsuc n) = (2 ^ 64 - suc n) % 2 ^ 32

-- The loop over the allowed values, with so many left to read.
unfoldable pub push_allowed : ℕ → ℕ → JsonValue → List Bytes → List Bytes
push_allowed zero i j values = values
push_allowed (suc left) i j values =
    push_allowed left (i + 1) j (values ++ get_string (get_array_element j i) ∷ [])

abbrev read_allowed : JsonValue → List Bytes → List Bytes
read_allowed j values = if is_array j then push_allowed (get_array_size j) 0 j values else values

unfoldable pub read_constraints : JsonValue → ParameterConstraints → ParameterConstraints
read_constraints j c =
    if is_object j
    then record c {
      min_value = when_member j (codes "min_value") (λ v. some (get_integer v)) c.min_value;
      max_value = when_member j (codes "max_value") (λ v. some (get_integer v)) c.max_value;
      min_length =
          when_member j (codes "min_length") (λ v. some (word_of (get_integer v))) c.min_length;
      max_length =
          when_member j (codes "max_length") (λ v. some (word_of (get_integer v))) c.max_length;
      regex_pattern = when_member j (codes "pattern") (λ v. some (get_string v)) c.regex_pattern;
      allowed_values =
          when_member j (codes "allowed_values") (λ v. read_allowed v c.allowed_values)
            c.allowed_values;
    }
    else c

unfoldable pub read_schema : JsonValue → ParameterSchema → ParameterSchema
unfolding read_constraints
read_schema j s = record {
  name = when_member j (codes "name") get_string s.name;
  parameter_type =
      when_member j (codes "type") (λ v. type_named (get_string v) s.parameter_type)
        s.parameter_type;
  location =
      when_member j (codes "location") (λ v. location_named (get_string v) s.location) s.location;
  is_required = when_member j (codes "required") get_boolean false;
  description = when_member j (codes "description") get_string s.description;
  default_value = when_member j (codes "default") get_string s.default_value;
  constraints =
      when_member j (codes "constraints") (λ v. read_constraints v s.constraints) s.constraints;
}

-- The schema that is left, and the result; none is an exception.
abbrev schema_of : ParameterSchema → Result JsonValue → Option (ParameterSchema × Bool)
schema_of s (ok j) =
    some (if is_object j then (read_schema j s, is_valid_schema (read_schema j s)) else (s, false))
schema_of s (failed message rest) = some (s, false)
schema_of s threw = none
schema_of s out_of_fuel = none

unfoldable pub parse_parameter_schema_from_json :
    Runtime → Bytes → ParameterSchema → Option (ParameterSchema × Bool)
unfolding read_schema
parse_parameter_schema_from_json rt json s = schema_of s (parse rt json)
