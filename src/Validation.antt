-- ===== src/Validation.antt =====
-- include/gateway/validation/ValidationEngine.h and src/validation/ValidationEngine.cpp.
pub mod Meets
pub mod Accepts
mod Tests
use rest_api_gateway.Prelude.{
  ℕ, Bool, true, false, not, ◌&&◌, ◌||◌, List, [], ◌∷◌, ◌++◌, Option, none, some, Bytes, codes,
  ◌=s=◌, if◌then◌else◌,
}
use rest_api_gateway.Prelude.Map.{lookup}
use rest_api_gateway.Decimal.{print_ℤ}
use rest_api_gateway.Runtime.{Runtime}
use rest_api_gateway.Schema.{ParameterSchema, ParameterType, ParameterLocation, validate_value}
use rest_api_gateway.Endpoint.{EndpointDefinition}
use rest_api_gateway.Http.{HttpRequest, to_lower_case}
use rest_api_gateway.Json.{
  JsonValue, null, boolean, integer, float, string, array, object, is_object, has_member,
  get_member,
}
use rest_api_gateway.Json.Parser.{Result, ok, failed, threw, out_of_fuel, parse}
use rest_api_gateway.Response.{quoted}

pub record ValidationError : Type 0 where
  pub parameter_name : Bytes
  pub error_message : Bytes
  pub provided_value : Bytes

pub record ValidationResult : Type 0 where
  pub is_valid : Bool
  pub errors : List ValidationError
  pub formatted_error_message : Bytes

-- The result of a check so far, with the vector of errors that it appends to.
pub record Validation : Type 0 where
  pub passed : Bool
  pub found : List ValidationError

-- `validation_threw` is an exception of the JSON parser.
pub data Validated (A : Type 0) : Type 0 where
  validated : A → Validated A
  validation_threw : Validated A

abbrev pub push_error : Option ValidationError → Validation → Validation
push_error none st = st
push_error (some e) st = record { passed = false; found = st.found ++ e ∷ [] }

-- A loop over schemas; `check` is its body.
unfoldable pub check_all :
    (ParameterSchema → Option ValidationError) → List ParameterSchema → Validation → Validation
check_all check [] st = st
check_all check (s ∷ schemas) st = check_all check schemas (push_error (check s) st)

abbrev pub missing : Bytes → ParameterSchema → Option ValidationError
missing message s =
    if s.is_required
    then some (record { parameter_name = s.name; error_message = message; provided_value = [] })
    else none

-- What ValidateParameterValue, which is ValidateValue, says of a value.
abbrev pub value_error : ParameterSchema → Bytes → Option Bytes → Option ValidationError
value_error s v none = none
value_error s v (some message) =
    some (record { parameter_name = s.name; error_message = message; provided_value = v })

abbrev pub check_found : Runtime → Bytes → ParameterSchema → Option Bytes → Option ValidationError
check_found rt message s none = missing message s
check_found rt message s (some v) = value_error s v (validate_value rt s v)

abbrev pub starting : List ValidationError → Validation
starting errors = record { passed = true; found = errors }

abbrev pub is_path : ParameterLocation → Bool
is_path ParameterLocation.path = true
is_path _ = false

abbrev pub is_query : ParameterLocation → Bool
is_query ParameterLocation.query = true
is_query _ = false

abbrev pub is_header : ParameterLocation → Bool
is_header ParameterLocation.header = true
is_header _ = false

abbrev pub is_body : ParameterLocation → Bool
is_body ParameterLocation.body = true
is_body _ = false

abbrev pub check_path : Runtime → HttpRequest → ParameterSchema → Option ValidationError
check_path rt r s =
    if is_path s.location
    then check_found rt (codes "Required path parameter is missing") s
        (lookup s.name r.path_parameters)
    else none

unfoldable pub validate_path_parameters :
    Runtime → HttpRequest → EndpointDefinition → List ValidationError → Validation
validate_path_parameters rt r e errors =
    check_all (check_path rt r) e.parameter_schemas (starting errors)

abbrev pub check_query : Runtime → HttpRequest → ParameterSchema → Option ValidationError
check_query rt r s =
    if is_query s.location
    then check_found rt (codes "Required query parameter is missing") s
        (lookup s.name r.query_parameters)
    else none

unfoldable pub validate_query_parameters :
    Runtime → HttpRequest → EndpointDefinition → List ValidationError → Validation
validate_query_parameters rt r e errors =
    check_all (check_query rt r) e.parameter_schemas (starting errors)

abbrev pub check_header : Runtime → HttpRequest → ParameterSchema → Option ValidationError
check_header rt r s =
    if is_header s.location
    then check_found rt (codes "Required header parameter is missing") s
        (lookup (to_lower_case s.name) r.headers)
    else none

unfoldable pub validate_header_parameters :
    Runtime → HttpRequest → EndpointDefinition → List ValidationError → Validation
validate_header_parameters rt r e errors =
    check_all (check_header rt r) e.parameter_schemas (starting errors)

-- The text of a field of the body that is checked further; `none` is a wrong type.
unfoldable pub field_text : Runtime → ParameterType → JsonValue → Option Bytes
field_text rt ParameterType.string (string s) = some s
field_text rt ParameterType.integer (integer n) = some (print_ℤ n)
field_text rt ParameterType.float (float d) = some (rt.to_string_double d)
field_text rt ParameterType.float (integer n) = some (print_ℤ n)
field_text rt ParameterType.boolean (boolean true) = some (codes "true")
field_text rt ParameterType.boolean (boolean false) = some (codes "false")
field_text rt ParameterType.array (array xs) = some []
field_text rt ParameterType.object (object ms) = some []
field_text rt _ _ = none

abbrev pub is_checked : ParameterType → Bool
is_checked ParameterType.string = true
is_checked ParameterType.integer = true
is_checked ParameterType.float = true
is_checked _ = false

abbrev pub field_error : Runtime → ParameterSchema → Option Bytes → Option ValidationError
field_error rt s none = some (record {
  parameter_name = s.name;
  error_message = codes "Field type mismatch";
  provided_value = [];
})
field_error rt s (some v) =
    if not (v =s= []) && is_checked s.parameter_type
    then value_error s v (validate_value rt s v)
    else none

-- ValidateJsonBodyField
unfoldable pub validate_json_body_field :
    Runtime → JsonValue → ParameterSchema → Option ValidationError
validate_json_body_field rt body s =
    if is_object body
    then (if has_member body s.name
        then field_error rt s (field_text rt s.parameter_type (get_member body s.name))
        else missing (codes "Required body field is missing") s)
    else missing (codes "Expected JSON object body") s

unfoldable pub body_schemas : List ParameterSchema → List ParameterSchema
body_schemas [] = []
body_schemas (s ∷ schemas) =
    let rest = body_schemas schemas in if is_body s.location then s ∷ rest else rest

abbrev invalid_json : Bytes → ValidationError
invalid_json message = record {
  parameter_name = codes "body";
  error_message = codes "Request body is not valid JSON: " ++ message;
  provided_value = [];
}

abbrev pub with_parsed_body :
    Runtime → List ParameterSchema → List ValidationError → Result JsonValue → Validated Validation
with_parsed_body rt schemas errors (ok body) =
    validated (check_all (validate_json_body_field rt body) schemas (starting errors))
with_parsed_body rt schemas errors (failed message rest) =
    validated (push_error (some (invalid_json message)) (starting errors))
with_parsed_body rt schemas errors threw = validation_threw
with_parsed_body rt schemas errors out_of_fuel = validation_threw

abbrev pub with_body_schemas :
    Runtime → Bytes → List ParameterSchema → List ValidationError → Validated Validation
with_body_schemas rt body [] errors = validated (starting errors)
with_body_schemas rt body (s ∷ schemas) errors =
    if body =s= []
    then validated (
        check_all (missing (codes "Required body parameter is missing (no body provided)"))
          (s ∷ schemas) (starting errors))
    else with_parsed_body rt (s ∷ schemas) errors (parse rt body)

unfoldable pub validate_body_parameters :
    Runtime → HttpRequest → EndpointDefinition → List ValidationError → Validated Validation
validate_body_parameters rt r e errors =
    with_body_schemas rt r.body (body_schemas e.parameter_schemas) errors

abbrev provided_part : Bytes → Bytes
provided_part [] = []
provided_part (c ∷ s) = b',' ∷ (quoted (codes "provided_value") ++ b':' ∷ quoted (c ∷ s))

abbrev error_text : ValidationError → Bytes
error_text e =
    b'{'
    ∷ (quoted (codes "parameter")
        ++ b':'
          ∷ (quoted e.parameter_name
              ++ b','
                ∷ (quoted (codes "message")
                    ++ b':'
                      ∷ (quoted e.error_message ++ (provided_part e.provided_value ++ codes "}")))))

unfoldable pub more_errors : List ValidationError → Bytes
more_errors [] = []
more_errors (e ∷ errors) = b',' ∷ (error_text e ++ more_errors errors)

abbrev first_error : List ValidationError → Bytes
first_error [] = []
first_error (e ∷ errors) = error_text e ++ more_errors errors

unfoldable pub format_validation_errors : List ValidationError → Bytes
format_validation_errors errors =
    b'{' ∷ (quoted (codes "errors") ++ b':' ∷ b'[' ∷ (first_error errors ++ codes "]}"))

abbrev pub result_of : Bool → List ValidationError → ValidationResult
result_of valid errors = record {
  is_valid = valid;
  errors = errors;
  formatted_error_message = if valid then [] else format_validation_errors errors;
}

abbrev pub conclude : Bool → Validated Validation → Validated ValidationResult
conclude before validation_threw = validation_threw
conclude before (validated v) = validated (result_of (before && v.passed) v.found)

unfoldable pub validate_request :
    Runtime → HttpRequest → EndpointDefinition → Validated ValidationResult
validate_request rt r e =
    let path = validate_path_parameters rt r e [] in
    let query = validate_query_parameters rt r e path.found in
    let header = validate_header_parameters rt r e query.found in
    conclude (path.passed && query.passed && header.passed)
      (validate_body_parameters rt r e header.found)
