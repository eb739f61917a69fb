-- ===== src/Validation/Tests.antt =====
-- A request that meets a schema of a query parameter, and one that does not.
use rest_api_gateway.Prelude.{false, true, [], ◌∷◌, none, codes}
use rest_api_gateway.Method.{HttpMethod}
use rest_api_gateway.Schema.{ParameterSchema, ParameterType, ParameterLocation}
use rest_api_gateway.Endpoint.{EndpointDefinition}
use rest_api_gateway.Http.{HttpRequest}

abbrev flag_schema : ParameterSchema
flag_schema = record {
  name = codes "flag";
  parameter_type = ParameterType.boolean;
  location = ParameterLocation.query;
  is_required = true;
  description = [];
  default_value = [];
  constraints = record {
    min_value = none;
    max_value = none;
    float_min_value = none;
    float_max_value = none;
    min_length = none;
    max_length = none;
    regex_pattern = none;
    allowed_values = [];
    min_array_items = none;
    max_array_items = none;
  };
}

abbrev flag_endpoint : EndpointDefinition
flag_endpoint = record {
  path = codes "/a";
  method = HttpMethod.get;
  backend_identifier = codes "b";
  description = [];
  requires_authentication = false;
  parameter_schemas = flag_schema ∷ [];
  path_segments = codes "a" ∷ [];
  is_parameter_segment = false ∷ [];
  parameter_names = [] ∷ [];
}

abbrev flag_request : HttpRequest
flag_request = record {
  method = HttpMethod.get;
  path = codes "/a";
  query_string = codes "flag=true";
  http_version = codes "HTTP/1.1";
  headers = [];
  body = [];
  query_parameters = (codes "flag", codes "true") ∷ [];
  path_parameters = [];
  raw_request = [];
  is_complete = true;
  content_length = 0;
}
