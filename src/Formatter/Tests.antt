-- ===== src/Formatter/Tests.antt =====
-- The payload of a request at a concrete input.
use rest_api_gateway.Prelude.{◌≡◌, refl, false, true, [], ◌∷◌, ◌++◌, Bytes, codes}
use rest_api_gateway.Prelude.Int.{pos}
use rest_api_gateway.Decimal.{stoll, strtoll, skip_space, scan_digits, clamp_int64}
use rest_api_gateway.Method.{HttpMethod}
use rest_api_gateway.Runtime.{no_runtime}
use rest_api_gateway.Endpoint.{EndpointDefinition}
use rest_api_gateway.Http.{HttpRequest}
use rest_api_gateway.Json.{integer, array, no_elements, element}
use rest_api_gateway.Json.Parser.{
  ok, parse, parse_value, dispatch, parse_array, read_element, after_element, parse_number,
  integer_end, number_end, skip_digits, skip_blanks,
}
use rest_api_gateway.Formatter.{payload_text, with_member}

abbrev sample_endpoint : EndpointDefinition
sample_endpoint = record {
  path = codes "/a/{id}";
  method = HttpMethod.post;
  backend_identifier = codes "b";
  description = [];
  requires_authentication = false;
  parameter_schemas = [];
  path_segments = codes "a" ∷ codes "{id}" ∷ [];
  is_parameter_segment = false ∷ true ∷ [];
  parameter_names = [] ∷ codes "id" ∷ [];
}

abbrev sample_request : HttpRequest
sample_request = record {
  method = HttpMethod.post;
  path = codes "/a/" ++ (b'"' ∷ b'\\' ∷ []);
  query_string = [];
  http_version = codes "HTTP/1.1";
  headers = (codes "accept", codes "*/*") ∷ (codes "host", codes "h") ∷ [];
  body = codes "[1]";
  query_parameters = [];
  path_parameters = (codes "id", b'"' ∷ b'\\' ∷ []) ∷ [];
  raw_request = [];
  is_complete = true;
  content_length = 3;
}

sample_body : parse no_runtime (codes "[1]") ≡ ok (array (element (integer (pos 1)) no_elements))
unfolding parse parse_value dispatch parse_array read_element after_element parse_number integer_end
    number_end skip_digits skip_blanks stoll strtoll skip_space scan_digits clamp_int64
sample_body = refl

abbrev sample_payload : Bytes
sample_payload =
    payload_text no_runtime (λ m. m) sample_request sample_endpoint
      (with_member (codes "body") (codes "[1]") (codes "}"))
