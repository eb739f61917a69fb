-- ===== src/Http/Tests.antt =====
-- Requests at concrete inputs.
use rest_api_gateway.Prelude.{◌≡◌, refl, true, false, [], ◌∷◌, ◌++◌, some, Bytes, codes, ◌=s=◌, All}
use rest_api_gateway.Prelude.Map.{lookup, insert}
use rest_api_gateway.Decimal.{stoul, skip_space, scan_digits}
use rest_api_gateway.Method.{post, unknown, string_to_http_method}
use rest_api_gateway.Url.{
  split_at, parse_query_string, parse_pairs, add_pair, url_decode, stoi_hex, hex_value,
}
use rest_api_gateway.Http.{
  HttpRequest, crlf, blank_line, starts_with, split_text, to_lower_case, trim_left,
  drop_carriage_return, add_line, parse_lines, parse_headers, done, threw, parse_request_line,
  begun, parse, is_request_complete,
}
use rest_api_gateway.Http.Body.{parse-append}
use rest_api_gateway.Http.Complete.{Measures, parse-Measures}
use rest_api_gateway.Http.Names.{IsLower, parse-IsLower}

abbrev empty_request : HttpRequest
empty_request = record {
  method = unknown;
  path = [];
  query_string = [];
  http_version = [];
  headers = [];
  body = [];
  query_parameters = [];
  path_parameters = [];
  raw_request = [];
  is_complete = false;
  content_length = 0;
}

abbrev post_bytes : Bytes
post_bytes =
    codes "POST /a?x=%41+b HTTP/1.1"
    ++ (crlf ++ (codes "Content-LENGTH: 2" ++ (blank_line ++ codes "hi")))

abbrev post_request : HttpRequest
post_request = record {
  method = post;
  path = codes "/a";
  query_string = codes "x=%41+b";
  http_version = codes "HTTP/1.1";
  headers = (codes "content-length", codes "2") ∷ [];
  body = codes "hi";
  query_parameters = (codes "x", codes "A b") ∷ [];
  path_parameters = [];
  raw_request = post_bytes;
  is_complete = true;
  content_length = 2;
}

post_parsed : parse post_bytes empty_request ≡ done post_request true
unfolding parse split_text starts_with parse_request_line split_at string_to_http_method ◌=s=◌
    parse_query_string parse_pairs add_pair url_decode stoi_hex hex_value insert parse_headers
    parse_lines add_line drop_carriage_return to_lower_case trim_left lookup stoul skip_space
    scan_digits
post_parsed = refl

last_field_is_lost : is_request_complete post_bytes ≡ some false
unfolding is_request_complete split_text starts_with to_lower_case
last_field_is_lost = refl

bad_number :
    parse
      (codes "GET / HTTP/1.1" ++ (crlf ++ (codes "Content-Length: x" ++ blank_line)))
      empty_request
    ≡ threw
unfolding parse split_text starts_with parse_request_line split_at string_to_http_method ◌=s=◌
    parse_headers parse_lines add_line drop_carriage_return to_lower_case trim_left insert lookup
    stoul skip_space scan_digits
bad_number = refl

parse-append_example :
    parse (post_bytes ++ codes "!") empty_request
    ≡ done (record post_request { raw_request = post_bytes ++ codes "!" }) true
parse-append_example =
    parse-append post_bytes (codes "!") empty_request post_request post_parsed refl

parse-Measures_example :
    (head : Bytes) × (body : Bytes) × (split_text blank_line post_bytes ≡ some (head, body))
    × Measures post_request empty_request.body body
parse-Measures_example = parse-Measures post_bytes empty_request post_request post_parsed

parse-IsLower_example : All IsLower post_request.headers
parse-IsLower_example = parse-IsLower post_bytes empty_request post_request true tt post_parsed

no_header_lines :
    parse (codes "GET / HTTP/1.0" ++ blank_line) empty_request
    ≡ done (begun (codes "GET / HTTP/1.0" ++ blank_line) empty_request) false
unfolding parse split_text starts_with
no_header_lines = refl
