-- ===== src/Formatter.antt =====
-- include/gateway/forwarding/RequestFormatter.h and src/forwarding/RequestFormatter.cpp. The number
-- of the next request is the state; where the JSON parser throws, the result is none.
pub mod Texts
pub mod Payload
mod Tests
use rest_api_gateway.Prelude.{
  ℕ, ◌+◌, ◌%◌, ◌^◌, Bool, true, false, ◌||◌, List, [], ◌∷◌, ◌++◌, Option, none, some, Bytes, codes,
  ◌=s=◌, length, ◌==◌, if◌then◌else◌,
}
use rest_api_gateway.Method.{http_method_to_string}
use rest_api_gateway.Frame.{Frame, FrameType}
use rest_api_gateway.Endpoint.{EndpointDefinition}
use rest_api_gateway.Http.{HttpRequest}
use rest_api_gateway.Runtime.{Runtime}
use rest_api_gateway.Json.{JsonValue, serialize}
use rest_api_gateway.Json.Parser.{Result, ok, failed, threw, out_of_fuel, parse}
use rest_api_gateway.Response.{quoted}

abbrev pub escape_json_char : ℕ → Bytes
escape_json_char c =
    if c == b'"'
    then b'\\' ∷ b'"' ∷ []
    else if c == b'\\'
    then b'\\' ∷ b'\\' ∷ []
    else if c == 10
    then b'\\' ∷ b'n' ∷ []
    else if c == 13
    then b'\\' ∷ b'r' ∷ []
    else if c == 9
    then b'\\' ∷ b't' ∷ []
    else c ∷ []

-- EscapeJsonString
unfoldable pub escape_json_string : Bytes → Bytes
escape_json_string [] = []
escape_json_string (c ∷ s) = escape_json_char c ++ escape_json_string s

abbrev pub escaped : Bytes → Bytes
escaped s = quoted (escape_json_string s)

-- The pairs of an object of texts, behind its brace, and behind its first pair.
unfoldable pub more_pairs : List (Bytes × Bytes) → Bytes
more_pairs [] = b'}' ∷ []
more_pairs ((k, v) ∷ m) = b',' ∷ (escaped k ++ b':' ∷ (escaped v ++ more_pairs m))

unfoldable pub pairs_text : List (Bytes × Bytes) → Bytes
pairs_text [] = b'}' ∷ []
pairs_text ((k, v) ∷ m) = escaped k ++ b':' ∷ (escaped v ++ more_pairs m)

abbrev pub is_forwarded : Bytes → Bool
is_forwarded name =
    name =s= codes "content-type"
    || name =s= codes "accept"
    || name =s= codes "user-agent"
    || name =s= codes "x-request-id"
    || name =s= codes "x-forwarded-for"

unfoldable pub forwarded_headers : List (Bytes × Bytes) → List (Bytes × Bytes)
forwarded_headers [] = []
forwarded_headers ((name, value) ∷ headers) =
    let rest = forwarded_headers headers in if is_forwarded name then (name, value) ∷ rest else rest

-- A member with a comma in front, and what follows it.
abbrev pub with_member : Bytes → Bytes → Bytes → Bytes
with_member name text rest = b',' ∷ (quoted name ++ b':' ∷ (text ++ rest))

abbrev pub with_parameters : Bytes → List (Bytes × Bytes) → Bytes → Bytes
with_parameters name [] rest = rest
with_parameters name (p ∷ params) rest = with_member name (b'{' ∷ pairs_text (p ∷ params)) rest

-- The text of a body that is not empty: the JSON value in it, or else a string.
abbrev pub body_text : Runtime → Bytes → Result JsonValue → Option Bytes
body_text rt body (ok v) = some (serialize rt v)
body_text rt body (failed message rest) = some (escaped body)
body_text rt body threw = none
body_text rt body out_of_fuel = none

abbrev pub body_member : Option Bytes → Option Bytes
body_member none = none
body_member (some text) = some (with_member (codes "body") text (codes "}"))

abbrev pub body_part : Runtime → Bytes → Option Bytes
body_part rt [] = some (codes "}")
body_part rt (c ∷ body) = body_member (body_text rt (c ∷ body) (parse rt (c ∷ body)))

-- The loops meet the pairs of a map in the order of `walk`.
module _ (rt : Runtime) (walk : List (Bytes × Bytes) → List (Bytes × Bytes)) where
  unfoldable pub payload_text : HttpRequest → EndpointDefinition → Bytes → Bytes
  payload_text r e tail =
      b'{'
      ∷ (quoted (codes "method")
          ++ b':'
            ∷ (escaped (http_method_to_string r.method)
                ++ with_member (codes "path") (escaped r.path) (
                    with_member (codes "backend") (escaped e.backend_identifier) (
                      with_parameters (codes "path_parameters") (walk r.path_parameters) (
                        with_parameters (codes "query_parameters") (walk r.query_parameters) (
                          with_member (codes "headers")
                            (b'{' ∷ pairs_text (forwarded_headers (walk r.headers))) tail))))))

  abbrev pub payload_with : HttpRequest → EndpointDefinition → Option Bytes → Option Bytes
  payload_with r e none = none
  payload_with r e (some tail) = some (payload_text r e tail)

  -- BuildJsonPayload
  unfoldable pub build_json_payload : HttpRequest → EndpointDefinition → Option Bytes
  build_json_payload r e = payload_with r e (body_part rt r.body)

  abbrev pub request_frame : ℕ → Bytes → Frame × ℕ
  request_frame next payload = (
    record {
      frame_type = FrameType.request;
      payload_length = length payload % 2 ^ 32;
      payload = payload;
      request_identifier = next;
    },
    (next + 1) % 2 ^ 32,
  )

  abbrev pub framed : ℕ → Option Bytes → Option (Frame × ℕ)
  framed next none = none
  framed next (some payload) = some (request_frame next payload)

  -- FormatRequestForBackend, with the number of the next request
  unfoldable pub format_request_for_backend :
      HttpRequest → EndpointDefinition → ℕ → Option (Frame × ℕ)
  unfolding build_json_payload
  format_request_for_backend r e next = framed next (build_json_payload r e)

  -- FormatLoginRequest
  unfoldable pub format_login_request : HttpRequest → EndpointDefinition → ℕ → Option (Frame × ℕ)
  unfolding build_json_payload
  format_login_request r e next = framed next (build_json_payload r e)

  unfoldable pub token_refresh_payload : Bytes → Bytes → Bytes
  token_refresh_payload token server =
      b'{'
      ∷ (quoted (codes "action")
          ++ b':'
            ∷ (quoted (codes "token_refresh")
                ++ with_member (codes "refresh_token") (escaped token)
                    (with_member (codes "server_id") (escaped server) (codes "}"))))

  -- FormatTokenRefreshRequest
  unfoldable pub format_token_refresh_request : Bytes → Bytes → ℕ → Frame × ℕ
  unfolding token_refresh_payload
  format_token_refresh_request token server next =
      request_frame next (token_refresh_payload token server)
