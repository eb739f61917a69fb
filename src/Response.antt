-- ===== src/Response.antt =====
-- include/gateway/transport/HttpResponse.h and src/transport/HttpResponse.cpp.
mod Tests
use rest_api_gateway.Prelude.{
  ℕ, Bool, List, [], ◌∷◌, ◌++◌, Bytes, codes, ◌=s=◌, length, ◌==◌, if◌then◌else◌,
}
use rest_api_gateway.Prelude.Map.{insert}
use rest_api_gateway.Decimal.{print_ℕ}
use rest_api_gateway.Http.{crlf}

pub record HttpResponse : Type 0 where
  pub status_code : ℕ
  pub status_message : Bytes
  pub headers : List (Bytes × Bytes)
  pub body : Bytes

-- A text between quotation marks.
abbrev pub quoted : Bytes → Bytes
quoted s = b'"' ∷ (s ++ b'"' ∷ [])

-- GetDefaultStatusMessage
unfoldable pub default_status_message : ℕ → Bytes
default_status_message n =
    if n == 200
    then codes "OK"
    else if n == 201
    then codes "Created"
    else if n == 204
    then codes "No Content"
    else if n == 400
    then codes "Bad Request"
    else if n == 401
    then codes "Unauthorized"
    else if n == 403
    then codes "Forbidden"
    else if n == 404
    then codes "Not Found"
    else if n == 405
    then codes "Method Not Allowed"
    else if n == 408
    then codes "Request Timeout"
    else if n == 413
    then codes "Payload Too Large"
    else if n == 422
    then codes "Unprocessable Entity"
    else if n == 429
    then codes "Too Many Requests"
    else if n == 500
    then codes "Internal Server Error"
    else if n == 502
    then codes "Bad Gateway"
    else if n == 503
    then codes "Service Unavailable"
    else if n == 504
    then codes "Gateway Timeout"
    else codes "Unknown"

abbrev pub content_type : Bytes
content_type = codes "Content-Type"

-- HttpResponse()
unfoldable pub new_response : HttpResponse
new_response = record {
  status_code = 200;
  status_message = codes "OK";
  headers =
      (content_type, codes "application/json")
      ∷ (codes "Connection", codes "close")
      ∷ (codes "Server", codes "RestApiGateway/1.0")
      ∷ [];
  body = [];
}

unfoldable pub set_status_code : ℕ → HttpResponse → HttpResponse
unfolding default_status_message
set_status_code n r = record r { status_code = n; status_message = default_status_message n }

unfoldable pub set_header : Bytes → Bytes → HttpResponse → HttpResponse
set_header name value r = record r { headers = insert name value r.headers }

abbrev pub set_body : Bytes → HttpResponse → HttpResponse
set_body text r = record r { body = text }

unfoldable pub set_json_body : Bytes → HttpResponse → HttpResponse
set_json_body text r = record r {
  body = text;
  headers = insert content_type (codes "application/json") r.headers;
}

-- The lines of the headers that are sent, in the order of the walk.
unfoldable pub header_lines : List (Bytes × Bytes) → Bytes
header_lines [] = []
header_lines ((name, value) ∷ rest) =
    if name =s= codes "Content-Length"
    then header_lines rest
    else name ++ (codes ": " ++ (value ++ (crlf ++ header_lines rest)))

-- Build; `walk` gives the pairs of the map in the order in which the loop meets them.
unfoldable pub build_response : (List (Bytes × Bytes) → List (Bytes × Bytes)) → HttpResponse → Bytes
build_response walk r =
    codes "HTTP/1.1 "
    ++ (print_ℕ r.status_code
        ++ (codes " "
            ++ (r.status_message
                ++ (crlf
                    ++ (header_lines (walk r.headers)
                        ++ (codes "Content-Length: "
                            ++ (print_ℕ (length r.body) ++ (crlf ++ (crlf ++ r.body)))))))))

-- The body of the error factories.
abbrev error_body : Bytes → Bytes → Bytes
error_body kind message =
    b'{'
    ∷ (quoted (codes "error")
        ++ (b':'
            ∷ (quoted kind
                ++ (b',' ∷ (quoted (codes "message") ++ (b':' ∷ (quoted message ++ codes "}")))))))

unfoldable pub create_ok : Bytes → HttpResponse
create_ok text = set_json_body text (set_status_code 200 new_response)

unfoldable pub create_bad_request : Bytes → HttpResponse
create_bad_request message =
    set_json_body (error_body (codes "Bad Request") message) (set_status_code 400 new_response)

unfoldable pub create_unauthorized : Bytes → HttpResponse
create_unauthorized message =
    set_json_body (error_body (codes "Unauthorized") message) (set_status_code 401 new_response)

unfoldable pub create_not_found : Bytes → HttpResponse
create_not_found message =
    set_json_body (error_body (codes "Not Found") message) (set_status_code 404 new_response)

unfoldable pub create_internal_error : Bytes → HttpResponse
create_internal_error message =
    set_json_body (error_body (codes "Internal Server Error") message)
      (set_status_code 500 new_response)

unfoldable pub create_method_not_allowed : Bytes → HttpResponse
create_method_not_allowed message =
    set_json_body (error_body (codes "Method Not Allowed") message)
      (set_status_code 405 new_response)
