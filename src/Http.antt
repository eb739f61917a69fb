-- ===== src/Http.antt =====
-- include/gateway/transport/HttpParser.h and src/transport/HttpParser.cpp, with the query strings in
-- Url. Parse fills a request that the caller may have passed to an earlier call, so it takes the old
-- request and gives the new one.
pub mod Stable
pub mod Body
pub mod Complete
pub mod Names
mod Tests
use rest_api_gateway.Prelude.{
  ℕ, ◌+◌, ◌-◌, ◌%◌, ◌^◌, Bool, true, false, ◌&&◌, ◌||◌, List, [], ◌∷◌, ◌++◌, Option, none, some,
  Bytes, codes, length, take, drop, get_or, ltb, leb, ◌==◌, if◌then◌else◌, map,
}
use rest_api_gateway.Prelude.Map.{lookup, insert}
use rest_api_gateway.Decimal.{stoul}
use rest_api_gateway.Method.{HttpMethod, unknown, string_to_http_method}
use rest_api_gateway.Url.{Query, split_at, before, parse_query_string}

pub record HttpRequest : Type 0 where
  pub method : HttpMethod
  pub path : Bytes
  pub query_string : Bytes
  pub http_version : Bytes
  pub headers : List (Bytes × Bytes)
  pub body : Bytes
  pub query_parameters : Query
  pub path_parameters : Query
  pub raw_request : Bytes
  pub is_complete : Bool
  pub content_length : ℕ

abbrev pub crlf : Bytes
crlf = 13 ∷ 10 ∷ []

abbrev pub blank_line : Bytes
blank_line = 13 ∷ 10 ∷ 13 ∷ 10 ∷ []

unfoldable pub starts_with : Bytes → Bytes → Bool
starts_with [] s = true
starts_with (p ∷ ps) [] = false
starts_with (p ∷ ps) (c ∷ s) = p == c && starts_with ps s

-- What find gives for a text that is not empty, with substr before it and behind it.
unfoldable pub split_text : Bytes → Bytes → Option (Bytes × Bytes)
split_text pattern [] = none
split_text pattern (c ∷ s) =
    let rest = split_text pattern s in
    if starts_with pattern (c ∷ s) then some ([], drop (length pattern) (c ∷ s)) else before c rest

-- tolower in the C locale
abbrev pub lower : ℕ → ℕ
lower c = if leb b'A' c && leb c b'Z' then c + 32 else c

-- ToLowerCase
unfoldable pub to_lower_case : Bytes → Bytes
to_lower_case [] = []
to_lower_case (c ∷ s) = lower c ∷ to_lower_case s

-- From the first character that is neither a blank nor a tab.
unfoldable pub trim_left : Bytes → Bytes
trim_left [] = []
trim_left (c ∷ s) = if c == b' ' || c == 9 then trim_left s else c ∷ s

unfoldable pub drop_carriage_return : Bytes → Bytes
drop_carriage_return [] = []
drop_carriage_return (c ∷ s) =
    if get_or (c ∷ s) (length s) 0 == 13 then take (length s) (c ∷ s) else c ∷ s

abbrev add_field : Option (Bytes × Bytes) → List (Bytes × Bytes) → List (Bytes × Bytes)
add_field none headers = headers
add_field (some (name, value)) headers = insert (to_lower_case name) (trim_left value) headers

-- The body of the loop of ParseHeaders, for one line.
unfoldable pub add_line : Bytes → List (Bytes × Bytes) → List (Bytes × Bytes)
add_line line headers = add_field (split_at b':' (drop_carriage_return line)) headers

-- The loop of getline at '\n'; `line` is the part of the line read so far.
unfoldable pub parse_lines : Bytes → Bytes → List (Bytes × Bytes) → List (Bytes × Bytes)
parse_lines line [] headers = add_line line headers
parse_lines line (c ∷ s) headers =
    let closed = parse_lines [] s (add_line line headers) in
    let longer = parse_lines (line ++ c ∷ []) s headers in if c == 10 then closed else longer

-- ParseHeaders; its result is always true.
unfoldable pub parse_headers : Bytes → HttpRequest → HttpRequest
parse_headers block r = record r { headers = parse_lines [] block r.headers }

-- `threw` is an exception of std::stoi or std::stoul that leaves the parser.
pub data Outcome : Type 0 where
  done : HttpRequest → Bool → Outcome
  threw : Outcome

abbrev with_query : HttpRequest → Option Query → Outcome
with_query r none = threw
with_query r (some params) = done (record r { query_parameters = params }) true

abbrev with_uri : HttpRequest → Bytes → Option (Bytes × Bytes) → Outcome
with_uri r uri none = done (record r { path = uri }) true
with_uri r uri (some (path, query)) =
    with_query (record r { path = path; query_string = query })
      (parse_query_string query r.query_parameters)

abbrev with_target : HttpRequest → Option (Bytes × Bytes) → Outcome
with_target r none = done r false
with_target r (some (uri, version)) =
    with_uri (record r { http_version = version }) uri (split_at b'?' uri)

abbrev with_method : HttpRequest → Option (Bytes × Bytes) → Outcome
with_method r none = done r false
with_method r (some (method, rest)) =
    with_target (record r { method = string_to_http_method method }) (split_at b' ' rest)

-- ParseRequestLine
unfoldable pub parse_request_line : Bytes → HttpRequest → Outcome
parse_request_line line r = with_method r (split_at b' ' line)

-- Parse from the length of the body on.
abbrev pub with_body : HttpRequest → Bytes → ℕ → Outcome
with_body r body n =
    let q = record r { content_length = n } in
    if ltb 0 n
    then (if leb n (length body)
        then done (record q { body = take n body; is_complete = true }) true
        else done q true)
    else done (record q { is_complete = true }) true

abbrev pub with_number : HttpRequest → Bytes → Option ℕ → Outcome
with_number r body none = threw
with_number r body (some n) = with_body r body (n % 2 ^ 32)

abbrev pub with_length : HttpRequest → Bytes → Option Bytes → Outcome
with_length r body none = with_body r body r.content_length
with_length r body (some text) = with_number r body (stoul text)

abbrev pub with_headers : Bytes → Bytes → Outcome → Outcome
with_headers block body threw = threw
with_headers block body (done r false) = done r false
with_headers block body (done r true) =
    let q = parse_headers block r in with_length q body (lookup (codes "content-length") q.headers)

abbrev pub with_line : HttpRequest → Bytes → Option (Bytes × Bytes) → Outcome
with_line r body none = done r false
with_line r body (some (line, block)) = with_headers block body (parse_request_line line r)

abbrev pub with_head : HttpRequest → Option (Bytes × Bytes) → Outcome
with_head r none = done r false
with_head r (some (head, body)) = with_line r body (split_text crlf head)

-- What Parse sets before it reads.
abbrev pub begun : Bytes → HttpRequest → HttpRequest
begun raw r = record r {
  raw_request = raw;
  is_complete = false;
  content_length = 0;
  method = unknown;
}

-- Parse
unfoldable pub parse : Bytes → HttpRequest → Outcome
parse raw r = with_head (begun raw r) (split_text blank_line raw)

abbrev complete_with : Bytes → Option ℕ → Option Bool
complete_with body none = none
complete_with body (some n) = some (leb (n % 2 ^ 32) (length body))

abbrev complete_value : Bytes → Bytes → Option Bool
complete_value body [] = some false
complete_value body (c ∷ s) = complete_with body (stoul (c ∷ s))

abbrev complete_line : Bytes → Bytes → Bytes → Option (Bytes × Bytes) → Option Bool
complete_line raw body ahead none = some false
complete_line raw body ahead (some (value, rest)) =
    complete_value body (trim_left (take (length value) (drop (length ahead + 15) raw)))

abbrev complete_head : Bytes → Bytes → Option (Bytes × Bytes) → Option Bool
complete_head raw body none = some true
complete_head raw body (some (ahead, rest)) = complete_line raw body ahead (split_text crlf rest)

abbrev complete_raw : Bytes → Option (Bytes × Bytes) → Option Bool
complete_raw raw none = some false
complete_raw raw (some (head, body)) =
    complete_head raw body (split_text (codes "content-length:") (to_lower_case head))

-- IsRequestComplete; `none` is an exception of std::stoul.
unfoldable pub is_request_complete : Bytes → Option Bool
is_request_complete raw = complete_raw raw (split_text blank_line raw)
