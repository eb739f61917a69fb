-- ===== src/Formatter/Payload.antt =====
-- The payloads of the formatter are JSON that Parse reads back, whatever the texts in them are.
use rest_api_gateway.Prelude.{◌<◌, ◌≡◌, List, [], ◌∷◌, Option, none, some, Bytes, codes, length}
use rest_api_gateway.Method.{http_method_to_string}
use rest_api_gateway.Endpoint.{EndpointDefinition}
use rest_api_gateway.Http.{HttpRequest}
use rest_api_gateway.Runtime.{Runtime}
use rest_api_gateway.Json.{JsonValue, string, object, Members, no_members, member}
use rest_api_gateway.Json.Parser.{Result, ok, position_limit, parse}
use rest_api_gateway.Json.RoundTrip.Plain.{IsPlain}
use rest_api_gateway.Formatter.{forwarded_headers}
use rest_api_gateway.Formatter.Texts.{IsTail}

-- The members of an object of texts.
unfoldable pub texts_of : List (Bytes × Bytes) → Members
texts_of [] = no_members
texts_of ((k, v) ∷ m) = member k (string v) (texts_of m)

abbrev pub parameters_of : Bytes → List (Bytes × Bytes) → Members → Members
parameters_of name [] ms = ms
parameters_of name (p ∷ params) ms = member name (object (texts_of (p ∷ params))) ms

-- What the body of a request is in the payload: nothing, the JSON value in it, or its text.
abbrev pub body_value : Bytes → Result JsonValue → Members
body_value body (ok v) = member (codes "body") v no_members
body_value body _ = member (codes "body") (string body) no_members

abbrev pub body_members : Runtime → Bytes → Members
body_members rt [] = no_members
body_members rt (c ∷ body) = body_value (c ∷ body) (parse rt (c ∷ body))

module _ (rt : Runtime) (walk : List (Bytes × Bytes) → List (Bytes × Bytes)) where
  unfoldable pub request_members : HttpRequest → EndpointDefinition → Members
  request_members r e = member (codes "method") (string (http_method_to_string r.method)) (
      member (codes "path") (string r.path) (
        member (codes "backend") (string e.backend_identifier) (
          parameters_of (codes "path_parameters") (walk r.path_parameters) (
            parameters_of (codes "query_parameters") (walk r.query_parameters) (
              member (codes "headers") (object (texts_of (forwarded_headers (walk r.headers))))
                (body_members rt r.body))))))

-- A value that the body is parsed to is plain.
abbrev pub IsPlainBody : Result JsonValue → Type 0
IsPlainBody (ok v) = IsPlain v
IsPlainBody _ = Unit

module _ (rt : Runtime) where
  -- What a part of the payload is, where it is there.
  abbrev IsTailOf : Option Bytes → Members → Type 0
  IsTailOf none ms = Unit
  IsTailOf (some tail) ms = IsTail rt tail ms

  abbrev members_with :
      JsonValue
      → JsonValue
      → JsonValue
      → List (Bytes × Bytes)
      → List (Bytes × Bytes)
      → JsonValue
      → Members
      → Members
  members_with a b c ps qs hs ms = member (codes "method") a (
      member (codes "path") b (
        member (codes "backend") c (
          parameters_of (codes "path_parameters") ps
            (parameters_of (codes "query_parameters") qs (member (codes "headers") hs ms)))))

module _ (rt : Runtime) (walk : List (Bytes × Bytes) → List (Bytes × Bytes)) where
  -- What a payload is parsed to, where there is one.
  abbrev IsReadAs : Option Bytes → Members → Type 0
  IsReadAs none ms = Unit
  IsReadAs (some payload) ms = length payload < position_limit → parse rt payload ≡ ok (object ms)
