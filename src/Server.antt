-- ===== src/Server.antt =====
-- RouteRequest of src/main.cpp: what the server does with a parsed request, over the other parts.
-- Logging is left out.
pub mod Guard
pub mod Connection
pub mod Table
pub mod Lost
pub mod Client
mod Tests
use rest_api_gateway.Prelude.{
  ℕ, Bool, true, false, ◌&&◌, List, [], ◌∷◌, ◌++◌, Option, none, some, Bytes, codes, ◌=s=◌, take,
  drop, if◌then◌else◌,
}
use rest_api_gateway.Prelude.Map.{lookup, insert}
use rest_api_gateway.Method.{HttpMethod, http_method_to_string, ◌=m=◌}
use rest_api_gateway.Frame.{Write, Read}
use rest_api_gateway.AesGcm.{Kernel}
use rest_api_gateway.Token.Engine.{Validation, accepted, rejected, crashed, validate_access_token}
use rest_api_gateway.Backends.{Backends}
use rest_api_gateway.Endpoint.{EndpointDefinition}
use rest_api_gateway.Routing.{RoutingTable, Found, found, not_found, out_of_range, find_endpoint}
use rest_api_gateway.Http.{HttpRequest}
use rest_api_gateway.Runtime.{Runtime}
use rest_api_gateway.Json.{JsonValue, is_object, has_member, get_member, get_string}
use rest_api_gateway.Json.Parser.{Result, ok, failed, threw, out_of_fuel, parse}
use rest_api_gateway.Validation.{
  ValidationResult, Validated, validated, validation_threw, validate_request,
}
use rest_api_gateway.Response.{create_bad_request, create_unauthorized, create_not_found}
use rest_api_gateway.Forwarder.{
  BackendForwarder, Forwarding, answered, forward_request, forward_token_refresh_request,
}

pub record Gateway : Type 0 where
  pub routing_table : RoutingTable
  pub backends : Backends
  pub forwarder : BackendForwarder

-- What the outside gives to one call: the order of the walks over maps, the outcomes of the system
-- calls on the backend's connection, the readings of the clock, and random bytes.
pub record Surroundings : Type 0 where
  pub runtime : Runtime
  pub kernel : Kernel
  pub walk : List (Bytes × Bytes) → List (Bytes × Bytes)
  pub writes : List Write
  pub reads : List Read
  pub random_access : Option Bytes
  pub random_refresh : Option Bytes
  pub auth_time : ℕ
  pub refresh_time : ℕ
  pub later_time : ℕ

-- The check of the authentication: `granted` holds the request with the user added.
pub data Access : Type 0 where
  granted : HttpRequest → Access
  denied access_crashed : Access

abbrev pub access_of : HttpRequest → Validation → Access
access_of r (accepted user) =
    granted (record r { headers = insert (codes "x-authenticated-user") user r.headers })
access_of r rejected = denied
access_of r crashed = access_crashed

abbrev pub bearer : Bytes
bearer = codes "Bearer "

abbrev pub with_authorization :
    Surroundings → Gateway → HttpRequest → EndpointDefinition → Option Bytes → Access
with_authorization s g r e none = denied
with_authorization s g r e (some value) =
    if take 7 value =s= bearer
    then access_of r (
        validate_access_token s.kernel g.forwarder.token_engine s.auth_time (drop 7 value)
          e.backend_identifier)
    else denied

unfoldable pub authenticate : Surroundings → Gateway → HttpRequest → EndpointDefinition → Access
authenticate s g r e =
    if e.requires_authentication
    then with_authorization s g r e (lookup (codes "authorization") r.headers)
    else granted r

-- The refresh token in the body; none is an exception.
abbrev pub refresh_token_in : Result JsonValue → Option Bytes
refresh_token_in (ok j) =
    if is_object j && has_member j (codes "refresh_token")
    then some (get_string (get_member j (codes "refresh_token")))
    else some []
refresh_token_in (failed message rest) = some []
refresh_token_in threw = none
refresh_token_in out_of_fuel = none

abbrev pub refresh_with :
    Surroundings → EndpointDefinition → BackendForwarder → Option Bytes → Forwarding
refresh_with s e w none = Forwarding.crashed w
refresh_with s e w (some []) =
    answered (create_bad_request (codes "Missing refresh_token in request body")) w
refresh_with s e w (some (c ∷ token)) =
    forward_token_refresh_request s.kernel s.random_access s.random_refresh s.refresh_time
      s.later_time (c ∷ token) e.backend_identifier w

abbrev pub is_refresh : HttpRequest → Bool
is_refresh r = r.path =s= codes "/auth/refresh" && r.method =m= HttpMethod.post

-- The request behind its validation.
unfoldable pub dispatch_request :
    Surroundings → Gateway → HttpRequest → EndpointDefinition → Forwarding
dispatch_request s g r e =
    if is_refresh r
    then refresh_with s e g.forwarder (refresh_token_in (parse s.runtime r.body))
    else forward_request s.runtime s.walk s.writes s.reads g.backends r e g.forwarder

abbrev pub with_validation :
    Surroundings
    → Gateway
    → HttpRequest
    → EndpointDefinition
    → Validated ValidationResult
    → Forwarding
with_validation s g r e validation_threw = Forwarding.crashed g.forwarder
with_validation s g r e (validated v) =
    if v.is_valid
    then dispatch_request s g r e
    else answered (create_bad_request v.formatted_error_message) g.forwarder

abbrev pub with_access : Surroundings → Gateway → EndpointDefinition → Access → Forwarding
with_access s g e denied =
    answered (create_unauthorized (codes "Valid authentication token required")) g.forwarder
with_access s g e access_crashed = Forwarding.crashed g.forwarder
with_access s g e (granted r) = with_validation s g r e (validate_request s.runtime r e)

abbrev pub with_found : Surroundings → Gateway → HttpRequest → Found → Forwarding
with_found s g r out_of_range = Forwarding.crashed g.forwarder
with_found s g r not_found =
    answered
      (create_not_found (
        codes "No endpoint registered for "
        ++ (http_method_to_string r.method ++ (codes " " ++ r.path))))
      g.forwarder
with_found s g r (found e params) =
    with_access s g e (authenticate s g (record r { path_parameters = params }) e)

-- RouteRequest
unfoldable pub route_request : Surroundings → Gateway → HttpRequest → Forwarding
unfolding authenticate dispatch_request
route_request s g r = with_found s g r (find_endpoint g.routing_table r.path r.method)
