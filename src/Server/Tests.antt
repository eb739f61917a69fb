-- ===== src/Server/Tests.antt =====
-- A server with one endpoint, and a request that it forwards.
use rest_api_gateway.Prelude.{◌≡◌, refl, ◌⊎◌, false, true, [], ◌∷◌, none, ℕ, codes}
use rest_api_gateway.Method.{HttpMethod}
use rest_api_gateway.Frame.{Frame, FrameType, wrote, closed}
use rest_api_gateway.Token.Engine.{new_engine}
use rest_api_gateway.Endpoint.{EndpointDefinition}
use rest_api_gateway.Http.{HttpRequest}
use rest_api_gateway.Runtime.{no_runtime}
use rest_api_gateway.Server.{Gateway, Surroundings, route_request}
use rest_api_gateway.Schema.{ParameterType, ParameterLocation}
use rest_api_gateway.Endpoint.Reader.{Memory}
use rest_api_gateway.Prelude.Map.{lookup}
use rest_api_gateway.Backends.{
  Backends, find_connection, register_backend, get_backend_file_descriptor,
}
use rest_api_gateway.Backends.Paired.{IsPaired, identifier_at, register_backend-IsPaired}
use rest_api_gateway.Routing.{empty_table, register_endpoint}
use rest_api_gateway.Routing.Invariant.{empty_table-IsConsistent, register_endpoint-IsConsistent}
use rest_api_gateway.Server.Connection.{ends, handle_backend_connection}
use rest_api_gateway.Server.Lost.{Loses, handle_backend_connection-Loses}
use rest_api_gateway.Server.Guard.{wire_of, IsAllowed, route_request-IsAllowed}

abbrev surroundings : Surroundings
surroundings = record {
  runtime = no_runtime;
  kernel = record { aead_encrypt = λ k i a p. none; aead_decrypt = λ k i a c. none };
  walk = λ m. m;
  writes = wrote 4096 ∷ [];
  reads = closed ∷ [];
  random_access = none;
  random_refresh = none;
  auth_time = 0;
  refresh_time = 0;
  later_time = 0;
}

abbrev endpoint_a : EndpointDefinition
endpoint_a = record {
  path = codes "/a";
  method = HttpMethod.get;
  backend_identifier = codes "b";
  description = [];
  requires_authentication = false;
  parameter_schemas = [];
  path_segments = codes "a" ∷ [];
  is_parameter_segment = false ∷ [];
  parameter_names = [] ∷ [];
}

abbrev gateway : Gateway
gateway = record {
  routing_table = record { endpoints = endpoint_a ∷ []; route_index = (codes "GET:/a", 0) ∷ [] };
  backends = record { connections = []; descriptors = (codes "b", 5) ∷ [] };
  forwarder = record {
    next_request_identifier = 1;
    read_buffers = [];
    token_engine = new_engine [];
    wire = [];
  };
}

abbrev request_a : HttpRequest
request_a = record {
  method = HttpMethod.get;
  path = codes "/a";
  query_string = [];
  http_version = codes "HTTP/1.1";
  headers = [];
  body = [];
  query_parameters = [];
  path_parameters = [];
  raw_request = [];
  is_complete = true;
  content_length = 0;
}

route_request-IsAllowed_example :
    (wire_of (route_request surroundings gateway request_a) ≡ [])
    ⊎ IsAllowed surroundings gateway request_a (route_request surroundings gateway request_a)
route_request-IsAllowed_example = route_request-IsAllowed surroundings gateway request_a

abbrev no_backends : Backends
no_backends = record { connections = []; descriptors = [] }

abbrev sample_gateway : Gateway
sample_gateway = record gateway {
  routing_table = (register_endpoint empty_table endpoint_a).0;
  backends = register_backend no_backends 5 (codes "b");
}

abbrev error_frame : Frame
error_frame = record {
  frame_type = FrameType.error;
  payload_length = 0;
  payload = [];
  request_identifier = 0;
}

abbrev memory : ℕ → Memory
memory i j = (ParameterType.string, ParameterLocation.query)

no_backends-IsPaired : IsPaired no_backends
unfolding get_backend_file_descriptor lookup find_connection
no_backends-IsPaired = record { agree = λ id fd. (λ h. cc, λ h. cc) }

sample_gateway-IsPaired : IsPaired sample_gateway.backends
unfolding get_backend_file_descriptor lookup find_connection
sample_gateway-IsPaired =
    register_backend-IsPaired no_backends 5 (codes "b") no_backends-IsPaired refl refl

handle_backend_connection-Loses_example :
    (g' : Gateway) × (handle_backend_connection no_runtime memory 5
        ((error_frame, []) ∷ [])
        sample_gateway
      ≡ ends g')
    × Loses (identifier_at sample_gateway.backends 5) sample_gateway g'
handle_backend_connection-Loses_example =
    handle_backend_connection-Loses no_runtime memory 5 error_frame [] [] sample_gateway
      (register_endpoint-IsConsistent empty_table endpoint_a empty_table-IsConsistent)
      sample_gateway-IsPaired refl
