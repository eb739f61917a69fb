-- ===== src/Forwarder/Tests.antt =====
-- A login that a backend accepts, with a cipher that gives nothing.
use rest_api_gateway.Prelude.{true, false, [], ◌∷◌, ◌++◌, none, some, Bytes, codes}
use rest_api_gateway.Method.{HttpMethod}
use rest_api_gateway.Frame.{Frame, FrameType, wrote, chunk}
use rest_api_gateway.AesGcm.{Kernel}
use rest_api_gateway.Endpoint.{EndpointDefinition}
use rest_api_gateway.Forwarder.{BackendForwarder}
use rest_api_gateway.Forwarder.Login.{LoginCalls}

abbrev quote : Bytes → Bytes
quote s = b'"' ∷ (s ++ b'"' ∷ [])

abbrev success_payload : Bytes
success_payload =
    b'{'
    ∷ (quote (codes "success")
        ++ (codes ":true," ++ (quote (codes "user_id") ++ b':' ∷ (quote (codes "u") ++ codes "}"))))

abbrev success_frame : Bytes
success_frame = 0 ∷ 0 ∷ 0 ∷ 4 ∷ 0 ∷ 0 ∷ 0 ∷ 1 ∷ 0 ∷ 0 ∷ 0 ∷ 30 ∷ success_payload

abbrev silent : Kernel
silent = record { aead_encrypt = λ k i a p. some []; aead_decrypt = λ k i a c. none }

abbrev calls : LoginCalls
calls = record {
  request_writes = wrote 12 ∷ [];
  reads = chunk success_frame ∷ [];
  token_writes = wrote 4096 ∷ [];
  random_access = some [];
  random_refresh = some [];
  now = 1000;
}

abbrev empty_request : Frame
empty_request = record {
  frame_type = FrameType.request;
  payload_length = 0;
  payload = [];
  request_identifier = 1;
}

abbrev login_endpoint : EndpointDefinition
login_endpoint = record {
  path = codes "/login";
  method = HttpMethod.post;
  backend_identifier = codes "b";
  description = [];
  requires_authentication = false;
  parameter_schemas = [];
  path_segments = codes "login" ∷ [];
  is_parameter_segment = false ∷ [];
  parameter_names = [] ∷ [];
}

abbrev forwarder : BackendForwarder
forwarder = record {
  next_request_identifier = 2;
  read_buffers = [];
  token_engine = record {
    aes_gcm = record { key = []; is_initialized = true };
    access_expiry_seconds = 300;
    refresh_expiry_seconds = 86400;
    is_initialized = true;
    revoked_tokens = [];
  };
  wire = [];
}
