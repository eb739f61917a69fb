-- ===== src/Forwarder/Login.antt =====
-- ForwardLoginRequest and HandleLoginResponse of src/forwarding/BackendForwarder.cpp: the backend
-- checks the credentials, and the gateway issues the tokens.
use rest_api_gateway.Prelude.{
  ℕ, Bool, true, false, ◌&&◌, List, [], ◌∷◌, ◌++◌, Option, none, some, Bytes, codes, length, ◌%◌,
  ◌^◌, if◌then◌else◌,
}
use rest_api_gateway.Decimal.{print_ℕ}
use rest_api_gateway.Frame.{
  Frame, FrameType, Write, Sent, sending, sent, send_frame, Read, Received, receiving, received,
  receive_frame,
}
use rest_api_gateway.AesGcm.{Kernel}
use rest_api_gateway.Token.Engine.{TokenEngine, generate_token_pair, get_active_token_count}
use rest_api_gateway.Backends.{Backends, get_backend_file_descriptor}
use rest_api_gateway.Endpoint.{EndpointDefinition}
use rest_api_gateway.Http.{HttpRequest}
use rest_api_gateway.Runtime.{Runtime}
use rest_api_gateway.Json.{JsonValue, is_object, has_member, get_member, get_boolean, get_string}
use rest_api_gateway.Json.Parser.{Result, ok, failed, threw, out_of_fuel, parse}
use rest_api_gateway.Formatter.{format_login_request}
use rest_api_gateway.Forwarder.{
  BackendForwarder, Forwarding, answered, suspended, crashed, buffer_of, with_buffer, on_wire,
  not_available,
}
use rest_api_gateway.Response.{create_ok, create_internal_error, create_unauthorized, quoted}

-- What the outside gives to one login: the outcomes of the writes of the request and of the token
-- frame, and of the reads, the random bytes of the two tokens, and the clock.
pub record LoginCalls : Type 0 where
  pub request_writes : List Write
  pub reads : List Read
  pub token_writes : List Write
  pub random_access : Option Bytes
  pub random_refresh : Option Bytes
  pub now : ℕ

-- Whether the backend accepts the credentials, and the user and the server that it names.
unfoldable pub is_success : JsonValue → Bool
is_success j =
    if is_object j && has_member j (codes "success")
    then get_boolean (get_member j (codes "success"))
    else false

abbrev pub user_of : JsonValue → Bytes
user_of j =
    if is_success j && has_member j (codes "user_id")
    then get_string (get_member j (codes "user_id"))
    else []

abbrev pub server_of : EndpointDefinition → JsonValue → Bytes
server_of e j =
    if is_object j && has_member j (codes "success") && has_member j (codes "server_id")
    then get_string (get_member j (codes "server_id"))
    else e.backend_identifier

abbrev pub reason_of : JsonValue → Bytes
reason_of j =
    if is_object j && has_member j (codes "message")
    then get_string (get_member j (codes "message"))
    else codes "Invalid credentials"

-- The members of both tokens, and what follows them.
abbrev tokens_text : Bytes → Bytes → Bytes → Bytes
tokens_text access refresh rest =
    b'{'
    ∷ (quoted (codes "access_token")
        ++ b':'
          ∷ (quoted access
              ++ b',' ∷ (quoted (codes "refresh_token") ++ b':' ∷ (quoted refresh ++ b',' ∷ rest))))

abbrev token_frame : Frame → Bytes → Bytes → Bytes → Frame
token_frame f access refresh user =
    let payload =
      tokens_text access refresh (quoted (codes "user_id") ++ b':' ∷ (quoted user ++ codes "}")) in
    record {
      frame_type = FrameType.token_response;
      payload_length = length payload % 2 ^ 32;
      payload = payload;
      request_identifier = f.request_identifier;
    }

abbrev login_body : TokenEngine → Bytes → Bytes → Bytes
login_body engine access refresh = tokens_text access refresh (
    quoted (codes "token_type")
    ++ b':'
      ∷ (quoted (codes "Bearer")
          ++ b','
            ∷ (quoted (codes "expires_in")
                ++ b':' ∷ (print_ℕ (get_active_token_count engine) ++ codes "}"))))

-- The buffer is stored at the end, behind every answer.
abbrev pub after_token_frame :
    ℕ → Bytes → Bytes → Bytes → BackendForwarder → Option Sent → Forwarding
after_token_frame fd buffer access refresh w none = crashed w
after_token_frame fd buffer access refresh w (some (sending bytes)) = suspended (on_wire fd bytes w)
after_token_frame fd buffer access refresh w (some (sent bytes complete)) =
    answered (create_ok (login_body w.token_engine access refresh))
      (with_buffer fd buffer (on_wire fd bytes w))

abbrev pub with_token_pair :
    LoginCalls → ℕ → Frame → Bytes → Bytes → BackendForwarder → Option (Bytes × Bytes) → Forwarding
with_token_pair c fd f buffer user w none =
    answered (create_internal_error (codes "Failed to generate authentication tokens"))
      (with_buffer fd buffer w)
with_token_pair c fd f buffer user w (some (access, refresh)) =
    after_token_frame fd buffer access refresh w
      (send_frame c.token_writes (token_frame f access refresh user))

abbrev pub with_auth_result :
    Kernel
    → LoginCalls
    → ℕ
    → Frame
    → EndpointDefinition
    → Bytes
    → BackendForwarder
    → Result JsonValue
    → Forwarding
with_auth_result k c fd f e buffer w (ok j) =
    if is_success j
    then with_token_pair c fd f buffer (user_of j) w (
        generate_token_pair k w.token_engine c.random_access c.random_refresh c.now (server_of e j)
          (user_of j))
    else answered (create_unauthorized (reason_of j)) (with_buffer fd buffer w)
with_auth_result k c fd f e buffer w (failed message rest) =
    answered (create_internal_error (codes "Invalid authentication response from backend"))
      (with_buffer fd buffer w)
with_auth_result k c fd f e buffer w threw = crashed w
with_auth_result k c fd f e buffer w out_of_fuel = crashed w

abbrev pub with_auth_frame :
    Runtime
    → Kernel
    → LoginCalls
    → ℕ
    → Frame
    → EndpointDefinition
    → Bytes
    → BackendForwarder
    → Frame
    → FrameType
    → Forwarding
with_auth_frame rt k c fd f e buffer w auth FrameType.login_response =
    with_auth_result k c fd f e buffer w (parse rt auth.payload)
with_auth_frame rt k c fd f e buffer w auth FrameType.error =
    answered (create_internal_error (codes "Backend authentication error"))
      (with_buffer fd buffer w)
with_auth_frame rt k c fd f e buffer w auth _ =
    answered (create_internal_error (codes "Unexpected response from backend during login"))
      (with_buffer fd buffer w)

abbrev pub after_login_receive :
    Runtime
    → Kernel
    → LoginCalls
    → ℕ
    → Frame
    → EndpointDefinition
    → BackendForwarder
    → Received
    → Forwarding
after_login_receive rt k c fd f e w (receiving buffer) = suspended w
after_login_receive rt k c fd f e w (received auth buffer calls) =
    with_auth_frame rt k c fd f e buffer w auth auth.frame_type

abbrev pub after_login_send :
    Runtime
    → Kernel
    → LoginCalls
    → ℕ
    → Frame
    → EndpointDefinition
    → BackendForwarder
    → Option Sent
    → Forwarding
after_login_send rt k c fd f e w none = crashed w
after_login_send rt k c fd f e w (some (sending bytes)) = suspended (on_wire fd bytes w)
after_login_send rt k c fd f e w (some (sent bytes false)) =
    answered (create_internal_error (codes "Failed to send login request to backend"))
      (on_wire fd bytes w)
after_login_send rt k c fd f e w (some (sent bytes true)) =
    after_login_receive rt k c fd f e (on_wire fd bytes w)
      (receive_frame c.reads (buffer_of fd w.read_buffers))

-- HandleLoginResponse
unfoldable pub handle_login_response :
    Runtime → Kernel → LoginCalls → ℕ → Frame → EndpointDefinition → BackendForwarder → Forwarding
handle_login_response rt k c fd f e w =
    after_login_send rt k c fd f e w (send_frame c.request_writes f)

abbrev login_formatted :
    Runtime
    → Kernel
    → LoginCalls
    → ℕ
    → EndpointDefinition
    → BackendForwarder
    → Option (Frame × ℕ)
    → Forwarding
login_formatted rt k c fd e w none = crashed w
login_formatted rt k c fd e w (some (f, next)) =
    handle_login_response rt k c fd f e (record w { next_request_identifier = next })

abbrev login_via :
    Runtime
    → Kernel
    → (List (Bytes × Bytes) → List (Bytes × Bytes))
    → LoginCalls
    → HttpRequest
    → EndpointDefinition
    → BackendForwarder
    → Option ℕ
    → Forwarding
login_via rt k walk c r e w none =
    answered (create_internal_error (not_available e.backend_identifier)) w
login_via rt k walk c r e w (some fd) =
    login_formatted rt k c fd e w (format_login_request rt walk r e w.next_request_identifier)

-- ForwardLoginRequest
unfoldable pub forward_login_request :
    Runtime
    → Kernel
    → (List (Bytes × Bytes) → List (Bytes × Bytes))
    → LoginCalls
    → Backends
    → HttpRequest
    → EndpointDefinition
    → BackendForwarder
    → Forwarding
forward_login_request rt k walk c b r e w =
    login_via rt k walk c r e w (get_backend_file_descriptor b e.backend_identifier)
