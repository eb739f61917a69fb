-- ===== src/Forwarder.antt =====
-- include/gateway/forwarding/BackendForwarder.h and src/forwarding/BackendForwarder.cpp. A call
-- takes the outcomes of its system calls; `wire` records the bytes that went out on each descriptor,
-- the last in front.
pub mod Login
pub mod Issue
mod Tests
use rest_api_gateway.Prelude.{
  ℕ, suc, ◌-◌, ◌%◌, ◌^◌, true, false, ◌&&◌, List, [], ◌∷◌, ◌++◌, Option, none, some, Bytes, codes,
  ◌==◌, if◌then◌else◌,
}
use rest_api_gateway.Prelude.Int.{ℤ, pos, negsuc}
use rest_api_gateway.Frame.{
  Frame, FrameType, Write, Sent, sending, sent, send_frame, Read, Received, receiving, received,
  receive_frame,
}
use rest_api_gateway.AesGcm.{Kernel}
use rest_api_gateway.Token.Engine.{
  TokenEngine, Refreshed, refreshed, refresh_crashed, refresh_token_pair,
}
use rest_api_gateway.Backends.{Backends, get_backend_file_descriptor}
use rest_api_gateway.Endpoint.{EndpointDefinition}
use rest_api_gateway.Http.{HttpRequest}
use rest_api_gateway.Runtime.{Runtime}
use rest_api_gateway.Json.{JsonValue, is_object, has_member, get_member, get_integer, serialize}
use rest_api_gateway.Json.Parser.{Result, ok, failed, threw, out_of_fuel, parse}
use rest_api_gateway.Formatter.{format_request_for_backend}
use rest_api_gateway.Response.{
  HttpResponse, new_response, set_status_code, set_body, set_json_body, create_ok,
  create_internal_error, create_unauthorized, quoted,
}

-- The forwarder with the parts that it holds or refers to.
pub record BackendForwarder : Type 0 where
  pub next_request_identifier : ℕ
  pub read_buffers : List (ℕ × Bytes)
  pub token_engine : TokenEngine
  pub wire : List (ℕ × Bytes)

-- `suspended` is a coroutine that waits for a system call; `crashed` is an exception or an access
-- out of range.
pub data Forwarding : Type 0 where
  answered : HttpResponse → BackendForwarder → Forwarding
  suspended crashed : BackendForwarder → Forwarding

unfoldable pub buffer_of : ℕ → List (ℕ × Bytes) → Bytes
buffer_of fd [] = []
buffer_of fd ((g, buffer) ∷ buffers) = if g == fd then buffer else buffer_of fd buffers

unfoldable pub store_buffer : ℕ → Bytes → List (ℕ × Bytes) → List (ℕ × Bytes)
store_buffer fd text [] = (fd, text) ∷ []
store_buffer fd text ((g, buffer) ∷ buffers) =
    if g == fd then (g, text) ∷ buffers else (g, buffer) ∷ store_buffer fd text buffers

abbrev pub with_buffer : ℕ → Bytes → BackendForwarder → BackendForwarder
with_buffer fd text w = record w { read_buffers = store_buffer fd text w.read_buffers }

abbrev pub on_wire : ℕ → Bytes → BackendForwarder → BackendForwarder
on_wire fd bytes w = record w { wire = (fd, bytes) ∷ w.wire }

-- static_cast<uint32_t> of an int64_t
abbrev pub low_word : ℤ → ℕ
low_word (pos n) = n % 2 ^ 32
low_word (negsuc n) = (2 ^ 64 - suc n) % 2 ^ 32

abbrev status_of : JsonValue → ℕ
status_of j =
    if is_object j && has_member j (codes "status_code")
    then low_word (get_integer (get_member j (codes "status_code")))
    else 200

abbrev text_of : Runtime → Bytes → JsonValue → Bytes
text_of rt payload j =
    if is_object j && has_member j (codes "body")
    then serialize rt (get_member j (codes "body"))
    else payload

abbrev response_of : Runtime → Bytes → Result JsonValue → Option HttpResponse
response_of rt payload (ok j) =
    some (set_json_body (text_of rt payload j) (set_status_code (status_of j) new_response))
response_of rt payload (failed message rest) =
    some (set_body payload (set_status_code 200 new_response))
response_of rt payload threw = none
response_of rt payload out_of_fuel = none

-- BuildHttpResponseFromFrame; none is an exception.
abbrev response_of_type : Runtime → Bytes → FrameType → Option HttpResponse
response_of_type rt payload FrameType.response = response_of rt payload (parse rt payload)
response_of_type rt payload FrameType.error = some (create_internal_error payload)
response_of_type rt payload _ = some (set_json_body payload (set_status_code 200 new_response))

unfoldable pub build_http_response_from_frame : Runtime → Frame → Option HttpResponse
build_http_response_from_frame rt f = response_of_type rt f.payload f.frame_type

abbrev pub answer_or_crash : Option HttpResponse → BackendForwarder → Forwarding
answer_or_crash none w = crashed w
answer_or_crash (some response) w = answered response w

abbrev pub respond : Runtime → Frame → FrameType → BackendForwarder → Forwarding
respond rt f FrameType.error w =
    answered (create_internal_error (codes "Backend returned an error")) w
respond rt f _ w = answer_or_crash (build_http_response_from_frame rt f) w

abbrev pub after_receive : Runtime → ℕ → BackendForwarder → Received → Forwarding
after_receive rt fd w (receiving buffer) = suspended w
after_receive rt fd w (received f buffer calls) =
    respond rt f f.frame_type (with_buffer fd buffer w)

abbrev pub after_send : Runtime → List Read → ℕ → BackendForwarder → Option Sent → Forwarding
after_send rt reads fd w none = crashed w
after_send rt reads fd w (some (sending bytes)) = suspended (on_wire fd bytes w)
after_send rt reads fd w (some (sent bytes false)) =
    answered (create_internal_error (codes "Failed to send request to backend"))
      (on_wire fd bytes w)
after_send rt reads fd w (some (sent bytes true)) =
    after_receive rt fd (on_wire fd bytes w) (receive_frame reads (buffer_of fd w.read_buffers))

-- SendAndReceive
unfoldable pub send_and_receive :
    Runtime → List Write → List Read → ℕ → Frame → BackendForwarder → Forwarding
send_and_receive rt writes reads fd f w = after_send rt reads fd w (send_frame writes f)

abbrev pub forward_formatted :
    Runtime → List Write → List Read → ℕ → BackendForwarder → Option (Frame × ℕ) → Forwarding
forward_formatted rt writes reads fd w none = crashed w
forward_formatted rt writes reads fd w (some (f, next)) =
    send_and_receive rt writes reads fd f (record w { next_request_identifier = next })

abbrev pub not_available : Bytes → Bytes
not_available identifier = codes "Backend not available: " ++ identifier

abbrev pub forward_via :
    Runtime
    → (List (Bytes × Bytes) → List (Bytes × Bytes))
    → List Write
    → List Read
    → HttpRequest
    → EndpointDefinition
    → BackendForwarder
    → Option ℕ
    → Forwarding
forward_via rt walk writes reads r e w none =
    answered (create_internal_error (not_available e.backend_identifier)) w
forward_via rt walk writes reads r e w (some fd) =
    forward_formatted rt writes reads fd w
      (format_request_for_backend rt walk r e w.next_request_identifier)

-- ForwardRequest; HasBackend and GetBackendFileDescriptor look the identifier up in one map.
unfoldable pub forward_request :
    Runtime
    → (List (Bytes × Bytes) → List (Bytes × Bytes))
    → List Write
    → List Read
    → Backends
    → HttpRequest
    → EndpointDefinition
    → BackendForwarder
    → Forwarding
forward_request rt walk writes reads b r e w =
    forward_via rt walk writes reads r e w (get_backend_file_descriptor b e.backend_identifier)

abbrev pub token_pair_body : Bytes → Bytes → Bytes
token_pair_body access refresh =
    b'{'
    ∷ (quoted (codes "access_token")
        ++ b':'
          ∷ (quoted access
              ++ b','
                ∷ (quoted (codes "refresh_token")
                    ++ b':'
                      ∷ (quoted refresh
                          ++ b','
                            ∷ (quoted (codes "token_type")
                                ++ b':' ∷ (quoted (codes "Bearer") ++ codes "}"))))))

abbrev pub after_refresh : BackendForwarder → Refreshed → Forwarding
after_refresh w refresh_crashed = crashed w
after_refresh w (refreshed engine none) =
    answered (create_unauthorized (codes "Invalid or expired refresh token"))
      (record w { token_engine = engine })
after_refresh w (refreshed engine (some (access, refresh))) =
    answered (create_ok (token_pair_body access refresh)) (record w { token_engine = engine })

-- ForwardTokenRefreshRequest, with the random bytes of the two tokens and the two readings of the
-- clock.
unfoldable pub forward_token_refresh_request :
    Kernel → Option Bytes → Option Bytes → ℕ → ℕ → Bytes → Bytes → BackendForwarder → Forwarding
forward_token_refresh_request k random_a random_r now later token server w =
    after_refresh w (refresh_token_pair k w.token_engine random_a random_r now later token server)
