-- ===== src/Forwarder/Issue.antt =====
-- When a login is answered with tokens.
use rest_api_gateway.Prelude.{ℕ, ◌≡◌, true, List, some, Bytes}
use rest_api_gateway.Frame.{Frame, FrameType, Read, received, receive_frame}
use rest_api_gateway.AesGcm.{Kernel}
use rest_api_gateway.Token.Engine.{generate_token_pair}
use rest_api_gateway.Endpoint.{EndpointDefinition}
use rest_api_gateway.Runtime.{Runtime}
use rest_api_gateway.Json.{JsonValue}
use rest_api_gateway.Json.Parser.{ok, parse}
use rest_api_gateway.Forwarder.{
  BackendForwarder, Forwarding, answered, suspended, crashed, buffer_of,
}
use rest_api_gateway.Forwarder.Login.{LoginCalls, is_success, user_of, server_of}

-- The answer of status 200.
abbrev pub IsOk : Forwarding → Type 0
IsOk (answered response w) = response.status_code ≡ 200
IsOk (suspended w) = ⊥
IsOk (crashed w) = ⊥

module _ (rt : Runtime) (k : Kernel) (c : LoginCalls) (fd : ℕ) (f : Frame)
    (e : EndpointDefinition) where
  -- The frame of the backend said success, and the token engine gave the pair for the user and the
  -- server that it named.
  pub record IsIssued (w : BackendForwarder) : Type 0 where
    pub auth_frame : Frame
    pub buffer : Bytes
    pub left_reads : List Read
    pub auth_result : JsonValue
    pub tokens : Bytes × Bytes
    pub is_received :
        receive_frame c.reads (buffer_of fd w.read_buffers) ≡ received auth_frame buffer left_reads
    pub is_login_response : auth_frame.frame_type ≡ FrameType.login_response
    pub is_parsed : parse rt auth_frame.payload ≡ ok auth_result
    pub is_accepted : is_success auth_result ≡ true
    pub is_generated :
        generate_token_pair k w.token_engine c.random_access c.random_refresh c.now
          (server_of e auth_result)
          (user_of auth_result)
        ≡ some tokens
