-- ===== src/Server/Connection.antt =====
-- HandleBackendConnection of src/main.cpp: what the server does with the frames that ReceiveFrame
-- gives on the connection of a backend, one after the other. With each frame come the outcomes of
-- the writes for the answer. Logging is left out.
use rest_api_gateway.Prelude.{
  ℕ, zero, suc, ◌+◌, ◌%◌, ◌^◌, Bool, true, false, ◌&&◌, List, [], ◌∷◌, ◌++◌, Option, none, some,
  Bytes, codes, length, ◌==◌, if◌then◌else◌,
}
use rest_api_gateway.Frame.{Frame, FrameType, Write, Sent, sending, sent, send_frame}
use rest_api_gateway.Runtime.{Runtime}
use rest_api_gateway.Json.{
  JsonValue, is_object, is_array, has_member, get_member, get_string, get_array_size,
  get_array_element, serialize,
}
use rest_api_gateway.Json.Parser.{Result, ok, failed, threw, out_of_fuel, parse}
use rest_api_gateway.Endpoint.{EndpointDefinition, new_builder}
use rest_api_gateway.Endpoint.Reader.{Memory, parse_endpoint_definition_from_json}
use rest_api_gateway.Routing.{RoutingTable, register_endpoint, remove_endpoints_by_backend}
use rest_api_gateway.Backends.{
  Backends, register_backend, unregister_backend, get_backend_file_descriptor,
  get_registered_backend_identifiers,
}
use rest_api_gateway.Response.{quoted}
use rest_api_gateway.Forwarder.{on_wire}
use rest_api_gateway.Server.{Gateway}

-- What follows a frame: the loop goes on, the loop has ended, the coroutine waits for a write, or an
-- exception has left it.
pub data Handled : Type 0 where
  goes_on ends waits breaks : Gateway → Handled

abbrev pub after_answer : ℕ → Gateway → Option Sent → Handled
after_answer fd g none = breaks g
after_answer fd g (some (sending bytes)) =
    waits (record g { forwarder = on_wire fd bytes g.forwarder })
after_answer fd g (some (sent bytes complete)) =
    goes_on (record g { forwarder = on_wire fd bytes g.forwarder })

abbrev answer_frame : FrameType → Frame → Bytes → Frame
answer_frame type f payload = record {
  frame_type = type;
  payload_length = length payload % 2 ^ 32;
  payload = payload;
  request_identifier = f.request_identifier;
}

-- The routing table with the endpoint that was read, where there is one; the Boolean is false where
-- an exception was thrown.
abbrev pub with_definition :
    Bytes → Option (EndpointDefinition × Bool) → RoutingTable → RoutingTable × Bool
with_definition id none t = (t, false)
with_definition id (some (d, false)) t = (t, true)
with_definition id (some (d, true)) t =
    ((register_endpoint t (record d { backend_identifier = id })).0, true)

abbrev pub then_table :
    RoutingTable × Bool → (RoutingTable → RoutingTable × Bool) → RoutingTable × Bool
then_table (t, false) next = (t, false)
then_table (t, true) next = next t

-- The loop over the endpoints of a registration.
unfoldable pub register_endpoints :
    Runtime → (ℕ → Memory) → Bytes → ℕ → ℕ → JsonValue → RoutingTable → RoutingTable × Bool
register_endpoints rt memory id zero i j t = (t, true)
register_endpoints rt memory id (suc left) i j t =
    then_table
      (with_definition id
        (parse_endpoint_definition_from_json rt (memory i) (serialize rt (get_array_element j i))
          new_builder)
        t)
      (register_endpoints rt memory id left (i + 1) j)

abbrev pub endpoints_of :
    Runtime → (ℕ → Memory) → Bytes → JsonValue → RoutingTable → RoutingTable × Bool
endpoints_of rt memory id j t =
    if has_member j (codes "endpoints") && is_array (get_member j (codes "endpoints"))
    then register_endpoints rt memory id (get_array_size (get_member j (codes "endpoints"))) 0
        (get_member j (codes "endpoints")) t
    else (t, true)

abbrev acknowledgment : Bytes → Bytes
acknowledgment id =
    b'{'
    ∷ (quoted (codes "status")
        ++ b':'
          ∷ (quoted (codes "registered")
              ++ b',' ∷ (quoted (codes "backend_id") ++ b':' ∷ (quoted id ++ codes "}"))))

abbrev pub with_table :
    List Write → ℕ → Frame → Bytes → Backends → Gateway → RoutingTable × Bool → Handled
with_table writes fd f id b g (t, false) = breaks (record g { backends = b; routing_table = t })
with_table writes fd f id b g (t, true) =
    after_answer fd (record g { backends = b; routing_table = t })
      (send_frame writes (answer_frame FrameType.response f (acknowledgment id)))

abbrev pub register_named :
    Runtime → (ℕ → Memory) → List Write → ℕ → Frame → JsonValue → Bytes → Gateway → Handled
register_named rt memory writes fd f j [] g = goes_on g
register_named rt memory writes fd f j (c ∷ id) g =
    with_table writes fd f (c ∷ id) (register_backend g.backends fd (c ∷ id)) g
      (endpoints_of rt memory (c ∷ id) j g.routing_table)

abbrev identifier_in : JsonValue → Bytes
identifier_in j =
    if has_member j (codes "backend_id") then get_string (get_member j (codes "backend_id")) else []

abbrev pub handle_registration :
    Runtime → (ℕ → Memory) → List Write → ℕ → Frame → Gateway → Result JsonValue → Handled
handle_registration rt memory writes fd f g (ok j) =
    if is_object j then register_named rt memory writes fd f j (identifier_in j) g else goes_on g
handle_registration rt memory writes fd f g (failed message rest) = goes_on g
handle_registration rt memory writes fd f g threw = breaks g
handle_registration rt memory writes fd f g out_of_fuel = breaks g

-- The endpoints of a backend and the connection are removed.
abbrev pub remove_backend : ℕ → Bytes → Gateway → Gateway
remove_backend fd id g = record g {
  routing_table = (remove_endpoints_by_backend g.routing_table id).0;
  backends = (unregister_backend g.backends fd).0;
}

abbrev pub handle_unregistration : ℕ → Gateway → Result JsonValue → Handled
handle_unregistration fd g (ok j) =
    if is_object j && has_member j (codes "backend_id")
    then ends (remove_backend fd (get_string (get_member j (codes "backend_id"))) g)
    else goes_on g
handle_unregistration fd g (failed message rest) = goes_on g
handle_unregistration fd g threw = breaks g
handle_unregistration fd g out_of_fuel = breaks g

abbrev pub has_descriptor : ℕ → Option ℕ → Bool
has_descriptor fd none = false
has_descriptor fd (some n) = n == fd

-- The loop over the backends after an error.
unfoldable pub remove_lost : ℕ → List Bytes → Gateway → Gateway
remove_lost fd [] g = g
remove_lost fd (id ∷ ids) g =
    let rest = remove_lost fd ids g in
    if has_descriptor fd (get_backend_file_descriptor g.backends id)
    then remove_backend fd id g
    else rest

abbrev pub handle_type :
    Runtime → (ℕ → Memory) → List Write → ℕ → Frame → FrameType → Gateway → Handled
handle_type rt memory writes fd f FrameType.registration g =
    handle_registration rt memory writes fd f g (parse rt f.payload)
handle_type rt memory writes fd f FrameType.unregistration g =
    handle_unregistration fd g (parse rt f.payload)
handle_type rt memory writes fd f FrameType.heartbeat g = after_answer fd g (
    send_frame writes (
      answer_frame FrameType.heartbeat f
        (b'{' ∷ (quoted (codes "status") ++ b':' ∷ (quoted (codes "alive") ++ codes "}")))))
handle_type rt memory writes fd f FrameType.error g =
    ends (remove_lost fd (get_registered_backend_identifiers g.backends) g)
handle_type rt memory writes fd f _ g = goes_on g

-- A round of the loop.
unfoldable pub handle_frame : Runtime → (ℕ → Memory) → ℕ → Frame × List Write → Gateway → Handled
handle_frame rt memory fd (f, writes) g = handle_type rt memory writes fd f f.frame_type g

abbrev pub then_handle : Handled → (Gateway → Handled) → Handled
then_handle (goes_on g) next = next g
then_handle (ends g) next = ends g
then_handle (waits g) next = waits g
then_handle (breaks g) next = breaks g

-- The loop; after the frames it waits for another.
unfoldable pub handle_backend_connection :
    Runtime → (ℕ → Memory) → ℕ → List (Frame × List Write) → Gateway → Handled
handle_backend_connection rt memory fd [] g = waits g
handle_backend_connection rt memory fd (call ∷ calls) g =
    then_handle (handle_frame rt memory fd call g) (handle_backend_connection rt memory fd calls)
