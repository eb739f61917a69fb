-- ===== src/Server/Table.antt =====
-- Whatever a backend sends, the routing table stays consistent.
use rest_api_gateway.Prelude.{
  ℕ, zero, suc, ◌+◌, Bool, true, false, ◌&&◌, Bool-cases, inl, inr, List, [], ◌∷◌, Option, none,
  some, Bytes, codes,
}
use rest_api_gateway.Frame.{Frame, FrameType, Write, Sent, sending, sent}
use rest_api_gateway.Runtime.{Runtime}
use rest_api_gateway.Json.{JsonValue, is_object, is_array, has_member, get_member}
use rest_api_gateway.Json.Parser.{Result, ok, failed, threw, out_of_fuel}
use rest_api_gateway.Endpoint.{EndpointDefinition}
use rest_api_gateway.Endpoint.Reader.{Memory}
use rest_api_gateway.Routing.{RoutingTable}
use rest_api_gateway.Routing.Invariant.{IsConsistent, register_endpoint-IsConsistent}
use rest_api_gateway.Routing.Backend.{remove_endpoints_by_backend-IsConsistent}
use rest_api_gateway.Backends.{Backends, get_backend_file_descriptor}
use rest_api_gateway.Server.{Gateway}
use rest_api_gateway.Server.Connection.{
  Handled, goes_on, ends, waits, breaks, after_answer, with_definition, then_table,
  register_endpoints, endpoints_of, with_table, register_named, handle_registration, remove_backend,
  handle_unregistration, has_descriptor, remove_lost, handle_type, handle_frame, then_handle,
  handle_backend_connection,
}

-- The server behind a frame.
abbrev pub gateway_of : Handled → Gateway
gateway_of (goes_on g) = g
gateway_of (ends g) = g
gateway_of (waits g) = g
gateway_of (breaks g) = g

abbrev Keeps : Handled → Type 0
Keeps h = IsConsistent (gateway_of h).routing_table

Keeps-after_answer :
    (fd : ℕ) (g : Gateway) (o : Option Sent)
    → IsConsistent g.routing_table
    → Keeps (after_answer fd g o)
Keeps-after_answer fd g none c = c
Keeps-after_answer fd g (some (sending bytes)) c = c
Keeps-after_answer fd g (some (sent bytes complete)) c = c

IsConsistent-with_definition :
    (id : Bytes) (o : Option (EndpointDefinition × Bool)) (t : RoutingTable)
    → IsConsistent t
    → IsConsistent (with_definition id o t).0
IsConsistent-with_definition id none t c = c
IsConsistent-with_definition id (some (d, false)) t c = c
IsConsistent-with_definition id (some (d, true)) t c = register_endpoint-IsConsistent t _ c

IsConsistent-then_table :
    (o : RoutingTable × Bool) (next : RoutingTable → RoutingTable × Bool)
    → IsConsistent o.0
    → ((t : RoutingTable) → IsConsistent t → IsConsistent (next t).0)
    → IsConsistent (then_table o next).0
IsConsistent-then_table (t, false) next c h = c
IsConsistent-then_table (t, true) next c h = h t c

module _ (rt : Runtime) (memory : ℕ → Memory) where
  IsConsistent-register_endpoints :
      (id : Bytes) (left i : ℕ) (j : JsonValue) (t : RoutingTable)
      → IsConsistent t
      → IsConsistent (register_endpoints rt memory id left i j t).0
  unfolding register_endpoints
  IsConsistent-register_endpoints id zero i j t c = c
  IsConsistent-register_endpoints id (suc left) i j t c =
      IsConsistent-then_table _ _ (IsConsistent-with_definition id _ t c)
        (λ t' c'. IsConsistent-register_endpoints id left (i + 1) j t' c')

  IsConsistent-endpoints_of :
      (id : Bytes) (j : JsonValue) (t : RoutingTable)
      → IsConsistent t
      → IsConsistent (endpoints_of rt memory id j t).0
  IsConsistent-endpoints_of id j t c =
      elim (Bool-cases
        (has_member j (codes "endpoints") && is_array (get_member j (codes "endpoints")))) [
          | inl given ↦ rw given (IsConsistent-register_endpoints id _ 0 _ t c)
          | inr missing ↦ rw missing c
        ]

  Keeps-with_table :
      (writes : List Write) (fd : ℕ) (f : Frame) (id : Bytes) (b : Backends) (g : Gateway)
      (o : RoutingTable × Bool)
      → IsConsistent o.0
      → Keeps (with_table writes fd f id b g o)
  Keeps-with_table writes fd f id b g (t, false) c = c
  Keeps-with_table writes fd f id b g (t, true) c =
      Keeps-after_answer fd (record g { backends = b; routing_table = t }) _ c

  Keeps-register_named :
      (writes : List Write) (fd : ℕ) (f : Frame) (j : JsonValue) (id : Bytes) (g : Gateway)
      → IsConsistent g.routing_table
      → Keeps (register_named rt memory writes fd f j id g)
  Keeps-register_named writes fd f j [] g c = c
  Keeps-register_named writes fd f j (x ∷ id) g c =
      Keeps-with_table writes fd f (x ∷ id) _ g _
        (IsConsistent-endpoints_of (x ∷ id) j g.routing_table c)

  Keeps-handle_registration :
      (writes : List Write) (fd : ℕ) (f : Frame) (g : Gateway) (o : Result JsonValue)
      → IsConsistent g.routing_table
      → Keeps (handle_registration rt memory writes fd f g o)
  Keeps-handle_registration writes fd f g (ok j) c = elim (Bool-cases (is_object j)) [
    | inl given ↦ rw given (Keeps-register_named writes fd f j _ g c)
    | inr other ↦ rw other c
  ]
  Keeps-handle_registration writes fd f g (failed m at) c = c
  Keeps-handle_registration writes fd f g threw c = c
  Keeps-handle_registration writes fd f g out_of_fuel c = c

IsConsistent-remove_backend :
    (fd : ℕ) (id : Bytes) (g : Gateway)
    → IsConsistent g.routing_table
    → IsConsistent (remove_backend fd id g).routing_table
IsConsistent-remove_backend fd id g c =
    (remove_endpoints_by_backend-IsConsistent g.routing_table id c).0

Keeps-handle_unregistration :
    (fd : ℕ) (g : Gateway) (o : Result JsonValue)
    → IsConsistent g.routing_table
    → Keeps (handle_unregistration fd g o)
Keeps-handle_unregistration fd g (ok j) c =
    elim (Bool-cases (is_object j && has_member j (codes "backend_id"))) [
      | inl given ↦ rw given (IsConsistent-remove_backend fd _ g c)
      | inr other ↦ rw other c
    ]
Keeps-handle_unregistration fd g (failed m at) c = c
Keeps-handle_unregistration fd g threw c = c
Keeps-handle_unregistration fd g out_of_fuel c = c

IsConsistent-remove_lost :
    (fd : ℕ) (ids : List Bytes) (g : Gateway)
    → IsConsistent g.routing_table
    → IsConsistent (remove_lost fd ids g).routing_table
unfolding remove_lost
IsConsistent-remove_lost fd [] g c = c
IsConsistent-remove_lost fd (id ∷ ids) g c =
    elim (Bool-cases (has_descriptor fd (get_backend_file_descriptor g.backends id))) [
      | inl lost ↦ rw lost (IsConsistent-remove_backend fd id g c)
      | inr other ↦ rw other (IsConsistent-remove_lost fd ids g c)
    ]

module _ (rt : Runtime) (memory : ℕ → Memory) (fd : ℕ) where
  Keeps-handle_type :
      (writes : List Write) (f : Frame) (t : FrameType) (g : Gateway)
      → IsConsistent g.routing_table
      → Keeps (handle_type rt memory writes fd f t g)
  Keeps-handle_type writes f FrameType.registration g c =
      Keeps-handle_registration rt memory writes fd f g _ c
  Keeps-handle_type writes f FrameType.unregistration g c = Keeps-handle_unregistration fd g _ c
  Keeps-handle_type writes f FrameType.heartbeat g c = Keeps-after_answer fd g _ c
  Keeps-handle_type writes f FrameType.error g c = IsConsistent-remove_lost fd _ g c
  Keeps-handle_type writes f FrameType.request g c = c
  Keeps-handle_type writes f FrameType.response g c = c
  Keeps-handle_type writes f FrameType.login_response g c = c
  Keeps-handle_type writes f FrameType.token_response g c = c
  Keeps-handle_type writes f (FrameType.unnamed n) g c = c

  Keeps-then_handle :
      (h : Handled) (next : Gateway → Handled)
      → Keeps h
      → ((g : Gateway) → IsConsistent g.routing_table → Keeps (next g))
      → Keeps (then_handle h next)
  Keeps-then_handle (goes_on g) next c k = k g c
  Keeps-then_handle (ends g) next c k = c
  Keeps-then_handle (waits g) next c k = c
  Keeps-then_handle (breaks g) next c k = c

  -- HandleBackendConnection keeps a consistent routing table consistent, whatever frames arrive
  -- on the connection, whatever their payloads register or remove, and wherever a write or an
  -- exception stops it.
  pub handle_backend_connection-IsConsistent :
      (calls : List (Frame × List Write)) (g : Gateway)
      → IsConsistent g.routing_table
      → IsConsistent (gateway_of (handle_backend_connection rt memory fd calls g)).routing_table
  unfolding handle_backend_connection handle_frame
  handle_backend_connection-IsConsistent [] g c = c
  handle_backend_connection-IsConsistent ((f, writes) ∷ calls) g c =
      Keeps-then_handle (handle_frame rt memory fd (f, writes) g)
        (handle_backend_connection rt memory fd calls) (Keeps-handle_type writes f f.frame_type g c)
        (λ g' c'. handle_backend_connection-IsConsistent calls g' c')
