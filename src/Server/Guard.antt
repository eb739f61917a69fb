-- ===== src/Server/Guard.antt =====
-- Nothing goes to a backend but a request that has passed every check.
use rest_api_gateway.Prelude.{
  ℕ, ◌≡◌, ◌⊎◌, inl, inr, refl, sym, ap, ◌∙◌, Bool, true, false, Bool-cases, List, [], ◌∷◌, ◌++◌,
  Option, none, some, Bytes, codes, ◌=s=◌, bytes_eq_iff, take, drop, take-append-drop, All,
  if◌then◌else◌,
}
use rest_api_gateway.Prelude.Map.{lookup, insert}
use rest_api_gateway.Frame.{
  Frame, FrameType, Write, Sent, sending, sent, Read, Received, receiving, received, send_frame,
}
use rest_api_gateway.Token.Engine.{
  Validation, accepted, rejected, crashed, validate_access_token, Refreshed, refreshed,
  refresh_crashed,
}
use rest_api_gateway.Backends.{get_backend_file_descriptor}
use rest_api_gateway.Endpoint.{EndpointDefinition, Params}
use rest_api_gateway.Routing.{Found, found, not_found, out_of_range, find_endpoint}
use rest_api_gateway.Http.{HttpRequest}
use rest_api_gateway.Runtime.{Runtime}
use rest_api_gateway.Validation.{
  ValidationResult, Validated, validated, validation_threw, validate_request,
}
use rest_api_gateway.Validation.Meets.{IsMet}
use rest_api_gateway.Validation.Accepts.{validate_request_iff}
use rest_api_gateway.Forwarder.{
  BackendForwarder, Forwarding, answered, suspended, on_wire, with_buffer, answer_or_crash, respond,
  after_receive, after_send, send_and_receive, forward_formatted, forward_via, forward_request,
  after_refresh, forward_token_refresh_request,
}
use rest_api_gateway.Response.{HttpResponse}
use rest_api_gateway.Server.{
  Gateway, Surroundings, Access, granted, denied, access_crashed, access_of, bearer,
  with_authorization, authenticate, refresh_with, is_refresh, dispatch_request, with_validation,
  with_access, with_found, route_request,
}

-- What has gone out on the connections of backends.
abbrev pub wire_of : Forwarding → List (ℕ × Bytes)
wire_of (answered response w) = w.wire
wire_of (suspended w) = w.wire
wire_of (Forwarding.crashed w) = w.wire

-- Nothing has gone out, or some bytes on one connection.
abbrev Sends : BackendForwarder → ℕ → Forwarding → Type 0
Sends w fd out = (wire_of out ≡ w.wire) ⊎ ((bytes : Bytes) × (wire_of out ≡ (fd, bytes) ∷ w.wire))

wire-answer_or_crash :
    (o : Option HttpResponse) (w : BackendForwarder) → wire_of (answer_or_crash o w) ≡ w.wire
wire-answer_or_crash none w = refl
wire-answer_or_crash (some response) w = refl

wire-respond :
    (rt : Runtime) (f : Frame) (t : FrameType) (w : BackendForwarder)
    → wire_of (respond rt f t w) ≡ w.wire
wire-respond rt f FrameType.error w = refl
wire-respond rt f FrameType.registration w = wire-answer_or_crash _ w
wire-respond rt f FrameType.unregistration w = wire-answer_or_crash _ w
wire-respond rt f FrameType.request w = wire-answer_or_crash _ w
wire-respond rt f FrameType.response w = wire-answer_or_crash _ w
wire-respond rt f FrameType.login_response w = wire-answer_or_crash _ w
wire-respond rt f FrameType.token_response w = wire-answer_or_crash _ w
wire-respond rt f FrameType.heartbeat w = wire-answer_or_crash _ w
wire-respond rt f (FrameType.unnamed n) w = wire-answer_or_crash _ w

wire-after_receive :
    (rt : Runtime) (fd : ℕ) (w : BackendForwarder) (o : Received)
    → wire_of (after_receive rt fd w o) ≡ w.wire
wire-after_receive rt fd w (receiving buffer) = refl
wire-after_receive rt fd w (received f buffer calls) =
    wire-respond rt f f.frame_type (with_buffer fd buffer w)

Sends-after_send :
    (rt : Runtime) (reads : List Read) (fd : ℕ) (w : BackendForwarder) (o : Option Sent)
    → Sends w fd (after_send rt reads fd w o)
Sends-after_send rt reads fd w none = inl refl
Sends-after_send rt reads fd w (some (sending bytes)) = inr (bytes, refl)
Sends-after_send rt reads fd w (some (sent bytes false)) = inr (bytes, refl)
Sends-after_send rt reads fd w (some (sent bytes true)) =
    inr (bytes, wire-after_receive rt fd (on_wire fd bytes w) _)

Sends-forward_formatted :
    (rt : Runtime) (writes : List Write) (reads : List Read) (fd : ℕ) (w : BackendForwarder)
    (o : Option (Frame × ℕ))
    → Sends w fd (forward_formatted rt writes reads fd w o)
unfolding send_and_receive
Sends-forward_formatted rt writes reads fd w none = inl refl
Sends-forward_formatted rt writes reads fd w (some (f, next)) =
    Sends-after_send rt reads fd (record w { next_request_identifier = next }) (send_frame writes f)

module _ (s : Surroundings) (g : Gateway) where
  -- The request `checked` that the check of the authentication lets through: the very request
  -- where the endpoint asks for nothing, else the request has a token in its header that the token
  -- engine accepts for the endpoint's backend, and only the header with its user is added.
  abbrev pub IsAdmitted : HttpRequest → EndpointDefinition → HttpRequest → Type 0
  IsAdmitted r e checked =
      ((e.requires_authentication ≡ false) × (checked ≡ r))
      ⊎ ((token : Bytes) × ((user : Bytes) × ((lookup (codes "authorization") r.headers
                ≡ some (bearer ++ token))
              × ((validate_access_token s.kernel g.forwarder.token_engine s.auth_time token
                      e.backend_identifier
                    ≡ accepted user)
                  × (checked ≡ record r {
                    headers = insert (codes "x-authenticated-user") user r.headers;
                  })))))

  -- The bytes on the connection of the endpoint's backend.
  abbrev pub IsSentTo : EndpointDefinition → Forwarding → Type 0
  IsSentTo e out =
      (fd : ℕ) × ((bytes : Bytes) × ((get_backend_file_descriptor g.backends e.backend_identifier
            ≡ some fd)
          × (wire_of out ≡ (fd, bytes) ∷ g.forwarder.wire)))

  abbrev IsQuiet : Forwarding → Type 0
  IsQuiet out = wire_of out ≡ g.forwarder.wire

  -- A request that reached a backend: its endpoint, and the request that was validated.
  pub record IsAllowed (r : HttpRequest) (out : Forwarding) : Type 0 where
    pub endpoint : EndpointDefinition
    pub params : Params
    pub checked_request : HttpRequest
    pub is_found : find_endpoint g.routing_table r.path r.method ≡ found endpoint params
    pub is_admitted : IsAdmitted (record r { path_parameters = params }) endpoint checked_request
    pub is_met : All (IsMet s.runtime checked_request) endpoint.parameter_schemas
    pub is_sent : IsSentTo endpoint out

  forward_sends :
      (r : HttpRequest) (e : EndpointDefinition) (o : Option ℕ)
      → get_backend_file_descriptor g.backends e.backend_identifier ≡ o
      → IsQuiet (forward_via s.runtime s.walk s.writes s.reads r e g.forwarder o)
        ⊎ IsSentTo e (forward_via s.runtime s.walk s.writes s.reads r e g.forwarder o)
  forward_sends r e none h = inl refl
  forward_sends r e (some fd) h =
      elim (Sends-forward_formatted s.runtime s.writes s.reads fd g.forwarder _) [
        | inl quiet ↦ inl quiet
        | inr (bytes, out) ↦ inr (fd, (bytes, (h, out)))
      ]

  IsQuiet-after_refresh :
      (w : BackendForwarder) (o : Refreshed) → wire_of (after_refresh w o) ≡ w.wire
  IsQuiet-after_refresh w refresh_crashed = refl
  IsQuiet-after_refresh w (refreshed engine none) = refl
  IsQuiet-after_refresh w (refreshed engine (some (a, b))) = refl

  IsQuiet-refresh_with :
      (e : EndpointDefinition) (o : Option Bytes) → IsQuiet (refresh_with s e g.forwarder o)
  unfolding forward_token_refresh_request
  IsQuiet-refresh_with e none = refl
  IsQuiet-refresh_with e (some []) = refl
  IsQuiet-refresh_with e (some (c ∷ token)) = IsQuiet-after_refresh g.forwarder _

  dispatch_sends :
      (r : HttpRequest) (e : EndpointDefinition)
      → IsQuiet (dispatch_request s g r e) ⊎ IsSentTo e (dispatch_request s g r e)
  unfolding dispatch_request forward_request
  dispatch_sends r e = elim (Bool-cases (is_refresh r)) [
    | inl yes_refresh ↦ rw yes_refresh (inl (IsQuiet-refresh_with e _))
    | inr other ↦ rw other (forward_sends r e _ refl)
  ]

  validation_sends :
      (r : HttpRequest) (e : EndpointDefinition) (v : Validated ValidationResult)
      → validate_request s.runtime r e ≡ v
      → IsQuiet (with_validation s g r e v)
        ⊎ (All (IsMet s.runtime r) e.parameter_schemas × IsSentTo e (with_validation s g r e v))
  validation_sends r e validation_threw h = inl refl
  validation_sends r e (validated v) h = elim (Bool-cases v.is_valid) [
    | inr invalid ↦ rw invalid (inl refl)
    | inl valid ↦
        let met = (validate_request_iff s.runtime r e v h).0 valid in
        rw valid (elim (dispatch_sends r e) [ inl quiet ↦ inl quiet | inr out ↦ inr (met, out) ])
  ]

  -- What a granted access says of the request.
  abbrev Grants : HttpRequest → EndpointDefinition → Access → Type 0
  Grants r e (granted r') = IsAdmitted r e r'
  Grants r e denied = Unit
  Grants r e access_crashed = Unit

  Grants-access_of :
      (r : HttpRequest) (e : EndpointDefinition) (token : Bytes) (o : Validation)
      → lookup (codes "authorization") r.headers ≡ some (bearer ++ token)
      → validate_access_token s.kernel g.forwarder.token_engine s.auth_time token
          e.backend_identifier
        ≡ o
      → Grants r e (access_of r o)
  Grants-access_of r e token (accepted user) at valid = inr (token, (user, (at, (valid, refl))))
  Grants-access_of r e token rejected at valid = tt
  Grants-access_of r e token crashed at valid = tt

  Grants-with_authorization :
      (r : HttpRequest) (e : EndpointDefinition) (o : Option Bytes)
      → lookup (codes "authorization") r.headers ≡ o
      → Grants r e (with_authorization s g r e o)
  Grants-with_authorization r e none h = tt
  Grants-with_authorization r e (some value) h = elim (Bool-cases (take 7 value =s= bearer)) [
    | inr other ↦ rw other tt
    | inl same ↦
        let front = (bytes_eq_iff (take 7 value) bearer).0 same in
        let whole : value ≡ bearer ++ drop 7 value =
          sym (take-append-drop 7 value) ∙ ap (λ t. t ++ drop 7 value) front in
        rw same (Grants-access_of r e (drop 7 value) _ (h ∙ ap some whole) refl)
  ]

  Grants-if :
      (r : HttpRequest) (e : EndpointDefinition) (b : Bool)
      → e.requires_authentication ≡ b
      → Grants r e (
          if b
          then with_authorization s g r e (lookup (codes "authorization") r.headers)
          else granted r)
  Grants-if r e true h = Grants-with_authorization r e _ refl
  Grants-if r e false h = inl (h, refl)

  Grants-authenticate :
      (r : HttpRequest) (e : EndpointDefinition) → Grants r e (authenticate s g r e)
  unfolding authenticate
  Grants-authenticate r e = Grants-if r e e.requires_authentication refl

  access_allows :
      (r : HttpRequest) (e : EndpointDefinition) (params : Params) (o : Access)
      → find_endpoint g.routing_table r.path r.method ≡ found e params
      → Grants (record r { path_parameters = params }) e o
      → IsQuiet (with_access s g e o) ⊎ IsAllowed r (with_access s g e o)
  access_allows r e params denied at grants = inl refl
  access_allows r e params access_crashed at grants = inl refl
  access_allows r e params (granted r') at admitted = elim (validation_sends r' e _ refl) [
    | inl quiet ↦ inl quiet
    | inr (met, out) ↦ inr (record {
      endpoint = e;
      params = params;
      checked_request = r';
      is_found = at;
      is_admitted = admitted;
      is_met = met;
      is_sent = out;
    })
  ]

  found_allows :
      (r : HttpRequest) (o : Found)
      → find_endpoint g.routing_table r.path r.method ≡ o
      → IsQuiet (with_found s g r o) ⊎ IsAllowed r (with_found s g r o)
  found_allows r out_of_range h = inl refl
  found_allows r not_found h = inl refl
  found_allows r (found e params) h =
      access_allows r e params _ h (Grants-authenticate (record r { path_parameters = params }) e)

  -- Whatever the request, the endpoints, the tokens and the system calls are, RouteRequest
  -- either puts nothing on the connection of any backend, or an endpoint was found for the
  -- request's path and method; the request that was validated is the client's with the
  -- endpoint's path parameters, itself where the endpoint requires no authentication, else with
  -- the header x-authenticated-user added for the user of a bearer token in its authorization
  -- header that the token engine accepts for the endpoint's backend; it meets every parameter
  -- schema of the endpoint, where an empty text in a body field meets any constraint; and what
  -- went out went to that backend's connection only.
  pub route_request-IsAllowed :
      (r : HttpRequest)
      → (wire_of (route_request s g r) ≡ g.forwarder.wire) ⊎ IsAllowed r (route_request s g r)
  unfolding route_request
  route_request-IsAllowed r = found_allows r _ refl
