-- ===== src/Server/Client.antt =====
-- HandleClientConnection of src/main.cpp: the reading of a request, its routing and the answer. A
-- read that gives no bytes is the end of the connection. Logging is left out.
use rest_api_gateway.Prelude.{Bool, true, false, List, [], ◌∷◌, ◌++◌, Bytes, codes, if◌then◌else◌}
use rest_api_gateway.Http.{HttpRequest, Outcome, done, threw, parse}
use rest_api_gateway.Response.{build_response, create_bad_request}
use rest_api_gateway.Forwarder.{BackendForwarder, Forwarding, answered, suspended}
use rest_api_gateway.Server.{Gateway, Surroundings, route_request}

-- The request behind the loop that reads its body; `reading` waits for more bytes, and
-- `reading_threw` is an exception of the parser.
pub data Reading : Type 0 where
  ready : HttpRequest → Reading
  reading reading_threw : Reading

abbrev then_read : Outcome → (HttpRequest → Reading) → Reading
then_read (done r result) next = next r
then_read threw next = reading_threw

abbrev is_empty : Bytes → Bool
is_empty [] = true
is_empty (c ∷ s) = false

-- The loop while the body is incomplete; what Parse returns there is not looked at.
unfoldable pub read_body : List Bytes → Bytes → HttpRequest → Reading
read_body [] raw r = if r.is_complete then ready r else reading
read_body (more ∷ reads) raw r =
    let next = then_read (parse (raw ++ more) r) (read_body reads (raw ++ more)) in
    if r.is_complete then ready r else if is_empty more then ready r else next

-- The bytes that are written to the client behind which the connection is closed; `dropped` closes
-- it at once.
pub data Served : Type 0 where
  served : Bytes → BackendForwarder → Served
  dropped unfinished broken : BackendForwarder → Served

abbrev with_answer : Surroundings → Forwarding → Served
with_answer s (answered response w) = served (build_response s.walk response) w
with_answer s (suspended w) = unfinished w
with_answer s (Forwarding.crashed w) = broken w

abbrev with_reading : Surroundings → Gateway → Reading → Served
with_reading s g (ready r) = with_answer s (route_request s g r)
with_reading s g reading = unfinished g.forwarder
with_reading s g reading_threw = broken g.forwarder

abbrev with_first : Surroundings → Gateway → List Bytes → Bytes → Outcome → Served
with_first s g reads raw threw = broken g.forwarder
with_first s g reads raw (done r true) = with_reading s g (read_body reads raw r)
with_first s g reads raw (done r false) =
    served (build_response s.walk (create_bad_request (codes "Malformed HTTP request"))) g.forwarder

-- HandleClientConnection; `fresh` is the request that HttpRequest() makes.
unfoldable pub handle_client_connection : Surroundings → Gateway → HttpRequest → List Bytes → Served
handle_client_connection s g fresh [] = unfinished g.forwarder
handle_client_connection s g fresh ([] ∷ reads) = dropped g.forwarder
handle_client_connection s g fresh ((c ∷ raw) ∷ reads) =
    with_first s g reads (c ∷ raw) (parse (c ∷ raw) fresh)
