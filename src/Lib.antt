-- ===== src/Lib.antt =====
-- A model of the REST API gateway: an HTTP server in C++ that authenticates and validates requests,
-- looks up the endpoint that backends have registered for a path, and forwards the request as a
-- binary frame over a Unix socket.
--
-- The parts modelled, with their sources:
--   Prelude   shared names, tests, lists and texts, maps, integers
--   Frame     include/gateway/transport/FrameProtocol.h, src/transport/FrameProtocol.cpp:
--             SerializeFrame, DeserializeFrame, HasCompleteFrame, SendFrame, ReceiveFrame
--   Method    include/gateway/Common.h and the end of src/main.cpp: HttpMethod and its texts
--   Decimal   what the sources use of to_string, strtoll, stoll and stoul
--   Runtime   what the sources use of doubles and of std::regex
--   Json      include/gateway/validation/JsonParser.h, src/validation/JsonParser.cpp: values,
--             Serialize and the parser
--   Schema    include/gateway/routing/ParameterSchema.h, src/routing/ParameterSchema.cpp:
--             ValidateValue and the checks below it; in Reader, ParseParameterSchemaFromJson
--   Endpoint  include/gateway/routing/EndpointDefinition.h, src/routing/EndpointDefinition.cpp:
--             MatchesPath, GetRouteKey and the builder; in Reader, ParseEndpointDefinitionFromJson
--   Routing   include/gateway/routing/RoutingTable.h, src/routing/RoutingTable.cpp: every operation
--   Base64    Base64UrlEncode and Base64UrlDecode of src/auth/AesGcm.cpp
--   AesGcm    AesGcm::Encrypt and AesGcm::Decrypt of src/auth/AesGcm.cpp: the packing of IV,
--             ciphertext and tag
--   Token     include/gateway/auth/TokenEngine.h, src/auth/TokenEngine.cpp: payloads, issue,
--             validation, rotation and revocation of tokens
--   Url       UrlDecode and ParseQueryString of src/transport/HttpParser.cpp
--   Http      include/gateway/transport/HttpParser.h, src/transport/HttpParser.cpp: Parse and
--             IsRequestComplete
--   Response  include/gateway/transport/HttpResponse.h, src/transport/HttpResponse.cpp
--   Validation  include/gateway/validation/ValidationEngine.h,
--             src/validation/ValidationEngine.cpp
--   Formatter  include/gateway/forwarding/RequestFormatter.h,
--             src/forwarding/RequestFormatter.cpp
--   Forwarder  include/gateway/forwarding/BackendForwarder.h,
--             src/forwarding/BackendForwarder.cpp:
--             ForwardRequest, ForwardTokenRefreshRequest and what they call; in Login,
--             ForwardLoginRequest
--   Server    RouteRequest of src/main.cpp; in Connection,
--             HandleBackendConnection, whose end of a connection is in Lost; in Client,
--             HandleClientConnection
--   Backends  include/gateway/transport/UnixSocketListener.h, src/transport/UnixSocketListener.cpp:
--             the registry of backends
--
-- How they interact: Http reads a request's method with Method and its query with Url. Routing
-- keeps Endpoint's definitions under their route keys, which Method's texts begin; an endpoint
-- carries Schema's parameter schemas. Token seals its payload with AesGcm and writes it as a text
-- with Base64; its words are written as Frame writes them. Backends says which connection Frame's
-- frames go to. Server joins them: it finds the endpoint of a request with Routing, checks its token
-- with Token and its parameters with Validation, which reads a body with Json, and passes it to
-- Forwarder, which writes it as Json with Formatter, sends it as a Frame and makes a Response. It
-- registers the backends and the endpoints that their frames name, and removes them.
--
-- Conventions. A std::string or a byte vector is a list of byte values; an unordered_map is an
-- association list behind lookup, insert and erase. Words of 8, 32 and 64 bits wrap around by
-- `%`; an int64_t timestamp is its 64-bit pattern. An operation that may fail gives an option or a
-- result type; a read outside a vector or a string is a result of its own. A mutex that a call
-- holds throughout makes the call one step. A coroutine that reads or writes a socket takes the
-- list of the outcomes of its system calls, and recursion follows that list. The printing of numbers
-- recurs on the well-founded order of the naturals. The JSON parser takes fuel, twice the length of
-- the input and one more: each call of a value or of a loop's round costs one, and a round consumes
-- a character. Its position is a uint32_t: below 2^32 - 4 characters no sum of it wraps around, and
-- a longer text has no result in the model.
--
-- Parameters for what is not in the repository: the kernel's AES-GCM (AesGcm.Kernel, whose contract
-- is AesGcm.Sealing.IsAead), the random bytes, the clock, std::regex and the C library's doubles
-- (Runtime).
--
-- Not modelled: logging, socket set-up, epoll and the coroutine machinery, which are calls of the
-- system or of the language; the configuration, and the loops that accept connections.
pub mod Prelude
pub mod Frame
pub mod Method
pub mod Decimal
pub mod Runtime
pub mod Schema
pub mod Endpoint
pub mod Routing
pub mod Base64
pub mod AesGcm
pub mod Token
pub mod Url
pub mod Http
pub mod Backends
pub mod Json
pub mod Response
pub mod Validation
pub mod Formatter
pub mod Forwarder
pub mod Server
