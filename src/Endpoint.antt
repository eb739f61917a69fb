-- ===== src/Endpoint.antt =====
-- EndpointDefinition and its builder: include/gateway/routing/EndpointDefinition.h and
-- src/routing/EndpointDefinition.cpp; the reading of a definition out of JSON is in Reader.
pub mod Paths
pub mod Reader
mod Tests
use rest_api_gateway.Prelude.{
  ℕ, ◌+◌, ◌-◌, Bool, true, false, not, ◌&&◌, List, [], ◌∷◌, ◌++◌, Option, none, some, Bytes, codes,
  ◌=s=◌, length, take, drop, get_or, ◌==◌, if◌then◌else◌,
}
use rest_api_gateway.Prelude.Map.{insert}
use rest_api_gateway.Method.{HttpMethod, unknown, http_method_to_string, ◌=m=◌}
use rest_api_gateway.Schema.{ParameterSchema}

abbrev pub Params : Type 0
Params = List (Bytes × Bytes)

pub record EndpointDefinition : Type 0 where
  pub path : Bytes
  pub method : HttpMethod
  pub backend_identifier : Bytes
  pub description : Bytes
  pub requires_authentication : Bool
  pub parameter_schemas : List ParameterSchema
  pub path_segments : List Bytes
  pub is_parameter_segment : List Bool
  pub parameter_names : List Bytes

-- What getline returns, but for the empty segments, which both callers leave out.
abbrev pub push_segment : Bytes → List Bytes → List Bytes
push_segment [] rest = rest
push_segment (c ∷ s) rest = (c ∷ s) ∷ rest

unfoldable pub split_from : Bytes → Bytes → List Bytes
split_from segment [] = push_segment segment []
split_from segment (c ∷ s) =
    let closed = split_from [] s in
    let longer = split_from (segment ++ c ∷ []) s in
    if c == b'/' then push_segment segment closed else longer

-- The loop of getline at '/', in MatchesPath and in ParsePathSegments.
unfoldable pub split_segments : Bytes → List Bytes
unfolding split_from
split_segments path = split_from [] path

-- The loop of MatchesPath over its three parallel vectors; `none` is the result false. The builder
-- gives the vectors one length, and the caller compares the counts of the segments first.
unfoldable pub match_segments :
    List Bytes → List Bool → List Bytes → List Bytes → Params → Option Params
match_segments [] flags names requested params = some params
match_segments (p ∷ ps) (true ∷ flags) (n ∷ names) (r ∷ requested) params =
    match_segments ps flags names requested (insert n r params)
match_segments (p ∷ ps) (false ∷ flags) (n ∷ names) (r ∷ requested) params =
    let rest = match_segments ps flags names requested params in if p =s= r then rest else none
match_segments _ _ _ _ params = none

unfoldable pub matches_path : EndpointDefinition → Bytes → Option Params
matches_path e request =
    let requested = split_segments request in
    if length requested == length e.path_segments
    then match_segments e.path_segments e.is_parameter_segment e.parameter_names requested []
    else none

unfoldable pub is_valid_endpoint : EndpointDefinition → Bool
is_valid_endpoint e = not (e.path =s= []) && not (e.method =m= unknown)

unfoldable pub route_key_of : HttpMethod → Bytes → Bytes
route_key_of m path = http_method_to_string m ++ (codes ":" ++ path)

unfoldable pub route_key : EndpointDefinition → Bytes
unfolding route_key_of
route_key e = route_key_of e.method e.path

-- EndpointDefinitionBuilder() and its setters work on one definition.
unfoldable pub new_builder : EndpointDefinition
new_builder = record {
  path = [];
  method = unknown;
  backend_identifier = [];
  description = [];
  requires_authentication = false;
  parameter_schemas = [];
  path_segments = [];
  is_parameter_segment = [];
  parameter_names = [];
}

unfoldable pub add_parameter_schema : ParameterSchema → EndpointDefinition → EndpointDefinition
add_parameter_schema s e = record e { parameter_schemas = e.parameter_schemas ++ s ∷ [] }

abbrev pub front : Bytes → ℕ
front s = get_or s 0 0

abbrev pub back : Bytes → ℕ
back s = get_or s (length s - 1) 0

unfoldable pub is_parameter : Bytes → Bool
is_parameter segment = front segment == b'{' && back segment == b'}'

-- substr(1, size - 2)
unfoldable pub parameter_name : Bytes → Bytes
parameter_name segment =
    if is_parameter segment then take (length segment - 2) (drop 1 segment) else []

abbrev pub parameter_flags : List Bytes → List Bool
parameter_flags [] = []
parameter_flags (s ∷ segments) = is_parameter s ∷ parameter_flags segments

abbrev pub names_of : List Bytes → List Bytes
names_of [] = []
names_of (s ∷ segments) = parameter_name s ∷ names_of segments

unfoldable pub parse_path_segments : EndpointDefinition → EndpointDefinition
parse_path_segments e =
    let segments = split_segments e.path in
    record e {
      path_segments = segments;
      is_parameter_segment = parameter_flags segments;
      parameter_names = names_of segments;
    }

unfoldable pub build : EndpointDefinition → EndpointDefinition
unfolding parse_path_segments
build e = parse_path_segments e
