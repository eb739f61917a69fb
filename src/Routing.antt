-- ===== src/Routing.antt =====
-- include/gateway/routing/RoutingTable.h and src/routing/RoutingTable.cpp: the endpoints in a vector,
-- with an index from route keys to positions. Each public call holds the mutex throughout, so a call
-- is one step on the table. Log lines are left out.
pub mod Keyed
pub mod Swap
pub mod Invariant
pub mod Shrinking
pub mod Removal
pub mod Backend
pub mod Search
mod Tests
use rest_api_gateway.Prelude.{
  ℕ, zero, suc, ◌+◌, ◌-◌, ◌%◌, ◌^◌, Bool, true, false, not, ◌&&◌, List, [], ◌∷◌, ◌++◌, Option, none,
  some, Bytes, ◌=s=◌, length, get_elem?, set, ltb, ◌==◌, if◌then◌else◌,
}
use rest_api_gateway.Prelude.Map.{lookup, insert, erase}
use rest_api_gateway.Method.{HttpMethod, ◌=m=◌}
use rest_api_gateway.Endpoint.{
  Params, EndpointDefinition, matches_path, is_valid_endpoint, route_key_of, route_key,
}
use Keyed.{drop_last, last?}

pub record RoutingTable : Type 0 where
  pub endpoints : List EndpointDefinition
  pub route_index : List (Bytes × ℕ)

abbrev pub max_endpoints : ℕ
max_endpoints = 4096

unfoldable pub empty_table : RoutingTable
empty_table = record { endpoints = []; route_index = [] }

abbrev register_at : RoutingTable → EndpointDefinition → Option ℕ → RoutingTable × Bool
register_at t e (some i) = (record t { endpoints = set t.endpoints i e }, true)
register_at t e none =
    if ltb (length t.endpoints) max_endpoints
    then (
      record {
        endpoints = t.endpoints ++ e ∷ [];
        route_index = insert (route_key e) (length t.endpoints % 2 ^ 32) t.route_index;
      },
      true,
    )
    else (t, false)

-- RegisterEndpoint. A write past the end of the vector, which the index never asks for, is dropped.
unfoldable pub register_endpoint : RoutingTable → EndpointDefinition → RoutingTable × Bool
register_endpoint t e =
    if is_valid_endpoint e then register_at t e (lookup (route_key e) t.route_index) else (t, false)

-- The table before the removed entry itself goes: the last endpoint has moved into its place.
abbrev move_last : RoutingTable → ℕ → Option EndpointDefinition → RoutingTable
move_last t i none = t
move_last t i (some last) = record {
  endpoints = set t.endpoints i last;
  route_index = insert (route_key last) i t.route_index;
}

-- `size() - 1` is unsigned.
unfoldable pub swap_last : RoutingTable → ℕ → RoutingTable
swap_last t i =
    if ltb i ((length t.endpoints + 2 ^ 64 - 1) % 2 ^ 64)
    then move_last t i (last? t.endpoints)
    else t

abbrev unregister_at : RoutingTable → Bytes → Option ℕ → RoutingTable × Bool
unregister_at t k none = (t, false)
unregister_at t k (some i) =
    let s = swap_last t i in
    (record { endpoints = drop_last s.endpoints; route_index = erase k s.route_index }, true)

-- UnregisterEndpoint
unfoldable pub unregister_endpoint : RoutingTable → Bytes → HttpMethod → RoutingTable × Bool
unregister_endpoint t path m =
    let k = route_key_of m path in unregister_at t k (lookup k t.route_index)

-- `out_of_range` is a read past the end of the vector.
pub data Found : Type 0 where
  found : EndpointDefinition → Params → Found
  not_found out_of_range : Found

abbrev or_next : EndpointDefinition → Option Params → Found → Found
or_next e none next = next
or_next e (some params) next = found e params

-- The loop over the endpoints, for patterns.
unfoldable pub find_pattern : List EndpointDefinition → Bytes → HttpMethod → Found
find_pattern [] path m = not_found
find_pattern (e ∷ es) path m =
    let next = find_pattern es path m in
    if e.method =m= m then or_next e (matches_path e path) next else next

abbrev found_at : Option EndpointDefinition → Found
found_at none = out_of_range
found_at (some e) = found e []

abbrev find_from : RoutingTable → Bytes → HttpMethod → Option ℕ → Found
find_from t path m (some i) = found_at (get_elem? t.endpoints i)
find_from t path m none = find_pattern t.endpoints path m

-- FindEndpoint; the caller passes an empty map of parameters.
unfoldable pub find_endpoint : RoutingTable → Bytes → HttpMethod → Found
find_endpoint t path m = find_from t path m (lookup (route_key_of m path) t.route_index)

abbrev is_given {ℓ} : {A : Type ℓ} → Option A → Bool
is_given none = false
is_given (some a) = true

unfoldable pub has_pattern : List EndpointDefinition → Bytes → HttpMethod → Bool
has_pattern [] path m = false
has_pattern (e ∷ es) path m =
    if e.method =m= m && is_given (matches_path e path) then true else has_pattern es path m

-- HasEndpoint
unfoldable pub has_endpoint : RoutingTable → Bytes → HttpMethod → Bool
has_endpoint t path m =
    if is_given (lookup (route_key_of m path) t.route_index)
    then true
    else has_pattern t.endpoints path m

unfoldable pub get_endpoint_count : RoutingTable → ℕ
get_endpoint_count t = length t.endpoints % 2 ^ 32

unfoldable pub of_backend : Bytes → List EndpointDefinition → List EndpointDefinition
of_backend b [] = []
of_backend b (e ∷ es) = if e.backend_identifier =s= b then e ∷ of_backend b es else of_backend b es

-- GetEndpointsByBackend
unfoldable pub get_endpoints_by_backend : RoutingTable → Bytes → List EndpointDefinition
get_endpoints_by_backend t b = of_backend b t.endpoints

-- The loop of RemoveEndpointsByBackend, with the new vector, the new index and the count removed.
unfoldable pub rebuild : Bytes → List EndpointDefinition → RoutingTable → ℕ → RoutingTable × ℕ
rebuild b [] t removed = (t, removed)
rebuild b (e ∷ es) t removed =
    let kept =
      rebuild b es
        (record {
          endpoints = t.endpoints ++ e ∷ [];
          route_index = insert (route_key e) (length t.endpoints % 2 ^ 32) t.route_index;
        })
        removed in
    let dropped = rebuild b es t ((removed + 1) % 2 ^ 32) in
    if not (e.backend_identifier =s= b) then kept else dropped

-- RemoveEndpointsByBackend
unfoldable pub remove_endpoints_by_backend : RoutingTable → Bytes → RoutingTable × ℕ
remove_endpoints_by_backend t b = rebuild b t.endpoints empty_table 0

-- Clear
unfoldable pub clear : RoutingTable → RoutingTable
clear t = empty_table
