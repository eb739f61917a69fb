-- ===== src/Routing/Tests.antt =====
-- The table at concrete inputs.
use rest_api_gateway.Prelude.{
  ◌≡◌, ◌↔◌, false, ◌&&◌, none, some, Bytes, codes, length, ◌=s=◌, if◌then◌else◌,
}
use rest_api_gateway.Method.{HttpMethod, get, post}
use rest_api_gateway.Endpoint.{EndpointDefinition, new_builder, build, route_key, route_key_of}
use rest_api_gateway.Routing.{
  RoutingTable, empty_table, register_endpoint, unregister_endpoint, find_endpoint, has_endpoint,
  remove_endpoints_by_backend, get_endpoints_by_backend,
}
use rest_api_gateway.Routing.Invariant.{
  IsConsistent, endpoint_at, empty_table-IsConsistent, register_endpoint-IsConsistent,
  endpoint_at-register_endpoint,
}
use rest_api_gateway.Routing.Removal.{Removed, unregister_endpoint-Removed}
use rest_api_gateway.Routing.Backend.{without, remove_endpoints_by_backend-IsConsistent}
use rest_api_gateway.Routing.Search.{is_found, has_endpoint-find_endpoint}

abbrev endpoint_for : Bytes → HttpMethod → Bytes → EndpointDefinition
endpoint_for path m backend =
    build (record new_builder { path = path; method = m; backend_identifier = backend })

abbrev user : EndpointDefinition
user = endpoint_for (codes "/users/{id}") get (codes "users")

abbrev orders : EndpointDefinition
orders = endpoint_for (codes "/orders") post (codes "shop")

abbrev one_route : RoutingTable
one_route = (register_endpoint empty_table user).0

abbrev two_routes : RoutingTable
two_routes = (register_endpoint one_route orders).0

one_route-IsConsistent : IsConsistent one_route
one_route-IsConsistent = register_endpoint-IsConsistent empty_table user empty_table-IsConsistent

two_routes-IsConsistent : IsConsistent two_routes
two_routes-IsConsistent = register_endpoint-IsConsistent one_route orders one_route-IsConsistent

register_endpoint-IsConsistent_example : IsConsistent (register_endpoint one_route orders).0
register_endpoint-IsConsistent_example =
    register_endpoint-IsConsistent one_route orders one_route-IsConsistent

endpoint_at-register_endpoint_example :
    endpoint_at (register_endpoint one_route orders).0 (route_key orders) ≡ (
      if (register_endpoint one_route orders).1 && route_key orders =s= route_key orders
      then some orders
      else endpoint_at one_route (route_key orders))
endpoint_at-register_endpoint_example =
    endpoint_at-register_endpoint one_route orders (route_key orders) one_route-IsConsistent

unregister_endpoint-Removed_example :
    Removed two_routes
      (route_key_of get (codes "/users/{id}"))
      (unregister_endpoint two_routes (codes "/users/{id}") get).0
    × (((unregister_endpoint two_routes (codes "/users/{id}") get).1 ≡ false)
        ↔ (endpoint_at two_routes (route_key_of get (codes "/users/{id}")) ≡ none))
unregister_endpoint-Removed_example =
    unregister_endpoint-Removed two_routes (codes "/users/{id}") get two_routes-IsConsistent

remove_endpoints_by_backend-IsConsistent_example :
    IsConsistent (remove_endpoints_by_backend two_routes (codes "shop")).0
    × ((remove_endpoints_by_backend two_routes (codes "shop")).0.endpoints
        ≡ without (codes "shop") two_routes.endpoints)
    × ((remove_endpoints_by_backend two_routes (codes "shop")).1
        ≡ length (get_endpoints_by_backend two_routes (codes "shop")))
remove_endpoints_by_backend-IsConsistent_example =
    remove_endpoints_by_backend-IsConsistent two_routes (codes "shop") two_routes-IsConsistent

has_endpoint-find_endpoint_example :
    has_endpoint two_routes (codes "/users/7") get
    ≡ is_found (find_endpoint two_routes (codes "/users/7") get)
has_endpoint-find_endpoint_example =
    has_endpoint-find_endpoint two_routes (codes "/users/7") get two_routes-IsConsistent
