-- ===== src/Routing/Backend.antt =====
-- Removing the endpoints of a backend keeps the table consistent.
use rest_api_gateway.Prelude.{
  ℕ, ◌+◌, ◌≤◌, ◌<◌, ◌%◌, ◌^◌, ◌≡◌, ◌≢◌, sym, ◌∙◌, subst, List, [], ◌∷◌, ◌++◌, none, Bytes, ◌=s=◌,
  length, if◌then◌else◌, arith, inl, inr, Bool-cases, length-append, All, bytes_eq_refl,
  append_assoc, append-nil,
}
use rest_api_gateway.Prelude.Map.{insert}
use rest_api_gateway.Endpoint.{EndpointDefinition, route_key}
use rest_api_gateway.Routing.Keyed.{position, Distinct}
use rest_api_gateway.Routing.Swap.{Distinct-apart, Distinct-without}
use rest_api_gateway.Routing.{
  RoutingTable, max_endpoints, empty_table, rebuild, remove_endpoints_by_backend, of_backend,
  get_endpoints_by_backend,
}
use rest_api_gateway.Routing.Invariant.{
  Valid, IsConsistent, append-IsConsistent, empty_table-IsConsistent,
}

-- Appending what the rebuilding loop keeps.
abbrev keep_one : RoutingTable → EndpointDefinition → RoutingTable
keep_one t e = record {
  endpoints = t.endpoints ++ e ∷ [];
  route_index = insert (route_key e) (length t.endpoints % 2 ^ 32) t.route_index;
}

-- The endpoints of the other backends.
abbrev pub without : Bytes → List EndpointDefinition → List EndpointDefinition
without b [] = []
without b (e ∷ es) = if e.backend_identifier =s= b then without b es else e ∷ without b es

position-front_ne :
    (e : EndpointDefinition) (es : List EndpointDefinition)
    → position route_key (route_key e) (e ∷ es) ≢ none
unfolding position
position-front_ne e es q = ground (arith, bytes_eq_refl (route_key e))

-- The loop, on a table built so far whose keys differ from those of the endpoints left.
rebuild-IsConsistent :
    (b : Bytes) (es : List EndpointDefinition) (t : RoutingTable) (n : ℕ)
    → IsConsistent t
    → Distinct route_key (t.endpoints ++ es)
    → All Valid es
    → length t.endpoints + length es ≤ max_endpoints
    → IsConsistent (rebuild b es t n).0
      × ((rebuild b es t n).0.endpoints ≡ t.endpoints ++ without b es)
unfolding rebuild
rebuild-IsConsistent b [] t n c d v h = (c, sym (append-nil t.endpoints))
rebuild-IsConsistent b (e ∷ es) t n c d (ve, v) h = elim (Bool-cases (e.backend_identifier =s= b)) [
  | inl hit ↦ rw hit (
      rebuild-IsConsistent b es t ((n + 1) % 2 ^ 32) c
        (Distinct-without route_key t.endpoints e es d) v (omega arith))
  | inr miss ↦
      let fresh =
        Distinct-apart route_key (route_key e) t.endpoints (e ∷ es) d (position-front_ne e es) in
      let (c', eq) =
        rebuild-IsConsistent b es (keep_one t e) n
          (append-IsConsistent t e c ve fresh (omega arith))
          (subst (Distinct route_key) (sym (append_assoc t.endpoints (e ∷ []) es)) d) v
          (omega (arith, length-append t.endpoints (e ∷ []))) in
      rw miss (c', eq ∙ append_assoc t.endpoints (e ∷ []) (without b es))
]

rebuild_count :
    (b : Bytes) (es : List EndpointDefinition) (t : RoutingTable) (n : ℕ)
    → n + length es < 2 ^ 32
    → (rebuild b es t n).1 ≡ n + length (of_backend b es)
unfolding rebuild of_backend
rebuild_count b [] t n h = omega arith
rebuild_count b (e ∷ es) t n h = elim (Bool-cases (e.backend_identifier =s= b)) [
  | inl hit ↦ rw hit (omega (arith, rebuild_count b es t ((n + 1) % 2 ^ 32) (omega arith)))
  | inr miss ↦ rw miss (rebuild_count b es (keep_one t e) n (omega arith))
]

-- RemoveEndpointsByBackend keeps a consistent table consistent, leaves the endpoints of the
-- other backends in their order and no others, and returns the number of those it removed.
pub remove_endpoints_by_backend-IsConsistent :
    (t : RoutingTable) (b : Bytes)
    → IsConsistent t
    → IsConsistent (remove_endpoints_by_backend t b).0
      × ((remove_endpoints_by_backend t b).0.endpoints ≡ without b t.endpoints)
      × ((remove_endpoints_by_backend t b).1 ≡ length (get_endpoints_by_backend t b))
unfolding remove_endpoints_by_backend empty_table get_endpoints_by_backend
remove_endpoints_by_backend-IsConsistent t b c =
    let (kept, rest) =
      rebuild-IsConsistent b t.endpoints empty_table 0 empty_table-IsConsistent c.distinct c.valid
        (omega (arith, c.bounded)) in
    (kept, rest, rebuild_count b t.endpoints empty_table 0 (omega (arith, c.bounded)) ∙ omega arith)
