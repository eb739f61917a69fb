-- ===== src/Routing/Search.antt =====
-- FindEndpoint: which endpoint a request gets.
use rest_api_gateway.Prelude.{
  ◌≡◌, refl, sym, ◌∙◌, Bool, true, false, List, [], ◌∷◌, Option, none, some, Bytes, inl, inr,
  Bool-cases, Option-cases, All,
}
use rest_api_gateway.Prelude.Map.{lookup}
use rest_api_gateway.Method.{HttpMethod, ◌=m=◌}
use rest_api_gateway.Endpoint.{Params, EndpointDefinition, matches_path, route_key, route_key_of}
use rest_api_gateway.Routing.Keyed.{get_elem?-position}
use rest_api_gateway.Routing.{
  RoutingTable, Found, found, not_found, out_of_range, find_pattern, find_endpoint, has_pattern,
  has_endpoint,
}
use rest_api_gateway.Routing.Invariant.{IsConsistent}

-- An endpoint answers a request by its pattern.
abbrev pub Answers : EndpointDefinition → Bytes → HttpMethod → Params → Type 0
Answers e path m params = (e.method ≡ m) × (matches_path e path ≡ some params)

-- The first endpoint of a list that answers by its pattern.
pub data First (path : Bytes) (m : HttpMethod) (e : EndpointDefinition) (params : Params)
    : List EndpointDefinition → Type 0 where
  here : {es : List EndpointDefinition} → Answers e path m params → First path m e params (e ∷ es)
  later :
      {d : EndpointDefinition} {es : List EndpointDefinition}
      → ((q : Params) → ¬ Answers d path m q)
      → First path m e params es
      → First path m e params (d ∷ es)

-- What the code finds in a list of patterns, as a statement about each result.
abbrev pub Searched : Bytes → HttpMethod → List EndpointDefinition → Found → Type 0
Searched path m es (found e params) = First path m e params es
Searched path m es not_found = All (λ d. (q : Params) → ¬ Answers d path m q) es
Searched path m es out_of_range = ⊥

-- What FindEndpoint promises of a consistent table: an endpoint registered under the very path and
-- method wins, with no parameters; otherwise the first endpoint whose pattern answers, in the order
-- of the vector; and it never reads past the vector.
abbrev pub Chosen : RoutingTable → Bytes → HttpMethod → Found → Option EndpointDefinition → Type 0
Chosen t path m r (some e) = r ≡ found e []
Chosen t path m r none = Searched path m t.endpoints r

abbrev pub is_found : Found → Bool
is_found not_found = false
is_found _ = true

has_pattern-find_pattern :
    (es : List EndpointDefinition) (path : Bytes) (m : HttpMethod)
    → has_pattern es path m ≡ is_found (find_pattern es path m)
unfolding has_pattern find_pattern
has_pattern-find_pattern [] path m = refl
has_pattern-find_pattern (e ∷ es) path m = elim (Bool-cases (e.method =m= m)) [
  | inr other ↦ rw other (has_pattern-find_pattern es path m)
  | inl same ↦ elim (Option-cases (matches_path e path)) [
    | inl e' ↦ rw (same, e') (has_pattern-find_pattern es path m)
    | inr (params, e') ↦ rw (same, e') refl
  ]
]

-- On a consistent table HasEndpoint says true exactly when FindEndpoint finds an endpoint.
pub has_endpoint-find_endpoint :
    (t : RoutingTable) (path : Bytes) (m : HttpMethod)
    → IsConsistent t
    → has_endpoint t path m ≡ is_found (find_endpoint t path m)
unfolding has_endpoint find_endpoint
has_endpoint-find_endpoint t path m c =
    let k = route_key_of m path in
    elim (Option-cases (lookup k t.route_index)) [
      | inl new ↦ rw new (has_pattern-find_pattern t.endpoints path m)
      | inr (i, known) ↦
          let (x, at, stands, same) =
            get_elem?-position route_key k t.endpoints i (sym (c.indexed k) ∙ known) in
          rw (known, at) refl
    ]
