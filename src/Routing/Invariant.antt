-- ===== src/Routing/Invariant.antt =====
-- The index of the table says where each key stands in the vector; registering keeps that.
use rest_api_gateway.Prelude.{
  ℕ, suc, ◌≤◌, ◌<◌, ◌%◌, ◌^◌, ◌≡◌, refl, ap, sym, ◌∙◌, subst, true, ◌&&◌, List, [], ◌∷◌, ◌++◌,
  Option, none, some, Bytes, ◌=s=◌, length, set, ltb, if◌then◌else◌, arith, inl, inr, Bool-cases,
  Option-cases, length-append, All, All-append, bytes_eq_iff,
}
use rest_api_gateway.Prelude.Map.{lookup, insert, lookup-insert}
use rest_api_gateway.Endpoint.{EndpointDefinition, is_valid_endpoint, route_key}
use rest_api_gateway.Routing.Keyed.{
  position, find_key, Distinct, position-append, position_split, Distinct-concat, set-middle,
  find_key-append, find_key-none,
}
use rest_api_gateway.Routing.Swap.{position-replace, Distinct-replace, find_key-replace}
use rest_api_gateway.Routing.{RoutingTable, max_endpoints, empty_table, register_endpoint}

abbrev pub Valid : EndpointDefinition → Type 0
Valid e = is_valid_endpoint e ≡ true

-- The index gives for each route key the position of its endpoint; keys are distinct, endpoints
-- valid, and there are at most 4096.
pub record IsConsistent (t : RoutingTable) : Type 0 where
  pub indexed : (k : Bytes) → lookup k t.route_index ≡ position route_key k t.endpoints
  pub distinct : Distinct route_key t.endpoints
  pub bounded : length t.endpoints ≤ max_endpoints
  pub valid : All Valid t.endpoints

-- The abstract view of a table: the endpoint under a route key.
abbrev pub endpoint_at : RoutingTable → Bytes → Option EndpointDefinition
endpoint_at t k = find_key route_key k t.endpoints

pub empty_table-IsConsistent : IsConsistent empty_table
unfolding empty_table lookup position
empty_table-IsConsistent = record {
  indexed = λ k. refl;
  distinct = tt;
  bounded = omega arith;
  valid = tt;
}

-- Appending an endpoint with a new key.
pub append-IsConsistent :
    (t : RoutingTable) (e : EndpointDefinition)
    → IsConsistent t
    → Valid e
    → position route_key (route_key e) t.endpoints ≡ none
    → length t.endpoints < max_endpoints
    → IsConsistent (record {
      endpoints = t.endpoints ++ e ∷ [];
      route_index = insert (route_key e) (length t.endpoints % 2 ^ 32) t.route_index;
    })
unfolding position
append-IsConsistent t e c v fresh room = record {
  indexed = indexed';
  distinct = Distinct-concat route_key t.endpoints e c.distinct fresh;
  bounded = omega (arith, length-append t.endpoints (e ∷ []));
  valid = All-append Valid t.endpoints (e ∷ []) c.valid (v, tt);
}
  where
    indexed' :
        (k : Bytes)
        → lookup k (insert (route_key e) (length t.endpoints % 2 ^ 32) t.route_index)
          ≡ position route_key k (t.endpoints ++ e ∷ [])
    indexed' k = ground (
      arith,
      lookup-insert (route_key e) k (length t.endpoints % 2 ^ 32) t.route_index,
      c.indexed k,
      position-append route_key k t.endpoints (e ∷ []),
      bytes_eq_iff (route_key e) k,
    )

module _ (P : EndpointDefinition → Type 0) where
  All-middle :
      (pre : List EndpointDefinition) (x y : EndpointDefinition) (post : List EndpointDefinition)
      → P y
      → All P (pre ++ x ∷ post)
      → All P (pre ++ y ∷ post)
  All-middle [] x y post p (q, h) = (p, h)
  All-middle (z ∷ pre) x y post p (q, h) = (q, All-middle pre x y post p h)

length-middle :
    (pre : List EndpointDefinition) (x y : EndpointDefinition) (post : List EndpointDefinition)
    → length (pre ++ y ∷ post) ≡ length (pre ++ x ∷ post)
length-middle [] x y post = refl
length-middle (z ∷ pre) x y post = ap suc (length-middle pre x y post)

-- An endpoint of a table, replaced by one with its key.
abbrev pub replaced : RoutingTable → List EndpointDefinition → RoutingTable
replaced t es = record t { endpoints = es }

replace_middle :
    (t : RoutingTable) (pre : List EndpointDefinition) (x e : EndpointDefinition)
    (post : List EndpointDefinition)
    → IsConsistent (replaced t (pre ++ x ∷ post))
    → Valid e
    → route_key e ≡ route_key x
    → IsConsistent (replaced t (pre ++ e ∷ post))
replace_middle t pre x e post c v same = record {
  indexed = λ k. c.indexed k ∙ sym (position-replace route_key pre x e post same k);
  distinct = Distinct-replace route_key pre x e post same c.distinct;
  bounded = omega (arith, c.bounded, length-middle pre x e post);
  valid = All-middle Valid pre x e post v c.valid;
}

-- Replacing the endpoint that has the key already.
replace-IsConsistent :
    (t : RoutingTable) (e : EndpointDefinition) (i : ℕ)
    → IsConsistent t
    → Valid e
    → position route_key (route_key e) t.endpoints ≡ some i
    → IsConsistent (replaced t (set t.endpoints i e))
replace-IsConsistent t e i c v at =
    let (pre, x, post, split, count, same, before) =
      position_split route_key (route_key e) t.endpoints i at in
    let whole = subst (λ es. IsConsistent (replaced t es)) split c in
    let moved : set t.endpoints i e ≡ pre ++ e ∷ post =
      ap (λ es. set es i e) split ∙ rw (← count) (set-middle pre x e post) in
    rw moved (replace_middle t pre x e post whole v (sym same))

-- RegisterEndpoint keeps the table consistent, whatever endpoint it is given.
pub register_endpoint-IsConsistent :
    (t : RoutingTable) (e : EndpointDefinition)
    → IsConsistent t
    → IsConsistent (register_endpoint t e).0
unfolding register_endpoint
register_endpoint-IsConsistent t e c = elim (Bool-cases (is_valid_endpoint e)) [
  | inr bad ↦ rw bad c
  | inl v ↦ elim (Option-cases (lookup (route_key e) t.route_index)) [
    | inr (i, known) ↦
        rw (v, known) (replace-IsConsistent t e i c v (sym (c.indexed (route_key e)) ∙ known))
    | inl new ↦ elim (Bool-cases (ltb (length t.endpoints) max_endpoints)) [
      | inr full ↦ rw (v, new, full) c
      | inl room ↦
          rw (v, new, room)
            (append-IsConsistent t e c v (sym (c.indexed (route_key e)) ∙ new) (ground arith))
    ]
  ]
]

endpoint_at-append :
    (es : List EndpointDefinition) (e : EndpointDefinition) (k : Bytes)
    → position route_key (route_key e) es ≡ none
    → find_key route_key k (es ++ e ∷ [])
      ≡ (if route_key e =s= k then some e else find_key route_key k es)
unfolding find_key
endpoint_at-append es e k fresh = ground (
  arith,
  find_key-append route_key k es (e ∷ []),
  find_key-none route_key (route_key e) es fresh,
  bytes_eq_iff (route_key e) k,
)

endpoint_at-set :
    (es : List EndpointDefinition) (e : EndpointDefinition) (i : ℕ) (k : Bytes)
    → position route_key (route_key e) es ≡ some i
    → find_key route_key k (set es i e)
      ≡ (if route_key e =s= k then some e else find_key route_key k es)
endpoint_at-set es e i k at =
    let (pre, x, post, split, count, same, before) =
      position_split route_key (route_key e) es i at in
    let moved : set es i e ≡ pre ++ e ∷ post =
      ap (λ es'. set es' i e) split ∙ rw (← count) (set-middle pre x e post) in
    let found = find_key-replace route_key pre x e post (sym same) k (rw same before) in
    rw (moved, split, ← same) found

-- On a consistent table: where RegisterEndpoint returns true, the table has the new endpoint
-- under its key and the old ones under all others; where it returns false, the table has what
-- it had.
pub endpoint_at-register_endpoint :
    (t : RoutingTable) (e : EndpointDefinition) (k : Bytes)
    → IsConsistent t
    → endpoint_at (register_endpoint t e).0 k
      ≡ (if (register_endpoint t e).1 && route_key e =s= k then some e else endpoint_at t k)
unfolding register_endpoint
endpoint_at-register_endpoint t e k c = elim (Bool-cases (is_valid_endpoint e)) [
  | inr bad ↦ rw bad refl
  | inl v ↦ elim (Option-cases (lookup (route_key e) t.route_index)) [
    | inr (i, known) ↦
        rw (v, known) (endpoint_at-set t.endpoints e i k (sym (c.indexed (route_key e)) ∙ known))
    | inl new ↦ elim (Bool-cases (ltb (length t.endpoints) max_endpoints)) [
      | inr full ↦ rw (v, new, full) refl
      | inl room ↦
          rw (v, new, room)
            (endpoint_at-append t.endpoints e k (sym (c.indexed (route_key e)) ∙ new))
    ]
  ]
]
