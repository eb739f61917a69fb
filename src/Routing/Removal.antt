-- ===== src/Routing/Removal.antt =====
-- Unregistering an endpoint takes its key out of the table, and no other.
use rest_api_gateway.Prelude.{
  ℕ, ◌+◌, ◌-◌, ◌≤◌, ◌%◌, ◌^◌, ◌≡◌, ◌↔◌, refl, ap, sym, ◌∙◌, subst, true, false, List, [], ◌∷◌, ◌++◌,
  none, some, Bytes, ◌=s=◌, length, ltb, if◌then◌else◌, arith, inl, inr, Option-cases,
  length-append, bytes_eq_iff, bytes_eq_refl, append_assoc,
}
use mathlib.Core.Path.{subst₂}
use rest_api_gateway.Prelude.Map.{lookup, insert, erase}
use rest_api_gateway.Method.{HttpMethod}
use rest_api_gateway.Endpoint.{EndpointDefinition, route_key, route_key_of}
use rest_api_gateway.Routing.Keyed.{
  last?, drop_last, position, find_key, position_split, set-middle, find_key-append, find_key-none,
  get_elem?-position, concat_cases, drop_last-concat, last?-concat,
}
use rest_api_gateway.Routing.Swap.{Distinct-apart}
use rest_api_gateway.Routing.{
  RoutingTable, max_endpoints, swap_last, unregister_at, unregister_endpoint,
}
use rest_api_gateway.Routing.Invariant.{IsConsistent, endpoint_at}
use rest_api_gateway.Routing.Shrinking.{remove_last, inner_facts, remove_inner}

-- A table from which one key is gone, and only that.
pub record Removed (t : RoutingTable) (k : Bytes) (t' : RoutingTable) : Type 0 where
  pub consistent : IsConsistent t'
  pub gone : (j : Bytes) → endpoint_at t' j ≡ (if k =s= j then none else endpoint_at t j)

remove_last-Removed :
    (t : RoutingTable) (pre : List EndpointDefinition) (x : EndpointDefinition)
    → IsConsistent (record t { endpoints = pre ++ x ∷ [] })
    → Removed
        (record t { endpoints = pre ++ x ∷ [] })
        (route_key x)
        (record { endpoints = pre; route_index = erase (route_key x) t.route_index })
unfolding position find_key
remove_last-Removed t pre x c = record {
  consistent = remove_last t pre x c;
  gone = λ j. ground (
    arith,
    find_key-append route_key j pre (x ∷ []),
    find_key-none route_key (route_key x) pre fresh,
    bytes_eq_iff (route_key x) j,
  );
}
  where
    fresh : position route_key (route_key x) pre ≡ none
    fresh =
        Distinct-apart route_key (route_key x) pre (x ∷ []) c.distinct
          (λ e. ground (arith, bytes_eq_refl (route_key x)))

remove_inner-Removed :
    (t : RoutingTable) (pre : List EndpointDefinition) (x : EndpointDefinition)
    (mid : List EndpointDefinition) (z : EndpointDefinition)
    → IsConsistent (record t { endpoints = pre ++ x ∷ (mid ++ z ∷ []) })
    → Removed
        (record t { endpoints = pre ++ x ∷ (mid ++ z ∷ []) })
        (route_key x)
        (record {
          endpoints = pre ++ z ∷ mid;
          route_index = erase (route_key x) (insert (route_key z) (length pre) t.route_index);
        })
unfolding find_key
remove_inner-Removed t pre x mid z c =
    let (xp, xm, zx, zp, zm) = inner_facts t pre x mid z c in
    record {
      consistent = remove_inner t pre x mid z c;
      gone = λ j. ground (
        arith,
        find_key-append route_key j pre (x ∷ (mid ++ z ∷ [])),
        find_key-append route_key j pre (z ∷ mid),
        find_key-append route_key j mid (z ∷ []),
        find_key-none route_key (route_key x) pre xp,
        find_key-none route_key (route_key x) mid xm,
        find_key-none route_key (route_key z) pre zp,
        find_key-none route_key (route_key z) mid zm,
        bytes_eq_iff (route_key x) j,
        bytes_eq_iff (route_key z) j,
        bytes_eq_iff (route_key z) (route_key x),
      );
    }

drop_last-inner :
    (pre : List EndpointDefinition) (mid : List EndpointDefinition) (y z : EndpointDefinition)
    → drop_last (pre ++ y ∷ (mid ++ z ∷ [])) ≡ pre ++ y ∷ mid
drop_last-inner pre mid y z =
    ap drop_last (sym (append_assoc pre (y ∷ mid) (z ∷ []))) ∙ drop_last-concat (pre ++ y ∷ mid) z

last?-inner :
    (pre : List EndpointDefinition) (mid : List EndpointDefinition) (y z : EndpointDefinition)
    → last? (pre ++ y ∷ (mid ++ z ∷ [])) ≡ some z
last?-inner pre mid y z =
    ap last? (sym (append_assoc pre (y ∷ mid) (z ∷ []))) ∙ last?-concat (pre ++ y ∷ mid) z

module _ (t : RoutingTable) (pre : List EndpointDefinition) (x : EndpointDefinition) where
  swap_at_end :
      length (pre ++ x ∷ []) ≤ max_endpoints
      → swap_last (record t { endpoints = pre ++ x ∷ [] }) (length pre)
        ≡ record t { endpoints = pre ++ x ∷ [] }
  unfolding swap_last
  swap_at_end h =
      let count = length-append pre (x ∷ []) in
      let stays : ltb (length pre) ((length (pre ++ x ∷ []) + 2 ^ 64 - 1) % 2 ^ 64) ≡ false =
        ground arith in
      rw stays refl

  swap_inside :
      (mid : List EndpointDefinition) (z : EndpointDefinition)
      → length (pre ++ x ∷ (mid ++ z ∷ [])) ≤ max_endpoints
      → swap_last (record t { endpoints = pre ++ x ∷ (mid ++ z ∷ []) }) (length pre) ≡ record {
        endpoints = pre ++ z ∷ (mid ++ z ∷ []);
        route_index = insert (route_key z) (length pre) t.route_index;
      }
  unfolding swap_last
  swap_inside mid z h =
      let count = length-append pre (x ∷ (mid ++ z ∷ [])) in
      let count' = length-append mid (z ∷ []) in
      let moves : ltb (length pre) ((length (pre ++ x ∷ (mid ++ z ∷ [])) + 2 ^ 64 - 1) % 2 ^ 64)
          ≡ true =
        ground arith in
      rw (moves, last?-inner pre mid x z, set-middle pre x z (mid ++ z ∷ [])) refl

-- The removal as the code does it, at an endpoint that the vector is split at.
unregister_split :
    (t : RoutingTable) (pre : List EndpointDefinition) (x : EndpointDefinition)
    (post : List EndpointDefinition)
    → IsConsistent (record t { endpoints = pre ++ x ∷ post })
    → Removed
        (record t { endpoints = pre ++ x ∷ post })
        (route_key x)
        (unregister_at
          (record t { endpoints = pre ++ x ∷ post })
          (route_key x)
          (some (length pre))).0
unregister_split t pre x post c = elim (concat_cases post) [
  | inl e ↦ rw e (
      let c' = rw e at c in
      rw (swap_at_end t pre x c'.bounded, drop_last-concat pre x) (remove_last-Removed t pre x c'))
  | inr (mid, z, e) ↦ rw e (
      let c' = rw e at c in
      rw (swap_inside t pre x mid z c'.bounded, drop_last-inner pre mid z z)
        (remove_inner-Removed t pre x mid z c'))
]

unregister_parts :
    (t : RoutingTable) (k : Bytes) (i : ℕ) (pre : List EndpointDefinition) (x : EndpointDefinition)
    (post : List EndpointDefinition)
    → t.endpoints ≡ pre ++ x ∷ post
    → length pre ≡ i
    → route_key x ≡ k
    → IsConsistent t
    → Removed t k (unregister_at t k (some i)).0
unregister_parts t k i pre x post split count same c =
    subst₂ (λ n j. Removed t j (unregister_at t j (some n)).0) count same
      (subst
        (λ es.
          Removed (record t { endpoints = es }) (route_key x)
            (unregister_at (record t { endpoints = es }) (route_key x) (some (length pre))).0)
        (sym split)
        (unregister_split t pre x post
          (subst (λ es. IsConsistent (record t { endpoints = es })) split c)))

-- The part of UnregisterEndpoint behind the search in the index.
unregister_known :
    (t : RoutingTable) (k : Bytes) (i : ℕ)
    → IsConsistent t
    → lookup k t.route_index ≡ some i
    → Removed t k (unregister_at t k (some i)).0
unregister_known t k i c known =
    let (pre, x, post, split, count, same, before) =
      position_split route_key k t.endpoints i (sym (c.indexed k) ∙ known) in
    unregister_parts t k i pre x post split count same c

-- UnregisterEndpoint keeps a consistent table consistent and returns true exactly when the key
-- of method and path has an endpoint; that endpoint is gone then, and every other key has what
-- it had.
pub unregister_endpoint-Removed :
    (t : RoutingTable) (path : Bytes) (m : HttpMethod)
    → IsConsistent t
    → Removed t (route_key_of m path) (unregister_endpoint t path m).0
      × (((unregister_endpoint t path m).1 ≡ false) ↔ (endpoint_at t (route_key_of m path) ≡ none))
unfolding unregister_endpoint
unregister_endpoint-Removed t path m c =
    let k = route_key_of m path in
    elim (Option-cases (lookup k t.route_index)) [
      | inl new ↦
          let away = find_key-none route_key k t.endpoints (sym (c.indexed k) ∙ new) in
          rw new (
            record { consistent = c; gone = λ j. ground (arith, bytes_eq_iff k j) },
            (λ h. away, λ h. refl),
          )
      | inr (i, known) ↦
          let (x, at, here, same) =
            get_elem?-position route_key k t.endpoints i (sym (c.indexed k) ∙ known) in
          rw known (unregister_known t k i c known, (λ h. cc, λ h. cc))
    ]
