-- ===== src/Routing/Shrinking.antt =====
-- Tables from which an endpoint is taken stay consistent.
use rest_api_gateway.Prelude.{
  ◌≡◌, false, List, [], ◌∷◌, ◌++◌, none, Bytes, ◌=s=◌, length, arith, length-append, All-append,
  All-append_left, All-append_right, bytes_eq_iff, bytes_eq_refl,
}
use rest_api_gateway.Prelude.Map.{lookup, insert, erase, lookup-insert, lookup-erase}
use rest_api_gateway.Endpoint.{EndpointDefinition, route_key}
use rest_api_gateway.Routing.Keyed.{position, Distinct, position-append}
use rest_api_gateway.Routing.Swap.{
  Distinct-append_left, Distinct-append_right, Distinct-apart, Distinct-join,
}
use rest_api_gateway.Routing.{RoutingTable}
use rest_api_gateway.Routing.Invariant.{Valid, IsConsistent}

-- Removing the endpoint at the end of the vector.
pub remove_last :
    (t : RoutingTable) (pre : List EndpointDefinition) (x : EndpointDefinition)
    → IsConsistent (record t { endpoints = pre ++ x ∷ [] })
    → IsConsistent (record { endpoints = pre; route_index = erase (route_key x) t.route_index })
unfolding position
remove_last t pre x c = record {
  indexed = λ k. ground (
    arith,
    lookup-erase (route_key x) k t.route_index,
    c.indexed k,
    position-append route_key k pre (x ∷ []),
    bytes_eq_iff (route_key x) k,
    fresh,
  );
  distinct = Distinct-append_left route_key pre (x ∷ []) c.distinct;
  bounded = omega (arith, c.bounded, length-append pre (x ∷ []));
  valid = All-append_left Valid pre (x ∷ []) c.valid;
}
  where
    fresh : position route_key (route_key x) pre ≡ none
    fresh =
        Distinct-apart route_key (route_key x) pre (x ∷ []) c.distinct
          (λ e. ground (arith, bytes_eq_refl (route_key x)))

module _ (t : RoutingTable) (pre : List EndpointDefinition) (x : EndpointDefinition)
    (mid : List EndpointDefinition) (z : EndpointDefinition)
    (c : IsConsistent (record t { endpoints = pre ++ x ∷ (mid ++ z ∷ []) })) where
  -- Where the keys of the removed and of the moved endpoint do not stand.
  pub inner_facts :
      (position route_key (route_key x) pre ≡ none)
      × (position route_key (route_key x) mid ≡ none)
      × ((route_key z =s= route_key x) ≡ false)
      × (position route_key (route_key z) pre ≡ none)
      × (position route_key (route_key z) mid ≡ none)
  unfolding position
  inner_facts =
      let (hx, later) = Distinct-append_right route_key pre (x ∷ (mid ++ z ∷ [])) c.distinct in
      let tail = position-append route_key (route_key x) mid (z ∷ []) in
      let tail' = position-append route_key (route_key z) mid (z ∷ []) in
      (
        Distinct-apart route_key (route_key x) pre (x ∷ (mid ++ z ∷ [])) c.distinct
            (λ e. ground (arith, bytes_eq_refl (route_key x))),
        ground arith,
        ground arith,
        Distinct-apart route_key (route_key z) pre (x ∷ (mid ++ z ∷ [])) c.distinct
            (λ e. ground (arith, bytes_eq_refl (route_key z))),
        Distinct-apart route_key (route_key z) mid (z ∷ []) later
            (λ e. ground (arith, bytes_eq_refl (route_key z))),
      )

  inner_indexed :
      (k : Bytes)
      → lookup k (erase (route_key x) (insert (route_key z) (length pre) t.route_index))
        ≡ position route_key k (pre ++ z ∷ mid)
  unfolding position
  inner_indexed k = ground (
    arith,
    lookup-erase (route_key x) k (insert (route_key z) (length pre) t.route_index),
    lookup-insert (route_key z) k (length pre) t.route_index,
    c.indexed k,
    position-append route_key k pre (x ∷ (mid ++ z ∷ [])),
    position-append route_key k pre (z ∷ mid),
    position-append route_key k mid (z ∷ []),
    bytes_eq_iff (route_key x) k,
    bytes_eq_iff (route_key z) k,
    bytes_eq_iff (route_key z) (route_key x),
    inner_facts,
  )

  inner-Distinct : Distinct route_key (pre ++ z ∷ mid)
  unfolding position
  inner-Distinct =
      let whole = Distinct-append_right route_key pre (x ∷ (mid ++ z ∷ [])) c.distinct in
      Distinct-join route_key pre (z ∷ mid)
        (Distinct-append_left route_key pre (x ∷ (mid ++ z ∷ [])) c.distinct)
        (inner_facts.4, Distinct-append_left route_key mid (z ∷ []) whole.1)
        λ k p.
          Distinct-apart route_key k pre (x ∷ (mid ++ z ∷ [])) c.distinct
            (λ e. p (ground (arith, position-append route_key k mid (z ∷ []))))

  -- Removing an endpoint that is not the last: the last takes its place.
  pub remove_inner : IsConsistent (record {
    endpoints = pre ++ z ∷ mid;
    route_index = erase (route_key x) (insert (route_key z) (length pre) t.route_index);
  })
  remove_inner = record {
    indexed = inner_indexed;
    distinct = inner-Distinct;
    bounded = omega (
      arith,
      c.bounded,
      length-append pre (x ∷ (mid ++ z ∷ [])),
      length-append mid (z ∷ []),
      length-append pre (z ∷ mid),
    );
    valid =
        let (vx, later) = All-append_right Valid pre (x ∷ (mid ++ z ∷ [])) c.valid in
        All-append Valid pre (z ∷ mid) (All-append_left Valid pre (x ∷ (mid ++ z ∷ [])) c.valid)
          ((All-append_right Valid mid (z ∷ []) later).0, All-append_left Valid mid (z ∷ []) later);
  }
