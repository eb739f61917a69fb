-- ===== src/Endpoint/Tests.antt =====
-- Paths at concrete inputs.
use rest_api_gateway.Prelude.{ℕ, ◌≡◌, ◌≢◌, ◌↔◌, refl, [], ◌∷◌, none, some, codes, ◌=s=◌}
use rest_api_gateway.Prelude.Map.{insert}
use rest_api_gateway.Method.{get}
use rest_api_gateway.Endpoint.{
  EndpointDefinition, new_builder, build, parse_path_segments, split_segments, split_from,
  matches_path, match_segments, is_parameter, parameter_name,
}
use rest_api_gateway.Endpoint.Paths.{IsSegment, Fits, matches_path-build_iff}

abbrev order_item : EndpointDefinition
order_item = record new_builder { path = codes "/orders/{id}/items"; method = get }

item_found :
    matches_path (build order_item) (codes "/orders//7/items/")
    ≡ some ((codes "id", codes "7") ∷ [])
unfolding matches_path build parse_path_segments split_segments split_from match_segments
    is_parameter parameter_name insert ◌=s=◌
item_found = refl

other_path : matches_path (build order_item) (codes "/orders/7") ≡ none
unfolding matches_path build parse_path_segments split_segments split_from
other_path = refl

matches_path-build_iff_example :
    (matches_path (build order_item) (codes "/orders/7/items")
      ≡ some ((codes "id", codes "7") ∷ []))
    ↔ Fits
        (split_segments (codes "/orders/{id}/items"))
        (split_segments (codes "/orders/7/items"))
        []
        ((codes "id", codes "7") ∷ [])
matches_path-build_iff_example =
    matches_path-build_iff order_item (codes "/orders/7/items") ((codes "id", codes "7") ∷ [])

two_segments :
    (c d : ℕ) → c ≢ b'/' → d ≢ b'/' → IsSegment (c ∷ []) × (IsSegment (d ∷ []) × Unit {0})
two_segments c d h k = ((λ e. cc, (h, tt)), ((λ e. cc, (k, tt)), tt))
