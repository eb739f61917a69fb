-- ===== src/Url/Tests.antt =====
-- Encoded texts at concrete inputs.
use rest_api_gateway.Prelude.{◌≡◌, refl, [], ◌∷◌, none, some, codes, ◌=s=◌, arith}
use rest_api_gateway.Prelude.Map.{insert}
use rest_api_gateway.Url.{
  url_decode, stoi_hex, hex_value, split_at, add_pair, parse_pairs, parse_query_string,
}
use rest_api_gateway.Url.Decoding.{Encodes, ended, itself, space, escaped, url_decode-Encodes}

sloppy : url_decode (codes "%-1%0x%") ≡ some (255 ∷ 0 ∷ codes "%")
unfolding url_decode stoi_hex hex_value
sloppy = refl

throws : url_decode (codes "a%zz") ≡ none
unfolding url_decode stoi_hex hex_value
throws = refl

two_pairs :
    parse_query_string (codes "a=1&&b&a=%32") []
    ≡ some ((codes "a", codes "2") ∷ (codes "b", []) ∷ [])
unfolding parse_query_string parse_pairs add_pair split_at url_decode stoi_hex hex_value insert
    ◌=s=◌
two_pairs = refl

a_slash_b : Encodes (b' ' ∷ b'a' ∷ 47 ∷ []) (codes "+a%2F")
unfolding hex_value
a_slash_b =
    space
      (itself (λ e. omega arith) (λ e. omega arith) (escaped {high = 2} {low = 15} refl refl ended))

url_decode-Encodes_example : url_decode (codes "+a%2F") ≡ some (b' ' ∷ b'a' ∷ 47 ∷ [])
url_decode-Encodes_example = url_decode-Encodes a_slash_b
