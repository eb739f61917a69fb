-- ===== src/Base64/Tests.antt =====
-- The encoding at concrete inputs.
use rest_api_gateway.Prelude.{◌≡◌, refl, [], ◌∷◌, ◌++◌, none, some, codes, arith}
use rest_api_gateway.Base64.{
  base64_url_encode, base64_url_decode, char_of, decode_from, value_of, index_of,
}
use rest_api_gateway.Base64.RoundTrip.{base64_url_decode-encode}
use rest_api_gateway.Base64.Aliases.{base64_url_decode-padding}

encoded_word : base64_url_encode (codes "Many!") ≡ codes "TWFueSE"
unfolding base64_url_encode char_of
encoded_word = refl

decoded_word : base64_url_decode (codes "TWFueSE=junk") ≡ some (codes "Many!")
unfolding base64_url_decode decode_from value_of index_of
decoded_word = refl

bad_character : base64_url_decode (codes "TW*u") ≡ none
unfolding base64_url_decode decode_from value_of index_of
bad_character = refl

base64_url_decode-encode_example :
    base64_url_decode (base64_url_encode (0 ∷ 255 ∷ 62 ∷ 7 ∷ [])) ≡ some (0 ∷ 255 ∷ 62 ∷ 7 ∷ [])
base64_url_decode-encode_example =
    base64_url_decode-encode (0 ∷ 255 ∷ 62 ∷ 7 ∷ []) (omega arith)
      (omega arith, (omega arith, (omega arith, (omega arith, tt))))

base64_url_decode-padding_example :
    base64_url_decode (codes "TWFu" ++ b'=' ∷ codes "x") ≡ base64_url_decode (codes "TWFu")
base64_url_decode-padding_example = base64_url_decode-padding (codes "TWFu") (codes "x")
