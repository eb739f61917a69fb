-- ===== src/Token/Tests.antt =====
-- Tokens at concrete inputs, with a cipher that only appends a tag of zeros.
use rest_api_gateway.Prelude.{
  ℕ, zero, suc, ◌+◌, ◌-◌, ◌%◌, ◌^◌, ◌≡◌, refl, ap, ◌∙◌, true, false, ◌&&◌, [], ◌∷◌, ◌++◌, Option,
  none, some, Bytes, codes, ◌=s=◌, length, take, if◌then◌else◌, ◌||◌, arith, IsByte, All,
  All-append, length-append, take-length_append,
}
use rest_api_gateway.AesGcm.{Kernel, encrypt}
use rest_api_gateway.AesGcm.Sealing.{IsAead, IsIv}
use rest_api_gateway.Base64.{base64_url_encode}
use rest_api_gateway.Frame.{write_uint32_big_endian, read_uint32_big_endian}
use rest_api_gateway.Token.{
  TokenType, access, refresh, write_int64, serialize_payload, deserialize_payload, parsed,
  out_of_range, signed_lt,
}
use rest_api_gateway.Token.Payload.{IsPayload, deserialize-serialize, deserialize_payload_overflow}
use rest_api_gateway.Token.Engine.{
  TokenEngine, is_member, is_token_revoked, revoke_token, encrypt_token, payload_of,
  generate_token_pair, accepted, rejected, validate_access_token, validate_refresh_token, refreshed,
  refresh_token_pair,
}
use rest_api_gateway.Token.Issue.{IsRequest, Keeps, access_token-validates, refresh_token-validates}
use rest_api_gateway.Token.Revoke.{
  is_token_revoked-revoke_token, validate_access-revoke_token, refresh_token_pair-once,
  revoke_token_alias,
}

abbrev zeros : ℕ → Bytes
zeros zero = []
zeros (suc n) = 0 ∷ zeros n

abbrev toy : Kernel
toy = record {
  aead_encrypt = λ key iv aad plaintext. some (aad ++ (plaintext ++ zeros 16));
  aead_decrypt = λ key iv aad body. some (aad ++ take (length body - 16) body);
}

untagged :
    (plaintext : Bytes)
    → take (length (plaintext ++ zeros 16) - 16) (plaintext ++ zeros 16) ≡ plaintext
untagged plaintext =
    let size : length (plaintext ++ zeros 16) - 16 ≡ length plaintext =
      omega (arith, length-append plaintext (zeros 16)) in
    ap (λ (n : ℕ). take n (plaintext ++ zeros 16)) size ∙ take-length_append plaintext (zeros 16)

zeros-All : (n : ℕ) → All IsByte (zeros n)
zeros-All zero = tt
zeros-All (suc n) = (omega arith, zeros-All n)

toy-IsAead : IsAead toy
toy-IsAead = record {
  sealed = λ key iv aad plaintext output plain e. (
    plaintext ++ zeros 16,
    cc,
    length-append plaintext (zeros 16),
    All-append IsByte plaintext (zeros 16) plain (zeros-All 16),
    ap (λ t. some (aad ++ t)) (untagged plaintext),
  );
}

abbrev iv : Bytes
iv = zeros 12

iv-IsIv : IsIv iv
iv-IsIv = (refl, zeros-All 12)

abbrev engine : TokenEngine
engine = record {
  aes_gcm = record { key = zeros 32; is_initialized = true };
  access_expiry_seconds = 300;
  refresh_expiry_seconds = 86400;
  is_initialized = true;
  revoked_tokens = [];
}

abbrev shop : Bytes
shop = codes "shop"

abbrev ann : Bytes
ann = codes "ann"

abbrev token_of : TokenType → ℕ → Bytes
token_of type seconds =
    base64_url_encode
      (iv ++ (serialize_payload (payload_of type shop ann 1000 seconds) ++ zeros 16))

ann-IsRequest : IsRequest 1000 shop ann
ann-IsRequest = record {
  fits = omega arith;
  time = omega arith;
  server_bytes = (omega arith, (omega arith, (omega arith, (omega arith, tt))));
  user_bytes = (omega arith, (omega arith, (omega arith, tt)));
}

ann_pair :
    generate_token_pair toy engine (some iv) (some iv) 1000 shop ann
    ≡ some (token_of access 300, token_of refresh 86400)
unfolding generate_token_pair encrypt_token encrypt
ann_pair = refl

fresh_engine : (token : Bytes) → is_token_revoked engine token ≡ false
unfolding is_token_revoked is_member
fresh_engine token = refl

engine-Keeps : (token : Bytes) → Keeps engine engine token
engine-Keeps token = record { ready = refl; same_cipher = refl; kept = fresh_engine token }

access_token-validates_example :
    (validate_access_token toy engine 1299 (token_of access 300) shop ≡ (
      if shop =s= shop && signed_lt 1299 ((1000 + 300) % 2 ^ 64) then accepted ann else rejected))
    × (validate_refresh_token toy engine 1299 (token_of access 300) shop ≡ rejected)
access_token-validates_example =
    access_token-validates toy toy-IsAead engine iv iv iv-IsIv iv-IsIv 1000 shop ann ann-IsRequest
      (token_of access 300) (token_of refresh 86400) ann_pair engine 1299 shop
      (engine-Keeps (token_of access 300))

refresh_token-validates_example :
    (validate_refresh_token toy engine 1299 (token_of refresh 86400) shop ≡ (
      if shop =s= shop && signed_lt 1299 ((1000 + 86400) % 2 ^ 64) then accepted ann else rejected))
    × (validate_access_token toy engine 1299 (token_of refresh 86400) shop ≡ rejected)
refresh_token-validates_example =
    refresh_token-validates toy toy-IsAead engine iv iv iv-IsIv iv-IsIv 1000 shop ann ann-IsRequest
      (token_of access 300) (token_of refresh 86400) ann_pair engine 1299 shop
      (engine-Keeps (token_of refresh 86400))

ann-IsPayload : IsPayload (payload_of access shop ann 1000 300)
unfolding payload_of
ann-IsPayload = record {
  short = omega arith;
  creation_word = omega arith;
  expiry_word = omega arith;
  server_bytes = ann-IsRequest.server_bytes;
  user_bytes = ann-IsRequest.user_bytes;
}

deserialize-serialize_example :
    deserialize_payload (serialize_payload (payload_of access shop ann 1000 300))
    ≡ parsed (payload_of access shop ann 1000 300)
deserialize-serialize_example =
    deserialize-serialize (payload_of access shop ann 1000 300) ann-IsPayload

abbrev overlong : Bytes
overlong = 255 ∷ 255 ∷ 255 ∷ 240 ∷ zeros 21

deserialize_payload_overflow_example : deserialize_payload overlong ≡ out_of_range
unfolding read_uint32_big_endian
deserialize_payload_overflow_example =
    deserialize_payload_overflow overlong (omega arith) (omega arith) (omega arith) (omega arith)

is_token_revoked-revoke_token_example :
    is_token_revoked (revoke_token engine shop) ann ≡ (ann =s= shop || is_token_revoked engine ann)
is_token_revoked-revoke_token_example = is_token_revoked-revoke_token engine shop ann

validate_access-revoke_token_example :
    (validate_access_token toy (revoke_token engine ann) 1299 (token_of access 300) shop ≡ (
      if token_of access 300 =s= ann
      then rejected
      else validate_access_token toy engine 1299 (token_of access 300) shop))
    × (validate_refresh_token toy (revoke_token engine ann) 1299 (token_of access 300) shop ≡ (
        if token_of access 300 =s= ann
        then rejected
        else validate_refresh_token toy engine 1299 (token_of access 300) shop))
validate_access-revoke_token_example =
    validate_access-revoke_token toy engine 1299 ann (token_of access 300) shop

accepted_refresh :
    validate_refresh_token toy engine 1299 (token_of refresh 86400) shop ≡ accepted ann
unfolding ◌=s=◌
accepted_refresh =
    (refresh_token-validates toy toy-IsAead engine iv iv iv-IsIv iv-IsIv 1000 shop ann ann-IsRequest
      (token_of access 300) (token_of refresh 86400) ann_pair engine 1299 shop
      (engine-Keeps (token_of refresh 86400))).0

abbrev next_engine : TokenEngine
next_engine = revoke_token engine (token_of refresh 86400)

abbrev next_token : TokenType → ℕ → Bytes
next_token type seconds =
    base64_url_encode
      (iv ++ (serialize_payload (payload_of type shop ann 1300 seconds) ++ zeros 16))

ann_refreshed :
    refresh_token_pair toy engine (some iv) (some iv) 1299 1300 (token_of refresh 86400) shop
    ≡ refreshed next_engine (some (next_token access 300, next_token refresh 86400))
unfolding refresh_token_pair generate_token_pair encrypt_token encrypt revoke_token
ann_refreshed = rw accepted_refresh refl

refresh_token_pair-once_example :
    ((user : Bytes) × (validate_refresh_token toy engine 1299 (token_of refresh 86400) shop
        ≡ accepted user)
      × (generate_token_pair toy next_engine (some iv) (some iv) 1300 shop user
          ≡ some (next_token access 300, next_token refresh 86400)))
    × ((again_a again_r : Option Bytes) (now' later' : ℕ) (server' : Bytes)
        → refresh_token_pair toy next_engine again_a again_r now' later'
            (token_of refresh 86400)
            server'
          ≡ refreshed next_engine none)
refresh_token_pair-once_example =
    refresh_token_pair-once toy engine next_engine (some iv) (some iv) 1299 1300
      (token_of refresh 86400) shop (next_token access 300, next_token refresh 86400) ann_refreshed

revoke_token_alias_example :
    validate_access_token toy
      (revoke_token engine (token_of access 300))
      1299
      (token_of access 300 ++ b'=' ∷ [])
      shop
    ≡ validate_access_token toy engine 1299 (token_of access 300) shop
unfolding base64_url_encode serialize_payload write_uint32_big_endian payload_of write_int64
revoke_token_alias_example =
    revoke_token_alias toy engine 1299 (token_of access 300) [] shop
      (fresh_engine (token_of access 300)) (fresh_engine (token_of access 300 ++ b'=' ∷ []))
      (omega arith)
