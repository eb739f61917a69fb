-- ===== src/Token/Issue.antt =====
-- What becomes of the tokens that GenerateTokenPair gives.
use rest_api_gateway.Prelude.{
  ℕ, ◌+◌, ◌*◌, ◌/◌, ◌%◌, ◌^◌, ◌<◌, ◌≤◌, ◌≡◌, refl, ap, ◌∙◌, true, false, ◌&&◌, [], Option, none,
  some, Bytes, ◌=s=◌, length, leb, if◌then◌else◌, arith, IsByte, All, Option-cases, inl, inr,
}
use rest_api_gateway.AesGcm.{Kernel, encrypt}
use rest_api_gateway.AesGcm.Sealing.{IsAead, IsIv, decrypt-encrypt, length-encrypt}
use rest_api_gateway.Base64.{base64_url_encode, base64_url_decode}
use rest_api_gateway.Base64.RoundTrip.{base64_url_decode-encode, length-base64_url_encode}
use rest_api_gateway.Token.{
  TokenType, access, refresh, TokenPayload, serialize_payload, parsed, signed_lt,
}
use rest_api_gateway.Token.Payload.{
  IsPayload, deserialize-serialize, length-serialize_payload, serialize_payload_bytes,
}
use rest_api_gateway.Token.Engine.{
  TokenEngine, max_token_size, is_token_revoked, encrypt_token, decrypt_token, payload_of,
  generate_token_pair, accepted, rejected, =type=, check_payload, validate_token,
  validate_access_token, validate_refresh_token,
}

-- Identifiers whose tokens stay within the 4096 characters that a validation accepts, and a time.
pub record IsRequest (now : ℕ) (server user : Bytes) : Type 0 where
  pub fits : length server + length user ≤ 3019
  pub time : now < 2 ^ 64
  pub server_bytes : All IsByte server
  pub user_bytes : All IsByte user

-- An engine with the cipher of `e` that has not revoked the token.
pub record Keeps (e later : TokenEngine) (token : Bytes) : Type 0 where
  pub ready : later.is_initialized ≡ true
  pub same_cipher : later.aes_gcm ≡ e.aes_gcm
  pub kept : is_token_revoked later token ≡ false

payload_of-IsPayload :
    (type : TokenType) (server user : Bytes) (now seconds : ℕ)
    → IsRequest now server user
    → IsPayload (payload_of type server user now seconds)
unfolding payload_of
payload_of-IsPayload type server user now seconds q = record {
  short = omega (arith, q.fits);
  creation_word = q.time;
  expiry_word = omega arith;
  server_bytes = q.server_bytes;
  user_bytes = q.user_bytes;
}

payload_of-fits :
    (type : TokenType) (server user : Bytes) (now seconds : ℕ)
    → IsRequest now server user
    → length (payload_of type server user now seconds).server_identifier
        + length (payload_of type server user now seconds).user_identifier
      ≤ 3019
unfolding payload_of
payload_of-fits type server user now seconds q = q.fits

encrypt_token_parts :
    (k : Kernel) (e : TokenEngine) (iv : Bytes) (p : TokenPayload) (token : Bytes)
    → encrypt_token k e (some iv) p ≡ some token
    → (c : Bytes) × (encrypt k e.aes_gcm (some iv) (serialize_payload p) [] ≡ some c)
      × (token ≡ base64_url_encode c)
unfolding encrypt_token
encrypt_token_parts k e iv p token h =
    elim (Option-cases (encrypt k e.aes_gcm (some iv) (serialize_payload p) [])) [
      | inl failed ↦ let none_some : ◌≡◌ {A = Option Bytes} none (some token) = rw failed at h in cc
      | inr (c, done) ↦
          let same : ◌≡◌ {A = Option Bytes} (some (base64_url_encode c)) (some token) =
            rw done at h in
          (c, done, cc)
    ]

module _ (k : Kernel) (aead : IsAead k) (e : TokenEngine) (iv : Bytes) (random : IsIv iv)
    (p : TokenPayload) (h : IsPayload p)
    (small : length p.server_identifier + length p.user_identifier ≤ 3019) (token : Bytes)
    (made : encrypt_token k e (some iv) p ≡ some token) where
  decrypts :
      (later : TokenEngine) → later.aes_gcm ≡ e.aes_gcm → decrypt_token k later token ≡ parsed p
  unfolding decrypt_token
  decrypts later same =
      let (c, sealed, text) = encrypt_token_parts k e iv p token made in
      let (opens, bytes) =
        decrypt-encrypt k e.aes_gcm iv (serialize_payload p) c aead random
          (serialize_payload_bytes p h) (omega (arith, length-serialize_payload p h)) sealed in
      let decodes : base64_url_decode token ≡ some c =
        let size =
          length-encrypt k e.aes_gcm iv (serialize_payload p) c aead random
            (serialize_payload_bytes p h) sealed in
        ap base64_url_decode text
        ∙ base64_url_decode-encode c (omega (arith, size, length-serialize_payload p h)) bytes in
      rw (same, decodes, opens) (deserialize-serialize p h)

  -- The length of a token.
  length-token :
      length token ≡ (4 * (length p.server_identifier + length p.user_identifier + 53) + 2) / 3
  length-token =
      let (c, sealed, text) = encrypt_token_parts k e iv p token made in
      let size =
        length-encrypt k e.aes_gcm iv (serialize_payload p) c aead random
          (serialize_payload_bytes p h) sealed in
      let short : length c < 2 ^ 32 = omega (arith, size, length-serialize_payload p h) in
      omega (
        arith,
        ap length text,
        length-base64_url_encode c short,
        size,
        length-serialize_payload p h,
      )

-- The checks of a validation of a payload.
check_payload_of :
    (type asked : TokenType) (server user expected : Bytes) (now seconds clock : ℕ)
    → check_payload asked expected clock (parsed (payload_of type server user now seconds)) ≡ (
        if =type= type asked && server =s= expected && signed_lt clock ((now + seconds) % 2 ^ 64)
        then accepted user
        else rejected)
unfolding payload_of
check_payload_of type asked server user expected now seconds clock = refl

module _ (k : Kernel) (aead : IsAead k) (e : TokenEngine) (iv : Bytes) (random : IsIv iv) (now : ℕ)
    (server user : Bytes) (q : IsRequest now server user) (type : TokenType) (seconds : ℕ)
    (token : Bytes)
    (made : encrypt_token k e (some iv) (payload_of type server user now seconds)
      ≡ some token) where
  short_enough : leb (length token) max_token_size ≡ true
  unfolding payload_of
  short_enough =
      let size =
        length-token k aead e iv random (payload_of type server user now seconds)
          (payload_of-IsPayload type server user now seconds q)
          (payload_of-fits type server user now seconds q) token made in
      let bound = q.fits in ground (arith, size, bound)

  pub validates :
      (later : TokenEngine) (asked : TokenType) (clock : ℕ) (expected : Bytes)
      → Keeps e later token
      → validate_token k later asked clock token expected ≡ (
          if =type= type asked && server =s= expected && signed_lt clock ((now + seconds) % 2 ^ 64)
          then accepted user
          else rejected)
  unfolding validate_token
  validates later asked clock expected kept =
      rw
        (
          kept.kept,
          short_enough,
          decrypts k aead e iv random (payload_of type server user now seconds)
              (payload_of-IsPayload type server user now seconds q)
              (payload_of-fits type server user now seconds q) token made later kept.same_cipher,
          kept.ready,
        )
        (check_payload_of type asked server user expected now seconds clock)

generate_parts :
    (k : Kernel) (e : TokenEngine) (iv_a iv_r : Bytes) (now : ℕ) (server user a r : Bytes)
    → generate_token_pair k e (some iv_a) (some iv_r) now server user ≡ some (a, r)
    → (encrypt_token k e (some iv_a) (payload_of access server user now e.access_expiry_seconds)
        ≡ some a)
      × (encrypt_token k e (some iv_r) (payload_of refresh server user now e.refresh_expiry_seconds)
          ≡ some r)
unfolding generate_token_pair
generate_parts k e iv_a iv_r now server user a r h = ground arith

module _ (k : Kernel) (aead : IsAead k) (e : TokenEngine) (iv_a iv_r : Bytes) (random_a : IsIv iv_a)
    (random_r : IsIv iv_r) (now : ℕ) (server user : Bytes) (q : IsRequest now server user)
    (a r : Bytes)
    (made : generate_token_pair k e (some iv_a) (some iv_r) now server user ≡ some (a, r))
    (later : TokenEngine) (clock : ℕ) (expected : Bytes) where
  -- For a cipher that keeps the contract of AES-GCM, IVs of twelve bytes, a 64-bit time and
  -- identifiers of bytes, at most 3019 together: an initialized engine with that cipher and key
  -- that has not revoked a new access token accepts it as an access token exactly for its own
  -- server and before its expiry, as its user, and never as a refresh token.
  pub access_token-validates :
      Keeps e later a
      → (validate_access_token k later clock a expected ≡ (
          if server =s= expected && signed_lt clock ((now + e.access_expiry_seconds) % 2 ^ 64)
          then accepted user
          else rejected))
        × (validate_refresh_token k later clock a expected ≡ rejected)
  unfolding validate_access_token validate_refresh_token
  access_token-validates kept =
      let (made_a, made_r) = generate_parts k e iv_a iv_r now server user a r made in
      (
        validates k aead e iv_a random_a now server user q access e.access_expiry_seconds a made_a
            later access clock expected kept,
        validates k aead e iv_a random_a now server user q access e.access_expiry_seconds a made_a
            later refresh clock expected kept,
      )

  -- Under the conditions of access_token-validates: an engine that has not revoked a new
  -- refresh token accepts it as a refresh token exactly for its own server and before its
  -- expiry, as its user, and never as an access token.
  pub refresh_token-validates :
      Keeps e later r
      → (validate_refresh_token k later clock r expected ≡ (
          if server =s= expected && signed_lt clock ((now + e.refresh_expiry_seconds) % 2 ^ 64)
          then accepted user
          else rejected))
        × (validate_access_token k later clock r expected ≡ rejected)
  unfolding validate_access_token validate_refresh_token
  refresh_token-validates kept =
      let (made_a, made_r) = generate_parts k e iv_a iv_r now server user a r made in
      (
        validates k aead e iv_r random_r now server user q refresh e.refresh_expiry_seconds r made_r
            later refresh clock expected kept,
        validates k aead e iv_r random_r now server user q refresh e.refresh_expiry_seconds r made_r
            later access clock expected kept,
      )
