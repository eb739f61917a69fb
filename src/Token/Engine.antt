-- ===== src/Token/Engine.antt =====
-- The operations of TokenEngine, in src/auth/TokenEngine.cpp. The set of revoked tokens is a list
-- without repetitions. Where a call fails, its out-parameters are left out.
use rest_api_gateway.Prelude.{
  ℕ, ◌+◌, ◌%◌, ◌^◌, Bool, true, false, not, ◌&&◌, List, [], ◌∷◌, Option, none, some, Bytes, ◌=s=◌,
  length, leb, if◌then◌else◌,
}
use rest_api_gateway.AesGcm.{Kernel, AesGcm, encrypt, decrypt}
use rest_api_gateway.Base64.{base64_url_encode, base64_url_decode}
use rest_api_gateway.Token.{
  TokenType, access, refresh, TokenPayload, serialize_payload, Parsed, parsed, malformed,
  out_of_range, deserialize_payload, signed_lt,
}

pub record TokenEngine : Type 0 where
  pub aes_gcm : AesGcm
  pub access_expiry_seconds : ℕ
  pub refresh_expiry_seconds : ℕ
  pub is_initialized : Bool
  pub revoked_tokens : List Bytes

abbrev pub max_token_size : ℕ
max_token_size = 4096

-- TokenEngine(); AesGcm starts with a key of zeros.
unfoldable pub new_engine : Bytes → TokenEngine
new_engine zeros = record {
  aes_gcm = record { key = zeros; is_initialized = false };
  access_expiry_seconds = 300;
  refresh_expiry_seconds = 86400;
  is_initialized = false;
  revoked_tokens = [];
}

-- Initialize, with the state of AesGcm that its own Initialize leaves and the result it gives.
unfoldable pub initialize : TokenEngine → AesGcm → Bool → ℕ → ℕ → TokenEngine × Bool
initialize e g ready access_seconds refresh_seconds = (
  record e {
    aes_gcm = g;
    access_expiry_seconds = access_seconds;
    refresh_expiry_seconds = refresh_seconds;
    is_initialized = if ready then true else e.is_initialized;
  },
  ready,
)

unfoldable pub is_member : Bytes → List Bytes → Bool
is_member t [] = false
is_member t (r ∷ rs) = if t =s= r then true else is_member t rs

unfoldable pub is_token_revoked : TokenEngine → Bytes → Bool
is_token_revoked e token = is_member token e.revoked_tokens

-- RevokeToken; its result is always true.
unfoldable pub revoke_token : TokenEngine → Bytes → TokenEngine
revoke_token e token = record e {
  revoked_tokens =
      if is_member token e.revoked_tokens then e.revoked_tokens else token ∷ e.revoked_tokens;
}

unfoldable pub get_active_token_count : TokenEngine → ℕ
get_active_token_count e = length e.revoked_tokens % 2 ^ 32

abbrev encoded : Option Bytes → Option Bytes
encoded none = none
encoded (some ciphertext) = some (base64_url_encode ciphertext)

unfoldable pub encrypt_token : Kernel → TokenEngine → Option Bytes → TokenPayload → Option Bytes
encrypt_token k e random p = encoded (encrypt k e.aes_gcm random (serialize_payload p) [])

abbrev pub parse_plaintext : Option Bytes → Parsed
parse_plaintext none = malformed
parse_plaintext (some plaintext) = deserialize_payload plaintext

abbrev pub decrypt_bytes : Kernel → TokenEngine → Option Bytes → Parsed
decrypt_bytes k e none = malformed
decrypt_bytes k e (some ciphertext) = parse_plaintext (decrypt k e.aes_gcm ciphertext [])

unfoldable pub decrypt_token : Kernel → TokenEngine → Bytes → Parsed
decrypt_token k e token = decrypt_bytes k e (base64_url_decode token)

-- The payload of a new token of a type that lives for so many seconds.
unfoldable pub payload_of : TokenType → Bytes → Bytes → ℕ → ℕ → TokenPayload
payload_of type server user now seconds = record {
  server_identifier = server;
  user_identifier = user;
  token_type = type;
  creation_timestamp = now;
  expiry_timestamp = (now + seconds) % 2 ^ 64;
}

abbrev pair_of : Option Bytes → Option Bytes → Option (Bytes × Bytes)
pair_of none r = none
pair_of (some a) none = none
pair_of (some a) (some r) = some (a, r)

-- GenerateTokenPair: the access token and the refresh token.
unfoldable pub generate_token_pair :
    Kernel → TokenEngine → Option Bytes → Option Bytes → ℕ → Bytes → Bytes → Option (Bytes × Bytes)
generate_token_pair k e random_a random_r now server user =
    if e.is_initialized
    then pair_of
        (encrypt_token k e random_a (payload_of access server user now e.access_expiry_seconds))
        (encrypt_token k e random_r (payload_of refresh server user now e.refresh_expiry_seconds))
    else none

-- `accepted` holds the user; `crashed` is an access out of range.
pub data Validation : Type 0 where
  accepted : Bytes → Validation
  rejected crashed : Validation

abbrev pub =type= : TokenType → TokenType → Bool
=type= access access = true
=type= refresh refresh = true
=type= _ _ = false

abbrev pub check_payload : TokenType → Bytes → ℕ → Parsed → Validation
check_payload type server now malformed = rejected
check_payload type server now out_of_range = crashed
check_payload type server now (parsed p) =
    if =type= p.token_type type
      && p.server_identifier =s= server
      && signed_lt now p.expiry_timestamp
    then accepted p.user_identifier
    else rejected

-- The body that ValidateAccessToken and ValidateRefreshToken repeat for their types.
unfoldable pub validate_token : Kernel → TokenEngine → TokenType → ℕ → Bytes → Bytes → Validation
validate_token k e type now token server =
    if e.is_initialized && not (is_token_revoked e token) && leb (length token) max_token_size
    then check_payload type server now (decrypt_token k e token)
    else rejected

unfoldable pub validate_access_token : Kernel → TokenEngine → ℕ → Bytes → Bytes → Validation
unfolding validate_token
validate_access_token k e now token server = validate_token k e access now token server

unfoldable pub validate_refresh_token : Kernel → TokenEngine → ℕ → Bytes → Bytes → Validation
unfolding validate_token
validate_refresh_token k e now token server = validate_token k e refresh now token server

-- What RefreshTokenPair does: the tokens are none where it returns false.
pub data Refreshed : Type 0 where
  refreshed : TokenEngine → Option (Bytes × Bytes) → Refreshed
  refresh_crashed : Refreshed

abbrev rotate :
    Kernel → TokenEngine → Option Bytes → Option Bytes → ℕ → Bytes → Bytes → Validation → Refreshed
rotate k e random_a random_r now token server rejected = refreshed e none
rotate k e random_a random_r now token server crashed = refresh_crashed
rotate k e random_a random_r now token server (accepted user) =
    let e' = revoke_token e token in
    refreshed e' (generate_token_pair k e' random_a random_r now server user)

-- RefreshTokenPair; the clock is read for the validation and again for the new pair.
unfoldable pub refresh_token_pair :
    Kernel → TokenEngine → Option Bytes → Option Bytes → ℕ → ℕ → Bytes → Bytes → Refreshed
refresh_token_pair k e random_a random_r now later token server =
    rotate k e random_a random_r later token server (validate_refresh_token k e now token server)
