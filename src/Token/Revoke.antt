-- ===== src/Token/Revoke.antt =====
-- RevokeToken and the rotation of refresh tokens.
use rest_api_gateway.Prelude.{
  ℕ, ◌≤◌, ◌≡◌, refl, sym, ap, ◌∙◌, inl, inr, true, false, ◌||◌, Bool-cases, ◌∷◌, ◌++◌, Option, none,
  some, Bytes, ◌=s=◌, bytes_eq_iff, bytes_eq_refl, length, leb, if◌then◌else◌, arith, length-append,
}
use rest_api_gateway.AesGcm.{Kernel}
use rest_api_gateway.Base64.Aliases.{base64_url_decode-padding}
use rest_api_gateway.Token.{TokenType, access, refresh}
use rest_api_gateway.Token.Engine.{
  TokenEngine, max_token_size, is_member, is_token_revoked, revoke_token, decrypt_token,
  generate_token_pair, Validation, accepted, rejected, crashed, validate_token,
  validate_access_token, validate_refresh_token, Refreshed, refreshed, refresh_crashed,
  refresh_token_pair,
}

-- Revoking a token adds it to the revoked tokens, and no other.
pub is_token_revoked-revoke_token :
    (e : TokenEngine) (token other : Bytes)
    → is_token_revoked (revoke_token e token) other ≡ (other =s= token || is_token_revoked e other)
unfolding is_token_revoked revoke_token is_member
is_token_revoked-revoke_token e token other = elim (Bool-cases (is_member token e.revoked_tokens)) [
  | inl known ↦ ground (arith, bytes_eq_iff other token)
  | inr new ↦ ground arith
]

validate_revoked :
    (k : Kernel) (e : TokenEngine) (type : TokenType) (now : ℕ) (token server : Bytes)
    → is_token_revoked e token ≡ true
    → validate_token k e type now token server ≡ rejected
unfolding validate_token
validate_revoked k e type now token server h = ground arith

same_decryption :
    (k : Kernel) (e : TokenEngine) (token other : Bytes)
    → decrypt_token k (revoke_token e token) other ≡ decrypt_token k e other
unfolding decrypt_token revoke_token
same_decryption k e token other = refl

same_readiness :
    (e : TokenEngine) (token : Bytes) → (revoke_token e token).is_initialized ≡ e.is_initialized
unfolding revoke_token
same_readiness e token = refl

validate-revoke_token :
    (k : Kernel) (e : TokenEngine) (type : TokenType) (now : ℕ) (token other server : Bytes)
    → validate_token k (revoke_token e token) type now other server
      ≡ (if other =s= token then rejected else validate_token k e type now other server)
unfolding validate_token
validate-revoke_token k e type now token other server =
    rw
      (
        same_decryption k e token other,
        is_token_revoked-revoke_token e token other,
        same_readiness e token,
      )
      (ground arith)

-- After RevokeToken both validations refuse that token, and every other text fares as before.
pub validate_access-revoke_token :
    (k : Kernel) (e : TokenEngine) (now : ℕ) (token other server : Bytes)
    → (validate_access_token k (revoke_token e token) now other server
        ≡ (if other =s= token then rejected else validate_access_token k e now other server))
      × (validate_refresh_token k (revoke_token e token) now other server
          ≡ (if other =s= token then rejected else validate_refresh_token k e now other server))
unfolding validate_access_token validate_refresh_token
validate_access-revoke_token k e now token other server = (
  validate-revoke_token k e access now token other server,
  validate-revoke_token k e refresh now token other server,
)

accepted_parts :
    (k : Kernel) (e e' : TokenEngine) (random_a random_r : Option Bytes) (now later : ℕ)
    (token server : Bytes) (pair : Bytes × Bytes)
    → refresh_token_pair k e random_a random_r now later token server ≡ refreshed e' (some pair)
    → (user : Bytes) × (validate_refresh_token k e now token server ≡ accepted user)
      × (e' ≡ revoke_token e token)
      × (generate_token_pair k e' random_a random_r later server user ≡ some pair)
unfolding refresh_token_pair
accepted_parts k e e' random_a random_r now later token server pair h =
    by_validation (validate_refresh_token k e now token server) refl
  where
    by_validation :
        (v : Validation)
        → validate_refresh_token k e now token server ≡ v
        → (user : Bytes) × (validate_refresh_token k e now token server ≡ accepted user)
          × (e' ≡ revoke_token e token)
          × (generate_token_pair k e' random_a random_r later server user ≡ some pair)
    by_validation (accepted user) eq =
        let same : ◌≡◌ {A = Refreshed}
            (refreshed (revoke_token e token)
              (generate_token_pair k (revoke_token e token) random_a random_r later server user))
            (refreshed e' (some pair)) =
          rw eq at h in
        let engines : revoke_token e token ≡ e' = cc in
        let tokens : generate_token_pair k (revoke_token e token) random_a random_r later server
              user
            ≡ some pair =
          cc in
        (user, eq, sym engines, rw (← engines) tokens)
    by_validation rejected eq =
        let same : ◌≡◌ {A = Refreshed} (refreshed e none) (refreshed e' (some pair)) = rw eq at h in
        cc
    by_validation crashed eq =
        let same : ◌≡◌ {A = Refreshed} refresh_crashed (refreshed e' (some pair)) = rw eq at h in cc

refresh_revoked :
    (k : Kernel) (e : TokenEngine) (random_a random_r : Option Bytes) (now later : ℕ)
    (token server : Bytes)
    → is_token_revoked e token ≡ true
    → refresh_token_pair k e random_a random_r now later token server ≡ refreshed e none
unfolding refresh_token_pair validate_refresh_token
refresh_revoked k e random_a random_r now later token server h =
    rw (validate_revoked k e refresh now token server h) refl

-- Where RefreshTokenPair gives a pair, ValidateRefreshToken accepted the token and the pair is
-- made for its user; presenting the token again, at any time and for any server, gives no
-- tokens and changes nothing.
pub refresh_token_pair-once :
    (k : Kernel) (e e' : TokenEngine) (random_a random_r : Option Bytes) (now later : ℕ)
    (token server : Bytes) (pair : Bytes × Bytes)
    → refresh_token_pair k e random_a random_r now later token server ≡ refreshed e' (some pair)
    → ((user : Bytes) × (validate_refresh_token k e now token server ≡ accepted user)
        × (generate_token_pair k e' random_a random_r later server user ≡ some pair))
      × ((again_a again_r : Option Bytes) (now' later' : ℕ) (server' : Bytes)
          → refresh_token_pair k e' again_a again_r now' later' token server' ≡ refreshed e' none)
refresh_token_pair-once k e e' random_a random_r now later token server pair h =
    let (user, checked, moved, made) =
      accepted_parts k e e' random_a random_r now later token server pair h in
    let revoked : is_token_revoked e' token ≡ true =
      ap (λ x. is_token_revoked x token) moved
      ∙ is_token_revoked-revoke_token e token token
      ∙ rw (bytes_eq_refl token) refl in
    (
      (user, checked, made),
      λ again_a again_r now' later' server'.
          refresh_revoked k e' again_a again_r now' later' token server' revoked,
    )

prolonged_differs : (token junk : Bytes) → (token ++ b'=' ∷ junk =s= token) ≡ false
prolonged_differs token junk = elim (Bool-cases (token ++ b'=' ∷ junk =s= token)) [
  | inr other ↦ other
  | inl same ↦
      let lengths = ap length ((bytes_eq_iff (token ++ b'=' ∷ junk) token).0 same) in
      absurd (omega (arith, lengths, length-append token (b'=' ∷ junk)))
]

-- For a token that is not revoked: after it is revoked, the same token with '=' and any text
-- behind it, where that text is not revoked itself and has at most 4096 characters, is
-- validated as an access token just as the token was before.
pub revoke_token_alias :
    (k : Kernel) (e : TokenEngine) (now : ℕ) (token junk server : Bytes)
    → is_token_revoked e token ≡ false
    → is_token_revoked e (token ++ b'=' ∷ junk) ≡ false
    → length (token ++ b'=' ∷ junk) ≤ max_token_size
    → validate_access_token k (revoke_token e token) now (token ++ b'=' ∷ junk) server
      ≡ validate_access_token k e now token server
unfolding validate_access_token validate_token decrypt_token
revoke_token_alias k e now token junk server fresh fresh' short =
    let longer = length-append token (b'=' ∷ junk) in
    let fits : leb (length token) max_token_size ≡ true = ground (arith, longer) in
    let fits' : leb (length (token ++ b'=' ∷ junk)) max_token_size ≡ true = ground arith in
    (validate_access-revoke_token k e now token (token ++ b'=' ∷ junk) server).0
    ∙ rw
        (
          prolonged_differs token junk,
          fresh,
          fresh',
          fits,
          fits',
          base64_url_decode-padding token junk,
        )
        refl
