-- ===== src/AesGcm/Sealing.antt =====
-- What was encrypted is decrypted again.
use rest_api_gateway.Prelude.{
  ◌+◌, ◌<◌, ◌≡◌, refl, ap, ◌∙◌, true, [], ◌++◌, Option, none, some, Bytes, length, take, drop, ltb,
  arith, Option-cases, Bool-cases, inl, inr, IsByte, All, All-append, length-append,
  take-length_append, drop-length_append,
}
use rest_api_gateway.AesGcm.{Kernel, AesGcm, encrypt, decrypt, iv_size, tag_size}

-- What the kernel documents of gcm(aes): the output has the additional data in front, bytes, a tag
-- of 16 bytes behind as many bytes as the plaintext has, and it is opened with the same key, IV and
-- additional data.
pub record IsAead (k : Kernel) : Type 0 where
  pub sealed :
      (key iv aad plaintext output : Bytes)
      → All IsByte plaintext
      → k.aead_encrypt key iv aad plaintext ≡ some output
      → (body : Bytes) × (output ≡ aad ++ body)
        × (length body ≡ length plaintext + tag_size)
        × All IsByte body
        × (k.aead_decrypt key iv aad body ≡ some (aad ++ plaintext))

-- What getrandom gives for an IV: twelve bytes.
abbrev pub IsIv : Bytes → Type 0
IsIv iv = (length iv ≡ iv_size) × All IsByte iv

-- What Encrypt gives is the IV with the kernel's output behind it.
encrypt_parts :
    (k : Kernel) (g : AesGcm) (iv plaintext c : Bytes)
    → encrypt k g (some iv) plaintext [] ≡ some c
    → (g.is_initialized ≡ true)
      × ((output : Bytes) × (k.aead_encrypt g.key iv [] plaintext ≡ some output)
          × (c ≡ iv ++ output))
unfolding encrypt
encrypt_parts k g iv plaintext c e = elim (Bool-cases g.is_initialized) [
  | inr off ↦ let none_some : ◌≡◌ {A = Option Bytes} none (some c) = rw off at e in cc
  | inl on ↦ elim (Option-cases (k.aead_encrypt g.key iv [] plaintext)) [
    | inl failed ↦ let none_some : ◌≡◌ {A = Option Bytes} none (some c) = rw (on, failed) at e in cc
    | inr (output, out) ↦
        let same : ◌≡◌ {A = Option Bytes} (some (iv ++ output)) (some c) = rw (on, out) at e in
        (on, (output, out, cc))
  ]
]

-- An IV of 12 bytes, and 16 bytes of tag.
pub length-encrypt :
    (k : Kernel) (g : AesGcm) (iv plaintext c : Bytes)
    → IsAead k
    → IsIv iv
    → All IsByte plaintext
    → encrypt k g (some iv) plaintext [] ≡ some c
    → length c ≡ length plaintext + 28
length-encrypt k g iv plaintext c aead (twelve, bytes) plain e =
    let (on, (output, out, whole)) = encrypt_parts k g iv plaintext c e in
    let (body, shape, size, body_bytes, opens) =
      aead.sealed g.key iv [] plaintext output plain out in
    omega (arith, ap length whole, ap length shape, length-append iv output)

-- Decrypting what was encrypted under the same key gives the plaintext, where there is any.
pub decrypt-encrypt :
    (k : Kernel) (g : AesGcm) (iv plaintext c : Bytes)
    → IsAead k
    → IsIv iv
    → All IsByte plaintext
    → 0 < length plaintext
    → encrypt k g (some iv) plaintext [] ≡ some c
    → (decrypt k g c [] ≡ some plaintext) × All IsByte c
unfolding decrypt
decrypt-encrypt k g iv plaintext c aead (twelve, bytes) plain some_text e =
    let (on, (output, out, joined)) = encrypt_parts k g iv plaintext c e in
    let (body, shape, size, body_bytes, opens) =
      aead.sealed g.key iv [] plaintext output plain out in
    let whole : c ≡ iv ++ body = joined ∙ ap (λ xs. iv ++ xs) shape in
    let front : take 12 c ≡ iv = rw (whole, ← twelve) (take-length_append iv body) in
    let behind : drop 12 c ≡ body = rw (whole, ← twelve) (drop-length_append iv body) in
    let long : ltb 28 (length c) ≡ true = rw whole (ground (arith, length-append iv body)) in
    let text : ltb 0 (length plaintext) ≡ true = ground arith in
    (
      rw (on, long, front, behind, opens, text) refl,
      rw whole (All-append IsByte iv body bytes body_bytes),
    )
