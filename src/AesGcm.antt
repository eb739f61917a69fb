-- ===== src/AesGcm.antt =====
-- include/gateway/auth/AesGcm.h and src/auth/AesGcm.cpp, but for the text encoding at its end: the
-- packing of IV, ciphertext and tag. The kernel's AF_ALG interface (accept, sendmsg and read on an
-- operation socket) and getrandom are the parameter `Kernel`; where such a call fails, it gives none.
pub mod Sealing
mod Tests
use rest_api_gateway.Prelude.{
  ℕ, zero, suc, ◌+◌, Bool, true, false, ◌&&◌, List, [], ◌∷◌, ◌++◌, Option, none, some, Bytes,
  length, take, drop, ltb, if◌then◌else◌,
}

-- `aead_encrypt key iv aad plaintext` is what `read` gives after the message for an encryption, the
-- additional data with ciphertext and tag behind it; `aead_decrypt key iv aad sealed` gives the
-- additional data and the plaintext, or none where the tag is wrong.
pub record Kernel : Type 0 where
  pub aead_encrypt : Bytes → Bytes → Bytes → Bytes → Option Bytes
  pub aead_decrypt : Bytes → Bytes → Bytes → Bytes → Option Bytes

pub record AesGcm : Type 0 where
  pub key : Bytes
  pub is_initialized : Bool

abbrev pub iv_size : ℕ
iv_size = 12

abbrev pub tag_size : ℕ
tag_size = 16

abbrev sealed_with : Bytes → Bytes → Option Bytes → Option Bytes
sealed_with iv aad none = none
sealed_with iv aad (some output) = some (iv ++ drop (length aad) output)

abbrev encrypt_with : Kernel → Bytes → Option Bytes → Bytes → Bytes → Option Bytes
encrypt_with k key none plaintext aad = none
encrypt_with k key (some iv) plaintext aad =
    sealed_with iv aad (k.aead_encrypt key iv aad plaintext)

-- Encrypt; `random` is what GenerateRandomBytes gives for the IV.
unfoldable pub encrypt : Kernel → AesGcm → Option Bytes → Bytes → Bytes → Option Bytes
encrypt k g random plaintext aad =
    if g.is_initialized then encrypt_with k g.key random plaintext aad else none

-- A read of no bytes is a failure.
abbrev opened_with : Bytes → Option Bytes → Option Bytes
opened_with aad none = none
opened_with aad (some output) =
    if ltb 0 (length output) then some (drop (length aad) output) else none

-- Decrypt
unfoldable pub decrypt : Kernel → AesGcm → Bytes → Bytes → Option Bytes
decrypt k g ciphertext aad =
    if g.is_initialized && ltb (iv_size + tag_size) (length ciphertext)
    then opened_with aad
        (k.aead_decrypt g.key (take iv_size ciphertext) aad (drop iv_size ciphertext))
    else none
