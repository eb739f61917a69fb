-- ===== src/AesGcm/Tests.antt =====
-- The packing at concrete inputs.
use rest_api_gateway.Prelude.{◌≡◌, refl, true, [], ◌++◌, none, some, codes}
use rest_api_gateway.AesGcm.{Kernel, AesGcm, encrypt, decrypt}

abbrev copying : Kernel
copying = record {
  aead_encrypt = λ key iv aad plaintext. some (aad ++ plaintext);
  aead_decrypt = λ key iv aad body. some (aad ++ body);
}

abbrev started : AesGcm
started = record { key = codes "key"; is_initialized = true }

packed :
    encrypt copying started (some (codes "iv")) (codes "text") (codes "aad") ≡ some (codes "ivtext")
unfolding encrypt
packed = refl

no_random_bytes : encrypt copying started none (codes "text") [] ≡ none
unfolding encrypt
no_random_bytes = refl

too_short : decrypt copying started (codes "0123456789012345678901234567") [] ≡ none
unfolding decrypt
too_short = refl
