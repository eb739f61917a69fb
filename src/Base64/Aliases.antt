-- ===== src/Base64/Aliases.antt =====
-- Texts that decode alike.
use rest_api_gateway.Prelude.{
  ℕ, ◌≡◌, refl, sym, ◌∙◌, Bool-cases, Option-cases, inl, inr, [], ◌∷◌, ◌++◌, Bytes, ◌==◌,
}
use rest_api_gateway.Base64.RoundTrip.{step, decode_value}
use rest_api_gateway.Base64.{value_of, shifted, decode_from, base64_url_decode}

same_step :
    (a bits v : ℕ) (s junk : Bytes)
    → ((b : ℕ) → decode_from (shifted a v) b (s ++ b'=' ∷ junk) ≡ decode_from (shifted a v) b s)
    → step a bits v (s ++ b'=' ∷ junk) ≡ step a bits v s
unfolding step
same_step a bits v s junk same = rw same refl

decode_from-padding :
    (a bits : ℕ) (s junk : Bytes) → decode_from a bits (s ++ b'=' ∷ junk) ≡ decode_from a bits s
unfolding decode_from
decode_from-padding a bits [] junk = refl
decode_from-padding a bits (c ∷ s) junk = elim (Bool-cases (c == b'=')) [
  | inl stops ↦ rw (stops, decode_from) refl
  | inr plain ↦ elim (Option-cases (value_of c)) [
    | inl bad ↦ rw (plain, decode_from) (rw (bad, decode_from) refl)
    | inr (v, good) ↦
        decode_value a bits c v (s ++ b'=' ∷ junk) plain good
        ∙ same_step a bits v s junk (λ b. decode_from-padding (shifted a v) b s junk)
        ∙ sym (decode_value a bits c v s plain good)
  ]
]

-- Base64UrlDecode ignores a '=' and everything behind it: a text prolonged that way decodes as
-- before.
pub base64_url_decode-padding :
    (s junk : Bytes) → base64_url_decode (s ++ b'=' ∷ junk) ≡ base64_url_decode s
unfolding base64_url_decode
base64_url_decode-padding s junk = decode_from-padding 0 0 s junk
