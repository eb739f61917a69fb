-- ===== src/Url/Decoding.antt =====
-- What UrlDecode makes of an encoded text.
use rest_api_gateway.Prelude.{ℕ, ◌+◌, ◌*◌, ◌≡◌, ◌≢◌, refl, [], ◌∷◌, some, Bytes, arith}
use rest_api_gateway.Url.{hex_value, stoi_hex, push_char, plus_space, url_decode}

-- An encoding of a text: a character but '%' and '+' may stand for itself, '+' stands for a space,
-- and two hexadecimal digits behind a '%' stand for their number.
pub data Encodes : Bytes → Bytes → Type 0 where
  ended : Encodes [] []
  itself : {c : ℕ} {t s : Bytes} → c ≢ b'%' → c ≢ b'+' → Encodes t s → Encodes (c ∷ t) (c ∷ s)
  space : {t s : Bytes} → Encodes t s → Encodes (b' ' ∷ t) (b'+' ∷ s)
  escaped :
      {h l high low : ℕ} {t s : Bytes}
      → hex_value h ≡ some high
      → hex_value l ≡ some low
      → Encodes t s
      → Encodes ((high * 16 + low) ∷ t) (b'%' ∷ h ∷ l ∷ s)

decode_plain :
    (c : ℕ) (s : Bytes)
    → c ≢ b'%'
    → url_decode (c ∷ s) ≡ push_char (some (plus_space c)) (url_decode s)
unfolding url_decode
decode_plain c [] h = refl
decode_plain c (d ∷ []) h = refl
decode_plain c (d ∷ e ∷ s) h = ground arith

decode_escaped :
    (h l high low : ℕ) (s : Bytes)
    → hex_value h ≡ some high
    → hex_value l ≡ some low
    → url_decode (b'%' ∷ h ∷ l ∷ s) ≡ push_char (some (high * 16 + low)) (url_decode s)
unfolding url_decode stoi_hex
decode_escaped h l high low s e f = rw (e, f) refl

-- UrlDecode gives back every text from each of its encodings, where characters but '%' and '+'
-- may stand for themselves, '+' for a space and '%' with two hexadecimal digits for a number;
-- it throws nothing there.
pub url_decode-Encodes : {t s : Bytes} → Encodes t s → url_decode s ≡ some t
unfolding url_decode
url_decode-Encodes ended = refl
url_decode-Encodes (itself {c} {t} {s} h k e) =
    let rest = url_decode-Encodes e in
    let same : plus_space c ≡ c = ground arith in rw (decode_plain c s h, same, rest) refl
url_decode-Encodes (space {t} {s} e) =
    let rest = url_decode-Encodes e in rw (decode_plain b'+' s (λ x. omega arith), rest) refl
url_decode-Encodes (escaped {h} {l} {high} {low} {t} {s} p q e) =
    let rest = url_decode-Encodes e in rw (decode_escaped h l high low s p q, rest) refl
