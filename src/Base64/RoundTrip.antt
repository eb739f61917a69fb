-- ===== src/Base64/RoundTrip.antt =====
-- Decoding what was encoded.
use rest_api_gateway.Prelude.{
  ℕ, ◌+◌, ◌-◌, ◌*◌, ◌/◌, ◌%◌, ◌^◌, ◌<◌, ◌≡◌, refl, ap, ◌∙◌, false, [], ◌∷◌, Option, some, Bytes,
  leb, ◌==◌, if◌then◌else◌, arith, All, IsByte, length, take, sym, append-nil, take-length_append,
}
use rest_api_gateway.Base64.{
  char_of, encode_triples, base64_url_encode, value_of, shifted, decoded, decode_from,
  base64_url_decode,
}
use rest_api_gateway.Base64.Alphabet.{char_of_facts}

-- One character: the six bits go in, and a byte comes out where eight are there.
unfoldable pub step : ℕ → ℕ → ℕ → Bytes → Option Bytes
step a bits v s =
    let next = shifted a v in
    let full = leb 8 (bits + 6) in
    let left = if full then bits + 6 - 8 else bits + 6 in
    let rest = decode_from next left s in
    if full then decoded (next / 2 ^ left % 256) rest else rest

-- A character of the alphabet, whatever its value.
pub decode_value :
    (a bits c v : ℕ) (s : Bytes)
    → (c == b'=') ≡ false
    → value_of c ≡ some v
    → decode_from a bits (c ∷ s) ≡ step a bits v s
unfolding decode_from step
decode_value a bits c v s plain value = rw (plain, decode_from) (rw (value, decode_from) refl)

decode_char :
    (a bits v : ℕ) (s : Bytes) → decode_from a bits (char_of v ∷ s) ≡ step a bits (v % 64) s
decode_char a bits v s =
    let (value, plain) = char_of_facts v in decode_value a bits (char_of v) (v % 64) s plain value

step_none : (a v : ℕ) (s : Bytes) → step a 0 v s ≡ decode_from (shifted a v) 6 s
unfolding step
step_none a v s = refl

step_six :
    (a v : ℕ) (s : Bytes)
    → step a 6 v s ≡ decoded (shifted a v / 2 ^ 4 % 256) (decode_from (shifted a v) 4 s)
unfolding step
step_six a v s = refl

step_four :
    (a v : ℕ) (s : Bytes)
    → step a 4 v s ≡ decoded (shifted a v / 2 ^ 2 % 256) (decode_from (shifted a v) 2 s)
unfolding step
step_four a v s = refl

step_two :
    (a v : ℕ) (s : Bytes)
    → step a 2 v s ≡ decoded (shifted a v / 2 ^ 0 % 256) (decode_from (shifted a v) 0 s)
unfolding step
step_two a v s = refl

-- The bytes that come out of two, three and four characters.
first_byte :
    (acc t : ℕ)
    → acc < 2 ^ 32
    → t < 2 ^ 24
    → shifted (shifted acc (t / 2 ^ 18 % 64)) (t / 2 ^ 12 % 64) / 2 ^ 4 % 256 ≡ t / 2 ^ 16
first_byte acc t h k = omega arith

second_byte :
    (acc v w : ℕ) → v < 64 → w < 64 → shifted (shifted acc v) w / 2 ^ 2 % 256 ≡ v % 16 * 16 + w / 4
second_byte acc v w h k = omega arith

third_byte :
    (acc v w : ℕ) → v < 64 → w < 64 → shifted (shifted acc v) w / 2 ^ 0 % 256 ≡ v % 4 * 64 + w
third_byte acc v w h k = omega arith

-- Two characters from the accumulator `acc`, for a triple `t`.
two_chars :
    (acc t : ℕ) (s : Bytes)
    → acc < 2 ^ 32
    → t < 2 ^ 24
    → decode_from acc 0 (char_of (t / 2 ^ 18) ∷ char_of (t / 2 ^ 12) ∷ s)
      ≡ decoded
          (t / 2 ^ 16)
          (decode_from (shifted (shifted acc (t / 2 ^ 18 % 64)) (t / 2 ^ 12 % 64)) 4 s)
unfolding step
two_chars acc t s h k =
    decode_char acc 0 (t / 2 ^ 18) (char_of (t / 2 ^ 12) ∷ s)
    ∙ decode_char (shifted acc (t / 2 ^ 18 % 64)) 6 (t / 2 ^ 12) s
    ∙ ap
        (λ (b : ℕ).
          decoded b (decode_from (shifted (shifted acc (t / 2 ^ 18 % 64)) (t / 2 ^ 12 % 64)) 4 s))
        (first_byte acc t h k)

third_char :
    (acc v w : ℕ) (s : Bytes)
    → v < 64
    → decode_from (shifted acc v) 4 (char_of w ∷ s)
      ≡ decoded (v % 16 * 16 + w % 64 / 4) (decode_from (shifted (shifted acc v) (w % 64)) 2 s)
unfolding step
third_char acc v w s h =
    decode_char (shifted acc v) 4 w s
    ∙ ap (λ (b : ℕ). decoded b (decode_from (shifted (shifted acc v) (w % 64)) 2 s))
        (second_byte acc v (w % 64) h (omega arith))

fourth_char :
    (acc v w : ℕ) (s : Bytes)
    → v < 64
    → decode_from (shifted acc v) 2 (char_of w ∷ s)
      ≡ decoded (v % 4 * 64 + w % 64) (decode_from (shifted (shifted acc v) (w % 64)) 0 s)
unfolding step
fourth_char acc v w s h =
    decode_char (shifted acc v) 2 w s
    ∙ ap (λ (b : ℕ). decoded b (decode_from (shifted (shifted acc v) (w % 64)) 0 s))
        (third_byte acc v (w % 64) h (omega arith))

-- The accumulator is a 32-bit word throughout.
shifted-lt : (acc v : ℕ) → v < 64 → shifted acc v < 2 ^ 32
shifted-lt acc v h = omega arith

ends : (acc bits : ℕ) → decode_from acc bits [] ≡ some []
unfolding decode_from
ends acc bits = refl

bytes_of_two :
    (a b : ℕ)
    → IsByte a
    → IsByte b
    → decoded ((a * 2 ^ 16 + b * 2 ^ 8) / 2 ^ 16) (
        decoded
          ((a * 2 ^ 16 + b * 2 ^ 8) / 2 ^ 12 % 64 % 16 * 16
            + (a * 2 ^ 16 + b * 2 ^ 8) / 2 ^ 6 % 64 / 4)
          (some []))
      ≡ some (a ∷ b ∷ [])
bytes_of_two a b ha hb =
    let e : (a * 2 ^ 16 + b * 2 ^ 8) / 2 ^ 16 ≡ a = omega arith in
    let f : (a * 2 ^ 16 + b * 2 ^ 8) / 2 ^ 12 % 64 % 16 * 16
          + (a * 2 ^ 16 + b * 2 ^ 8) / 2 ^ 6 % 64 / 4
        ≡ b =
      omega arith in
    rw (e, f) refl

bytes_of_three :
    (a b c : ℕ) (rest : Bytes)
    → IsByte a
    → IsByte b
    → IsByte c
    → decoded ((a * 2 ^ 16 + b * 2 ^ 8 + c) / 2 ^ 16) (
        decoded
          ((a * 2 ^ 16 + b * 2 ^ 8 + c) / 2 ^ 12 % 64 % 16 * 16
            + (a * 2 ^ 16 + b * 2 ^ 8 + c) / 2 ^ 6 % 64 / 4)
          (decoded
            ((a * 2 ^ 16 + b * 2 ^ 8 + c) / 2 ^ 6 % 64 % 4 * 64 + (a * 2 ^ 16 + b * 2 ^ 8 + c) % 64)
            (some rest)))
      ≡ some (a ∷ b ∷ c ∷ rest)
bytes_of_three a b c rest ha hb hc =
    let t = a * 2 ^ 16 + b * 2 ^ 8 + c in
    let e : t / 2 ^ 16 ≡ a = omega arith in
    let f : t / 2 ^ 12 % 64 % 16 * 16 + t / 2 ^ 6 % 64 / 4 ≡ b = omega arith in
    let g : t / 2 ^ 6 % 64 % 4 * 64 + t % 64 ≡ c = omega arith in rw (e, f, g) refl

decode-encode :
    (acc : ℕ) (bytes : Bytes)
    → acc < 2 ^ 32
    → All IsByte bytes
    → decode_from acc 0 (encode_triples bytes) ≡ some bytes
unfolding encode_triples
decode-encode acc [] h k = ends acc 0
decode-encode acc (a ∷ []) h (ha, _) =
    two_chars acc (a * 2 ^ 16) [] h (omega arith)
    ∙ rw ends (ap (λ (x : ℕ). some (x ∷ [])) (omega arith))
decode-encode acc (a ∷ b ∷ []) h (ha, (hb, _)) =
    let t : ℕ = a * 2 ^ 16 + b * 2 ^ 8 in
    two_chars acc t (char_of (t / 2 ^ 6) ∷ []) h (omega arith)
    ∙ ap (decoded (t / 2 ^ 16)) (third_char _ _ (t / 2 ^ 6) [] (omega arith))
    ∙ rw ends (bytes_of_two a b ha hb)
decode-encode acc (a ∷ b ∷ c ∷ rest) h (ha, (hb, (hc, k))) =
    let t : ℕ = a * 2 ^ 16 + b * 2 ^ 8 + c in
    let tail = encode_triples rest in
    let first = shifted acc (t / 2 ^ 18 % 64) in
    let second = shifted first (t / 2 ^ 12 % 64) in
    let third = shifted second (t / 2 ^ 6 % 64) in
    let fourth = shifted third (t % 64) in
    two_chars acc t (char_of (t / 2 ^ 6) ∷ char_of t ∷ tail) h (omega arith)
    ∙ ap (decoded (t / 2 ^ 16))
        (third_char first (t / 2 ^ 12 % 64) (t / 2 ^ 6) (char_of t ∷ tail) (omega arith))
    ∙ ap (λ o. decoded (t / 2 ^ 16) (decoded (t / 2 ^ 12 % 64 % 16 * 16 + t / 2 ^ 6 % 64 / 4) o))
        (fourth_char second (t / 2 ^ 6 % 64) t tail (omega arith))
    ∙ rw (decode-encode fourth rest (shifted-lt third (t % 64) (omega arith)) k)
        (bytes_of_three a b c rest ha hb hc)

length-encode_triples : (bytes : Bytes) → length (encode_triples bytes) ≡ (4 * length bytes + 2) / 3
unfolding encode_triples
length-encode_triples [] = refl
length-encode_triples (a ∷ []) = refl
length-encode_triples (a ∷ b ∷ []) = refl
length-encode_triples (a ∷ b ∷ c ∷ rest) = omega (arith, length-encode_triples rest)

take-length : (bytes : Bytes) → take (length bytes) bytes ≡ bytes
take-length bytes = ap (take (length bytes)) (sym (append-nil bytes)) ∙ take-length_append bytes []

-- Below 2^32 bytes the cut of the size takes nothing away.
uncut : (bytes : Bytes) → length bytes < 2 ^ 32 → base64_url_encode bytes ≡ encode_triples bytes
unfolding base64_url_encode
uncut bytes h =
    let whole : length bytes % 2 ^ 32 ≡ length bytes = omega arith in
    rw (whole, take-length bytes) refl

-- Base64UrlDecode gives back every list of fewer than 2^32 bytes from the text of
-- Base64UrlEncode.
pub base64_url_decode-encode :
    (bytes : Bytes)
    → length bytes < 2 ^ 32
    → All IsByte bytes
    → base64_url_decode (base64_url_encode bytes) ≡ some bytes
unfolding base64_url_decode
base64_url_decode-encode bytes size h =
    rw (uncut bytes size) (decode-encode 0 bytes (omega arith) h)

pub length-base64_url_encode :
    (bytes : Bytes)
    → length bytes < 2 ^ 32
    → length (base64_url_encode bytes) ≡ (4 * length bytes + 2) / 3
length-base64_url_encode bytes size = rw (uncut bytes size) (length-encode_triples bytes)
