-- ===== src/Base64.antt =====
-- Base64UrlEncode and Base64UrlDecode, at the end of src/auth/AesGcm.cpp. The bits that `|` joins
-- are disjoint, so it is a sum here.
pub mod Alphabet
pub mod RoundTrip
pub mod Aliases
mod Tests
use rest_api_gateway.Prelude.{
  ℕ, zero, suc, ◌+◌, ◌-◌, ◌*◌, ◌/◌, ◌%◌, ◌^◌, Bool, true, false, ◌&&◌, ◌||◌, List, [], ◌∷◌, ◌++◌,
  Option, none, some, Bytes, codes, get_or, length, take, ltb, leb, ◌==◌, if◌then◌else◌,
}

abbrev pub base64_url_chars : Bytes
base64_url_chars = codes "ABCDEFGHIJKLMNOPQRSTUVWXYZabcdefghijklmnopqrstuvwxyz0123456789-_"

-- The character of the low six bits.
unfoldable pub char_of : ℕ → ℕ
char_of v = get_or base64_url_chars (v % 64) 0

-- One round of the encoder for each three bytes; the last takes what is left.
unfoldable pub encode_triples : Bytes → Bytes
encode_triples [] = []
encode_triples (a ∷ []) =
    let triple = a * 2 ^ 16 in char_of (triple / 2 ^ 18) ∷ char_of (triple / 2 ^ 12) ∷ []
encode_triples (a ∷ b ∷ []) =
    let triple = a * 2 ^ 16 + b * 2 ^ 8 in
    char_of (triple / 2 ^ 18) ∷ char_of (triple / 2 ^ 12) ∷ char_of (triple / 2 ^ 6) ∷ []
encode_triples (a ∷ b ∷ c ∷ rest) =
    let triple = a * 2 ^ 16 + b * 2 ^ 8 + c in
    char_of (triple / 2 ^ 18)
    ∷ char_of (triple / 2 ^ 12)
    ∷ char_of (triple / 2 ^ 6)
    ∷ char_of triple
    ∷ encode_triples rest

-- The size is cut to 32 bits; the index, which steps by three, does not wrap below such a size.
unfoldable pub base64_url_encode : Bytes → Bytes
unfolding encode_triples char_of
base64_url_encode bytes = encode_triples (take (length bytes % 2 ^ 32) bytes)

-- Where a character stands in the alphabet.
unfoldable pub index_of : ℕ → Bytes → ℕ → Option ℕ
index_of c [] i = none
index_of c (d ∷ chars) i = if d == c then some i else index_of c chars (i + 1)

-- The lookup table, with '+' and '/' of the standard alphabet; `none` is -1.
unfoldable pub value_of : ℕ → Option ℕ
value_of c =
    if c == b'+' then some 62 else if c == b'/' then some 63 else index_of c base64_url_chars 0

-- The decoder between two characters: the 32-bit accumulator and the count of its bits not yet
-- written.
abbrev pub shifted : ℕ → ℕ → ℕ
shifted accumulator v = accumulator * 64 % 2 ^ 32 + v

abbrev decoded : ℕ → Option Bytes → Option Bytes
decoded b none = none
decoded b (some rest) = some (b ∷ rest)

-- `none` is the result false.
unfoldable pub decode_from : ℕ → ℕ → Bytes → Option Bytes
decode_from accumulator bits [] = some []
decode_from accumulator bits (c ∷ s) = elim (c == b'=') [
  | true ↦ some []
  | false ↦ elim (value_of c) [
    | none ↦ none
    | some v ↦
        let next = shifted accumulator v in
        let full = leb 8 (bits + 6) in
        let left = if full then bits + 6 - 8 else bits + 6 in
        let rest = decode_from next left s in
        if full then decoded (next / 2 ^ left % 256) rest else rest
  ]
]

unfoldable pub base64_url_decode : Bytes → Option Bytes
unfolding decode_from value_of index_of
base64_url_decode s = decode_from 0 0 s
