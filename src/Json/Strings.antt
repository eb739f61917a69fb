-- ===== src/Json/Strings.antt =====
-- A text that SerializeString wrote is read back by ParseString.
use rest_api_gateway.Prelude.{
  ℕ, suc, ◌+◌, ◌*◌, ◌/◌, ◌%◌, ◌^◌, ◌<◌, ◌≡◌, refl, ap, ◌∙◌, true, false, [], ◌∷◌, ◌++◌, some, Bytes,
  length, ltb, leb, ◌==◌, if◌then◌else◌, arith, Bool-cases, inl, inr, append_assoc,
}
use rest_api_gateway.Decimal.{skip_space}
use rest_api_gateway.Url.{hex_value}
use rest_api_gateway.Json.{hex_digit, escape, escape_all, serialize_string}
use rest_api_gateway.Json.Parser.{
  ok, push, stoul_hex, scan_hex, utf8, read_escape, read_string, parse_string,
}

hex_value-hex_digit : (d : ℕ) → d < 16 → hex_value (hex_digit d) ≡ some d
unfolding hex_value
hex_value-hex_digit d h = ground arith

scan_hex_digit :
    (acc c d : ℕ) (s : Bytes)
    → hex_value c ≡ some d
    → scan_hex acc (c ∷ s) ≡ scan_hex (acc * 16 + d) s
unfolding scan_hex
scan_hex_digit acc c d s e = rw (e, scan_hex) refl

scan_hex_end : (acc : ℕ) → scan_hex acc [] ≡ acc
unfolding scan_hex
scan_hex_end acc = refl

scan_hex_zero : (s : Bytes) → scan_hex 0 (b'0' ∷ s) ≡ scan_hex 0 s
unfolding scan_hex hex_value
scan_hex_zero s = refl

scan_hex-control :
    (c : ℕ) → c < 32 → scan_hex 0 (b'0' ∷ b'0' ∷ hex_digit (c / 16) ∷ hex_digit (c % 16) ∷ []) ≡ c
scan_hex-control c h =
    let high = hex_value-hex_digit (c / 16) (omega arith) in
    let low = hex_value-hex_digit (c % 16) (omega arith) in
    scan_hex_zero _
    ∙ scan_hex_zero _
    ∙ scan_hex_digit 0 _ _ _ high
    ∙ scan_hex_digit (0 * 16 + c / 16) _ _ _ low
    ∙ scan_hex_end _
    ∙ omega arith

stoul_hex-control :
    (c : ℕ)
    → c < 32
    → stoul_hex (b'0' ∷ b'0' ∷ hex_digit (c / 16) ∷ hex_digit (c % 16) ∷ []) ≡ some c
unfolding stoul_hex skip_space hex_value
stoul_hex-control c h = ap some (scan_hex-control c h)

-- A control character, from its four digits.
read_control :
    (c : ℕ) (s : Bytes)
    → c < 32
    → read_string (b'\\' ∷ b'u' ∷ b'0' ∷ b'0' ∷ hex_digit (c / 16) ∷ hex_digit (c % 16) ∷ s) 0
      ≡ push (c ∷ []) (read_string s 0)
unfolding read_string read_escape utf8
read_control c s h =
    let same : c % 2 ^ 32 ≡ c = omega arith in
    let small : ltb c 0x80 ≡ true = ground arith in
    let enough : leb 4 (suc (suc (suc (suc (length s))))) ≡ true = ground arith in
    rw (enough, stoul_hex-control c h, same, small) refl

-- A text that the loop reads as one character.
abbrev pub Reads : ℕ → Bytes → Type 0
Reads c text = (s : Bytes) → read_string (text ++ s) 0 ≡ push (c ∷ []) (read_string s 0)

pub Reads-if :
    (c k : ℕ) (text text_otherwise : Bytes)
    → Reads k text
    → ((c == k) ≡ false → Reads c text_otherwise)
    → Reads c (if c == k then text else text_otherwise)
Reads-if c k text text_otherwise same differs = elim (Bool-cases (c == k)) [
  | inl same_char ↦ let e : c ≡ k = ground arith in rw same_char (rw e same)
  | inr other ↦ rw other (differs other)
]

pub Reads-plain : (c : ℕ) → (c == b'"') ≡ false → (c == b'\\') ≡ false → Reads c (c ∷ [])
unfolding read_string
Reads-plain c quote slash s = rw (quote, slash) refl

Reads-control :
    (c : ℕ)
    → (c == b'"') ≡ false
    → (c == b'\\') ≡ false
    → Reads c (
        if ltb c 32
        then b'\\' ∷ b'u' ∷ b'0' ∷ b'0' ∷ hex_digit (c / 16) ∷ hex_digit (c % 16) ∷ []
        else c ∷ [])
Reads-control c quote slash = elim (Bool-cases (ltb c 32)) [
  | inl same_char ↦ rw same_char (λ s. read_control c s (ground arith))
  | inr other ↦ rw other (Reads-plain c quote slash)
]

pub read_letters :
    Reads b'"' (b'\\' ∷ b'"' ∷ [])
    × Reads b'\\' (b'\\' ∷ b'\\' ∷ [])
    × Reads 8 (b'\\' ∷ b'b' ∷ [])
    × Reads 12 (b'\\' ∷ b'f' ∷ [])
    × Reads 10 (b'\\' ∷ b'n' ∷ [])
    × Reads 13 (b'\\' ∷ b'r' ∷ [])
    × Reads 9 (b'\\' ∷ b't' ∷ [])
unfolding read_string read_escape
read_letters = (λ s. refl, λ s. refl, λ s. refl, λ s. refl, λ s. refl, λ s. refl, λ s. refl)

read_string-escape : (c : ℕ) → Reads c (escape c)
unfolding escape
read_string-escape c =
    let (quote, slash, b, f, n, r, t) = read_letters in
    Reads-if c b'"' _ _ quote λ no_quote. Reads-if c b'\\' _ _ slash λ no_slash.
      Reads-if c 8 _ _ b λ _. Reads-if c 12 _ _ f λ _.
        Reads-if c 10 _ _ n
          λ _. Reads-if c 13 _ _ r λ _. Reads-if c 9 _ _ t λ _. Reads-control c no_quote no_slash

pub read_string_end : (s : Bytes) → read_string (b'"' ∷ s) 0 ≡ ok ([], s)
unfolding read_string
read_string_end s = refl

read_string-escape_all : (t s : Bytes) → read_string (escape_all t ++ b'"' ∷ s) 0 ≡ ok (t, s)
unfolding escape_all
read_string-escape_all [] s = read_string_end s
read_string-escape_all (c ∷ t) s =
    rw (append_assoc, read_string-escape c, read_string-escape_all t s) refl

pub parse_string-serialize_string :
    (t s : Bytes) → parse_string (serialize_string t ++ s) ≡ ok (t, s)
unfolding parse_string serialize_string
parse_string-serialize_string t s = rw append_assoc (read_string-escape_all t s)
