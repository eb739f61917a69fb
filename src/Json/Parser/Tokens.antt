-- ===== src/Json/Parser/Tokens.antt =====
-- The tokens of JsonParser of src/validation/JsonParser.cpp: blanks, strings and the extent of a
-- number. The position is the part of the input that is not yet read, for inputs below the limit of
-- Parse.
use rest_api_gateway.Prelude.{
  ℕ, zero, suc, ◌+◌, ◌-◌, ◌*◌, ◌/◌, ◌%◌, ◌^◌, Bool, true, false, ◌&&◌, ◌||◌, [], ◌∷◌, ◌++◌, Option,
  none, some, Bytes, codes, length, take, drop, ltb, leb, ◌==◌, if◌then◌else◌,
}
use rest_api_gateway.Decimal.{is_digit, skip_space}
use rest_api_gateway.Url.{hex_value}

-- `failed` holds the message of SetError and what was not read at its position; `threw` is an
-- exception of std::stoll, std::stod or std::stoul. `out_of_fuel` says that the model has no result: the fuel is used up, or the text is too
-- long for the 32-bit position.
pub data Result {ℓ} (A : Type ℓ) : Type ℓ where
  ok : A → Result A
  failed : Bytes → Bytes → Result A
  threw out_of_fuel : Result A

infixl 5 ◌>>=◌
abbrev pub ◌>>=◌ {ℓ κ} : {A : Type ℓ} {B : Type κ} → Result A → (A → Result B) → Result B
ok a >>= f = f a
failed m s >>= f = failed m s
threw >>= f = threw
out_of_fuel >>= f = out_of_fuel

-- SkipWhitespace
abbrev pub is_blank : ℕ → Bool
is_blank c = c == b' ' || c == 9 || c == 10 || c == 13

unfoldable pub skip_blanks : Bytes → Bytes
skip_blanks [] = []
skip_blanks (c ∷ s) = if is_blank c then skip_blanks s else c ∷ s

-- HasMore and a test of CurrentChar.
abbrev pub starts : ℕ → Bytes → Bool
starts c [] = false
starts c (d ∷ s) = d == c

-- std::stoul in base 16: it skips spaces, takes a sign, and a prefix 0x before a digit.
unfoldable pub scan_hex : ℕ → Bytes → ℕ
scan_hex acc [] = acc
scan_hex acc (c ∷ s) = elim (hex_value c) [ none ↦ acc | some d ↦ scan_hex (acc * 16 + d) s ]

abbrev is_hex : Bytes → Bool
is_hex [] = false
is_hex (c ∷ s) = elim (hex_value c) [ none ↦ false | some d ↦ true ]

abbrev drop_prefix : Bytes → Bytes
drop_prefix (z ∷ x ∷ s) = if z == b'0' && (x == b'x' || x == b'X') && is_hex s then s else z ∷ x ∷ s
drop_prefix s = s

abbrev stoul_hex_digits : Bool → Bytes → Option ℕ
stoul_hex_digits negative s =
    if is_hex s
    then some (
        if negative
        then (2 ^ 64 - scan_hex 0 (drop_prefix s)) % 2 ^ 64
        else scan_hex 0 (drop_prefix s))
    else none

abbrev stoul_hex_sign : Bytes → Option ℕ
stoul_hex_sign [] = none
stoul_hex_sign (c ∷ s) =
    if c == b'-'
    then stoul_hex_digits true s
    else if c == b'+'
    then stoul_hex_digits false s
    else stoul_hex_digits false (c ∷ s)

-- Of at most four characters.
unfoldable pub stoul_hex : Bytes → Option ℕ
stoul_hex s = stoul_hex_sign (skip_space s)

-- The UTF-8 bytes that the parser writes for a code point.
unfoldable pub utf8 : ℕ → Bytes
utf8 cp =
    if ltb cp 0x80
    then cp ∷ []
    else if ltb cp 0x800
    then (0xC0 + cp / 64 % 32) ∷ (0x80 + cp % 64) ∷ []
    else (0xE0 + cp / 4096 % 16) ∷ (0x80 + cp / 64 % 64) ∷ (0x80 + cp % 64) ∷ []

abbrev pub push : Bytes → Result (Bytes × Bytes) → Result (Bytes × Bytes)
push text (ok (s, rest)) = ok (text ++ s, rest)
push text (failed m at) = failed m at
push text threw = threw
push text out_of_fuel = out_of_fuel

abbrev pub push_code_point : Option ℕ → Result (Bytes × Bytes) → Result (Bytes × Bytes)
push_code_point none next = threw
push_code_point (some n) next = push (utf8 (n % 2 ^ 32)) next

-- An escape, from the character behind the backslash; `next k` reads on behind k characters.
unfoldable pub read_escape : Bytes → (ℕ → Result (Bytes × Bytes)) → Result (Bytes × Bytes)
read_escape [] next = failed (codes "Unexpected end of string") []
read_escape (e ∷ s) next =
    if e == b'"' || e == b'\\' || e == b'/'
    then push (e ∷ []) (next 1)
    else if e == b'b'
    then push (8 ∷ []) (next 1)
    else if e == b'f'
    then push (12 ∷ []) (next 1)
    else if e == b'n'
    then push (10 ∷ []) (next 1)
    else if e == b'r'
    then push (13 ∷ []) (next 1)
    else if e == b't'
    then push (9 ∷ []) (next 1)
    else if e == b'u'
    then (if leb 4 (length s)
        then push_code_point (stoul_hex (take 4 s)) (next 5)
        else failed (codes "Invalid unicode escape") (e ∷ s))
    else failed (codes "Invalid escape character") (e ∷ s)

-- The loop of ParseString behind the opening quote, once it has skipped some characters.
unfoldable pub read_string : Bytes → ℕ → Result (Bytes × Bytes)
read_string [] skip = failed (codes "Unterminated string") []
read_string (c ∷ s) (suc skip) = read_string s skip
read_string (c ∷ s) zero =
    let plain = push (c ∷ []) (read_string s 0) in
    if c == b'"' then ok ([], s) else if c == b'\\' then read_escape s (read_string s) else plain

-- ParseString
unfoldable pub parse_string : Bytes → Result (Bytes × Bytes)
parse_string [] = failed (codes "Expected string") []
parse_string (c ∷ s) =
    if c == b'"' then read_string s 0 else failed (codes "Expected string") (c ∷ s)

unfoldable pub skip_digits : Bytes → Bytes
skip_digits [] = []
skip_digits (c ∷ s) = if is_digit c then skip_digits s else c ∷ s

abbrev pub skip_char : (ℕ → Bool) → Bytes → Bytes
skip_char p [] = []
skip_char p (c ∷ s) = if p c then s else c ∷ s

abbrev pub fraction_end : Bytes → Bytes
fraction_end s = if starts b'.' s then skip_digits (drop 1 s) else s

abbrev pub starts_exponent : Bytes → Bool
starts_exponent s = starts b'e' s || starts b'E' s

abbrev pub exponent_end : Bytes → Bytes
exponent_end s =
    if starts_exponent s
    then skip_digits (skip_char (λ c. c == b'+' || c == b'-') (drop 1 s))
    else s

-- What follows the integer part, and what follows the whole number.
unfoldable pub integer_end : Bytes → Bytes
integer_end s = skip_digits (skip_char (λ c. c == b'-') s)

unfoldable pub number_end : Bytes → Bytes
number_end s = exponent_end (fraction_end (integer_end s))

abbrev pub is_float_number : Bytes → Bool
is_float_number s = starts b'.' (integer_end s) || starts_exponent (fraction_end (integer_end s))
