-- ===== src/Json/Parser.antt =====
-- The values of JsonParser of src/validation/JsonParser.cpp: numbers, words, arrays, objects and the
-- dispatch on the first character. The position is the part of the input that is not yet read, which
-- is what the source's uint32_t says of inputs below `position_limit`; Parse gives nothing beyond.
mod Tokens
use rest_api_gateway.Prelude.{
  ℕ, zero, suc, ◌+◌, ◌-◌, ◌*◌, ◌^◌, Bool, true, false, not, ◌&&◌, ◌||◌, [], ◌∷◌, Option, none, some,
  Bytes, codes, ◌=s=◌, length, take, drop, ltb, leb, ◌==◌, if◌then◌else◌,
}
use rest_api_gateway.Prelude.Int.{ℤ}
use rest_api_gateway.Decimal.{is_digit, stoll}
use rest_api_gateway.Runtime.{Double, Runtime}
use rest_api_gateway.Json.{
  JsonValue, null, boolean, integer, float, string, array, object, Elements, no_elements, element,
  Members, no_members, set_key,
}
pub use rest_api_gateway.Json.Parser.Tokens.{
  Result, ◌>>=◌, is_blank, starts, push, push_code_point, skip_char, fraction_end, starts_exponent,
  exponent_end, is_float_number, ok, failed, threw, out_of_fuel,
}
unfoldable pub use rest_api_gateway.Json.Parser.Tokens.{
  skip_blanks, scan_hex, stoul_hex, utf8, read_escape, read_string, parse_string, skip_digits,
  integer_end, number_end,
}

module _ (rt : Runtime) where
  -- std::stod
  abbrev pub stod : Bytes → Option Double
  stod text =
      let (d, rest, out) = rt.strtod text in
      if ltb (length rest) (length text) && not out then some d else none

  abbrev pub float_result : Option Double → Bytes → Result (JsonValue × Bytes)
  float_result none rest = threw
  float_result (some d) rest = ok (float d, rest)

  abbrev pub integer_result : Option ℤ → Bytes → Result (JsonValue × Bytes)
  integer_result none rest = threw
  integer_result (some n) rest = ok (integer n, rest)

  -- ParseNumber
  unfoldable pub parse_number : Bytes → Result (JsonValue × Bytes)
  parse_number s =
      let rest = number_end s in
      let text = take (length s - length rest) s in
      if ltb 0 (length text)
      then (if is_float_number s
          then float_result (stod text) rest
          else integer_result (stoll text) rest)
      else failed (codes "Invalid number") rest

-- ParseNull and ParseBoolean
abbrev pub reads_word : Bytes → Bytes → Bool
reads_word word s = leb (length word) (length s) && take (length word) s =s= word

unfoldable pub parse_null : Bytes → Result (JsonValue × Bytes)
parse_null s =
    if reads_word (codes "null") s
    then ok (null, drop 4 s)
    else failed (codes "Invalid null value") s

unfoldable pub parse_boolean : Bytes → Result (JsonValue × Bytes)
parse_boolean s =
    if reads_word (codes "true") s
    then ok (boolean true, drop 4 s)
    else if reads_word (codes "false") s
    then ok (boolean false, drop 5 s)
    else failed (codes "Invalid boolean value") s

-- ParseStringValue
unfoldable pub parse_string_value : Bytes → Result (JsonValue × Bytes)
parse_string_value s = parse_string s >>= λ (text, rest). ok (string text, rest)

abbrev pub starts_number : Bytes → Bool
starts_number [] = false
starts_number (c ∷ s) = c == b'-' || is_digit c

abbrev pub is_end : Bytes → Bool
is_end [] = true
is_end (c ∷ s) = false

-- ParseArray, behind the bracket; `elements` is its loop.
unfoldable pub parse_array :
    (Bytes → Result (Elements × Bytes)) → Bytes → Result (JsonValue × Bytes)
parse_array elements s =
    if starts b']' (skip_blanks s)
    then ok (array no_elements, drop 1 (skip_blanks s))
    else elements (skip_blanks s) >>= λ (xs, rest). ok (array xs, rest)

-- ParseObject, behind the bracket.
unfoldable pub parse_object :
    (Members → Bytes → Result (Members × Bytes)) → Bytes → Result (JsonValue × Bytes)
parse_object members s =
    if starts b'}' (skip_blanks s)
    then ok (object no_members, drop 1 (skip_blanks s))
    else members no_members (skip_blanks s) >>= λ (ms, rest). ok (object ms, rest)

-- The loop of ParseArray behind an element.
unfoldable pub after_element :
    (Bytes → Result (Elements × Bytes)) → JsonValue → Bytes → Result (Elements × Bytes)
after_element more v s =
    if starts b',' s
    then (more (drop 1 s) >>= λ (xs, rest). ok (element v xs, rest))
    else if starts b']' s
    then ok (element v no_elements, drop 1 s)
    else failed (codes "Expected ',' or ']' in array") s

-- A round of it. The loop stops without an error at the end of the input.
unfoldable pub read_element :
    (Bytes → Result (JsonValue × Bytes))
    → (Bytes → Result (Elements × Bytes))
    → Bytes
    → Result (Elements × Bytes)
read_element value more s =
    if is_end s
    then ok (no_elements, [])
    else value (skip_blanks s) >>= λ (v, rest). after_element more v (skip_blanks rest)

-- The loop of ParseObject behind a member; the members so far are in `ms`.
unfoldable pub after_member :
    (Members → Bytes → Result (Members × Bytes)) → Members → Bytes → Result (Members × Bytes)
after_member more ms s =
    if starts b',' s
    then more ms (drop 1 s)
    else if starts b'}' s
    then ok (ms, drop 1 s)
    else failed (codes "Expected ',' or '}' in object") s

unfoldable pub after_key :
    (Bytes → Result (JsonValue × Bytes))
    → (Members → Bytes → Result (Members × Bytes))
    → Members
    → Bytes
    → Bytes
    → Result (Members × Bytes)
after_key value more ms k s =
    if starts b':' s
    then (value (skip_blanks (drop 1 s)) >>= λ (v, rest).
        after_member more (set_key k v ms) (skip_blanks rest))
    else failed (codes "Expected ':' after object key") s

unfoldable pub read_member :
    (Bytes → Result (JsonValue × Bytes))
    → (Members → Bytes → Result (Members × Bytes))
    → Members
    → Bytes
    → Result (Members × Bytes)
read_member value more ms s =
    if is_end s
    then ok (ms, [])
    else parse_string (skip_blanks s) >>= λ (k, rest). after_key value more ms k (skip_blanks rest)

-- ParseValue behind the blanks.
unfoldable pub dispatch :
    Runtime
    → (Bytes → Result (Elements × Bytes))
    → (Members → Bytes → Result (Members × Bytes))
    → Bytes
    → Result (JsonValue × Bytes)
dispatch rt elements members [] = failed (codes "Unexpected end of input") []
dispatch rt elements members (c ∷ s) =
    if c == b'n'
    then parse_null (c ∷ s)
    else if c == b't' || c == b'f'
    then parse_boolean (c ∷ s)
    else if starts_number (c ∷ s)
    then parse_number rt (c ∷ s)
    else if c == b'"'
    then parse_string_value (c ∷ s)
    else if c == b'['
    then parse_array elements s
    else if c == b'{'
    then parse_object members s
    else failed (codes "Unexpected character") (c ∷ s)

-- Sums of the position and five do not wrap around in shorter texts.
abbrev pub position_limit : ℕ
position_limit = 2 ^ 32 - 4

-- Each call costs a unit of fuel.
module _ (rt : Runtime) where
  unfoldable mutual
    pub parse_value : ℕ → Bytes → Result (JsonValue × Bytes)
    parse_value zero s = out_of_fuel
    parse_value (suc f) s = dispatch rt (parse_elements f) (parse_members f) (skip_blanks s)

    pub parse_elements : ℕ → Bytes → Result (Elements × Bytes)
    parse_elements zero s = out_of_fuel
    parse_elements (suc f) s = read_element (parse_value f) (parse_elements f) s

    pub parse_members : ℕ → Members → Bytes → Result (Members × Bytes)
    parse_members zero ms s = out_of_fuel
    parse_members (suc f) ms s = read_member (parse_value f) (parse_members f) ms s

  -- Parse; what follows the value is ignored. The position and the sums that look up to five
  -- characters ahead are uint32_t: below the limit none of them wraps around. A longer text has no
  -- result here.
  unfoldable pub parse : Bytes → Result JsonValue
  parse s =
      if ltb (length s) position_limit
      then (if is_end (skip_blanks s)
          then failed (codes "Empty input") []
          else parse_value (2 * length s + 1) (skip_blanks s) >>= λ (v, rest). ok v)
      else out_of_fuel
