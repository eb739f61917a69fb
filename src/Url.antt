-- ===== src/Url.antt =====
-- UrlDecode and ParseQueryString of src/transport/HttpParser.cpp. A result `none` is an exception
-- of std::stoi, which the parser does not catch.
pub mod Decoding
mod Tests
use rest_api_gateway.Prelude.{
  ℕ, ◌+◌, ◌-◌, ◌*◌, ◌%◌, Bool, true, false, ◌&&◌, ◌||◌, List, [], ◌∷◌, ◌++◌, Option, none, some,
  Bytes, ltb, leb, ◌==◌, if◌then◌else◌,
}
use rest_api_gateway.Prelude.Map.{insert}
use rest_api_gateway.Decimal.{is_space}

unfoldable pub hex_value : ℕ → Option ℕ
hex_value c =
    if leb b'0' c && leb c b'9'
    then some (c - b'0')
    else if leb b'a' c && leb c b'f'
    then some (c - b'a' + 10)
    else if leb b'A' c && leb c b'F'
    then some (c - b'A' + 10)
    else none

-- std::stoi in base 16 of one character, with its sign.
abbrev stoi_one : Bool → Option ℕ → Option ℕ
stoi_one negative none = none
stoi_one false (some d) = some d
stoi_one true (some d) = some ((256 - d) % 256)

abbrev stoi_digits : ℕ → Option ℕ → Option ℕ → Option ℕ
stoi_digits c none low =
    if is_space c || c == b'+'
    then stoi_one false low
    else if c == b'-'
    then stoi_one true low
    else none
stoi_digits c (some high) none = some high
stoi_digits c (some high) (some low) = some (high * 16 + low)

-- static_cast<char>(std::stoi(szHex, nullptr, 16)) for two characters: it skips a space, takes a
-- sign, and stops at the first character that is no digit.
unfoldable pub stoi_hex : ℕ → ℕ → Option ℕ
stoi_hex c d = stoi_digits c (hex_value c) (hex_value d)

abbrev pub push_char : Option ℕ → Option Bytes → Option Bytes
push_char none rest = none
push_char (some c) none = none
push_char (some c) (some rest) = some (c ∷ rest)

abbrev pub plus_space : ℕ → ℕ
plus_space c = if c == b'+' then b' ' else c

-- UrlDecode
unfoldable pub url_decode : Bytes → Option Bytes
url_decode [] = some []
url_decode (c ∷ []) = some (plus_space c ∷ [])
url_decode (c ∷ d ∷ []) = some (plus_space c ∷ plus_space d ∷ [])
url_decode (c ∷ h ∷ l ∷ s) =
    let behind = url_decode s in
    let next = url_decode (h ∷ l ∷ s) in
    if c == b'%' then push_char (stoi_hex h l) behind else push_char (some (plus_space c)) next

-- What find gives for one character: the text before it and the text behind it.
abbrev pub before : ℕ → Option (Bytes × Bytes) → Option (Bytes × Bytes)
before c none = none
before c (some (a, b)) = some (c ∷ a, b)

unfoldable pub split_at : ℕ → Bytes → Option (Bytes × Bytes)
split_at c [] = none
split_at c (d ∷ s) = let rest = split_at c s in if d == c then some ([], s) else before d rest

abbrev pub Query : Type 0
Query = List (Bytes × Bytes)

abbrev insert_decoded : Option Bytes → Option Bytes → Query → Option Query
insert_decoded none v params = none
insert_decoded (some k) none params = none
insert_decoded (some k) (some v) params = some (insert k v params)

abbrev add_split : Bytes → Option (Bytes × Bytes) → Query → Option Query
add_split pair none params = insert_decoded (url_decode pair) (some []) params
add_split pair (some (k, v)) params = insert_decoded (url_decode k) (url_decode v) params

-- The body of the loop of ParseQueryString, for one pair.
unfoldable pub add_pair : Bytes → Query → Option Query
add_pair [] params = some params
add_pair (c ∷ s) params = add_split (c ∷ s) (split_at b'=' (c ∷ s)) params

-- The loop, which cuts the text at '&'; `pair` is the part before the next '&' read so far.
abbrev pub then_query : Option Query → (Query → Option Query) → Option Query
then_query none next = none
then_query (some params) next = next params

unfoldable pub parse_pairs : Bytes → Bytes → Query → Option Query
parse_pairs pair [] params = add_pair pair params
parse_pairs pair (c ∷ s) params =
    let closed = λ (params' : Query). parse_pairs [] s params' in
    let longer = parse_pairs (pair ++ c ∷ []) s params in
    if c == b'&' then then_query (add_pair pair params) closed else longer

-- ParseQueryString
unfoldable pub parse_query_string : Bytes → Query → Option Query
parse_query_string s params = parse_pairs [] s params
