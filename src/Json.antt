-- ===== src/Json.antt =====
-- The values of include/gateway/validation/JsonParser.h and src/validation/JsonParser.cpp: JsonValue,
-- its accessors and Serialize. A JsonValue keeps only the field of its type; the getters give the
-- default where the type is another. Copies share their elements, which nothing changes.
pub mod Parser
pub mod Strings
pub mod Reading
pub mod RoundTrip
pub mod Total
mod Tests
use rest_api_gateway.Prelude.{
  ℕ, zero, suc, ◌+◌, ◌-◌, ◌/◌, ◌%◌, ◌^◌, Bool, true, false, not, ◌&&◌, ◌||◌, List, [], ◌∷◌, ◌++◌,
  Option, none, some, Bytes, codes, ◌=s=◌, ltb, leb, ◌==◌, if◌then◌else◌,
}
use rest_api_gateway.Prelude.Int.{ℤ, pos}
use rest_api_gateway.Decimal.{print_ℤ}
use rest_api_gateway.Runtime.{Double, Runtime}

-- Elements of an array and members of an object are lists of their own.
mutual
  pub data JsonValue : Type 0 where
    null : JsonValue
    boolean : Bool → JsonValue
    integer : ℤ → JsonValue
    float : Double → JsonValue
    string : Bytes → JsonValue
    array : Elements → JsonValue
    object : Members → JsonValue

  pub data Elements : Type 0 where
    no_elements : Elements
    element : JsonValue → Elements → Elements

  pub data Members : Type 0 where
    no_members : Members
    member : Bytes → JsonValue → Members → Members

abbrev pub is_array : JsonValue → Bool
is_array (array xs) = true
is_array _ = false

abbrev pub is_object : JsonValue → Bool
is_object (object ms) = true
is_object _ = false

abbrev pub get_boolean : JsonValue → Bool
get_boolean (boolean b) = b
get_boolean _ = false

abbrev pub get_integer : JsonValue → ℤ
get_integer (integer n) = n
get_integer _ = pos 0

abbrev pub get_string : JsonValue → Bytes
get_string (string s) = s
get_string _ = []

unfoldable pub count_elements : Elements → ℕ
count_elements no_elements = 0
count_elements (element v xs) = count_elements xs + 1

-- GetArraySize
unfoldable pub get_array_size : JsonValue → ℕ
unfolding count_elements
get_array_size (array xs) = count_elements xs % 2 ^ 32
get_array_size _ = 0

unfoldable pub element_at : Elements → ℕ → JsonValue
element_at no_elements i = null
element_at (element v xs) zero = v
element_at (element v xs) (suc i) = element_at xs i

-- GetArrayElement
unfoldable pub get_array_element : JsonValue → ℕ → JsonValue
unfolding element_at
get_array_element (array xs) i = element_at xs i
get_array_element _ i = null

-- HasMember
unfoldable pub has_key : Bytes → Members → Bool
has_key k no_members = false
has_key k (member j v ms) = if j =s= k then true else has_key k ms

abbrev pub has_member : JsonValue → Bytes → Bool
has_member (object ms) k = has_key k ms
has_member _ k = false

-- GetMember
unfoldable pub value_at : Bytes → Members → JsonValue
value_at k no_members = null
value_at k (member j v ms) = if j =s= k then v else value_at k ms

abbrev pub get_member : JsonValue → Bytes → JsonValue
get_member (object ms) k = value_at k ms
get_member _ k = null

-- SetMember, on an object.
unfoldable pub set_key : Bytes → JsonValue → Members → Members
set_key k v no_members = member k v no_members
set_key k v (member j w ms) = if j =s= k then member j v ms else member j w (set_key k v ms)

-- std::hex << std::setw(4) << std::setfill('0') of a byte below 0x20
abbrev pub hex_digit : ℕ → ℕ
hex_digit d = if ltb d 10 then b'0' + d else b'a' + (d - 10)

-- One character of SerializeString.
unfoldable pub escape : ℕ → Bytes
escape c =
    if c == b'"'
    then b'\\' ∷ b'"' ∷ []
    else if c == b'\\'
    then b'\\' ∷ b'\\' ∷ []
    else if c == 8
    then b'\\' ∷ b'b' ∷ []
    else if c == 12
    then b'\\' ∷ b'f' ∷ []
    else if c == 10
    then b'\\' ∷ b'n' ∷ []
    else if c == 13
    then b'\\' ∷ b'r' ∷ []
    else if c == 9
    then b'\\' ∷ b't' ∷ []
    else if ltb c 32
    then b'\\' ∷ b'u' ∷ b'0' ∷ b'0' ∷ hex_digit (c / 16) ∷ hex_digit (c % 16) ∷ []
    else c ∷ []

unfoldable pub escape_all : Bytes → Bytes
escape_all [] = []
escape_all (c ∷ s) = escape c ++ escape_all s

-- SerializeString
unfoldable pub serialize_string : Bytes → Bytes
serialize_string s = b'"' ∷ (escape_all s ++ b'"' ∷ [])

unfoldable pub has_point : Bytes → Bool
has_point [] = false
has_point (c ∷ s) = if c == b'.' || c == b'e' || c == b'E' then true else has_point s

abbrev pub float_text : Bytes → Bytes
float_text s = if has_point s then s else s ++ codes ".0"

-- Serialize
module _ (rt : Runtime) where
  unfoldable mutual
    pub serialize : JsonValue → Bytes
    serialize null = codes "null"
    serialize (boolean true) = codes "true"
    serialize (boolean false) = codes "false"
    serialize (integer n) = print_ℤ n
    serialize (float d) = float_text (rt.print_double d)
    serialize (string s) = serialize_string s
    serialize (array xs) = b'[' ∷ serialize_first_element xs
    serialize (object ms) = b'{' ∷ serialize_first_member ms

    pub serialize_first_element : Elements → Bytes
    serialize_first_element no_elements = b']' ∷ []
    serialize_first_element (element v xs) = serialize v ++ serialize_elements xs

    -- The elements behind the first.
    pub serialize_elements : Elements → Bytes
    serialize_elements no_elements = b']' ∷ []
    serialize_elements (element v xs) = b',' ∷ (serialize v ++ serialize_elements xs)

    pub serialize_first_member : Members → Bytes
    serialize_first_member no_members = b'}' ∷ []
    serialize_first_member (member k v ms) =
        serialize_string k ++ b':' ∷ (serialize v ++ serialize_members ms)

    pub serialize_members : Members → Bytes
    serialize_members no_members = b'}' ∷ []
    serialize_members (member k v ms) =
        b',' ∷ (serialize_string k ++ b':' ∷ (serialize v ++ serialize_members ms))
