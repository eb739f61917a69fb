-- ===== src/Json/RoundTrip/Steps.antt =====
-- The steps of the parser on the texts that Serialize writes.
use rest_api_gateway.Prelude.{
  ℕ, zero, suc, ◌+◌, ◌*◌, ◌<◌, ◌≤◌, ◌≡◌, refl, ap, ◌∙◌, Bool, true, false, [], ◌∷◌, ◌++◌,
  append_assoc, append-nil, subst, Bytes, codes, ◌=s=◌, length, length-append, leb, ◌==◌, arith,
}
use rest_api_gateway.Prelude.Int.{ℤ, pos, negsuc}
use rest_api_gateway.Decimal.{print_ℤ}
use rest_api_gateway.Decimal.Print.{IsInt64, print_ℕ_head}
use rest_api_gateway.Runtime.{Runtime}
use rest_api_gateway.Json.{
  JsonValue, null, boolean, integer, string, array, object, Elements, no_elements, element, Members,
  no_members, has_key, set_key, serialize, serialize_string,
}
use rest_api_gateway.Json.Parser.{
  Result, ok, skip_blanks, is_blank, starts_number, parse_null, parse_boolean, parse_string,
  parse_string_value, parse_number, parse_array, parse_object, read_element, after_element,
  read_member, after_member, after_key, dispatch, parse_value, parse_elements, parse_members,
}
use rest_api_gateway.Json.Strings.{parse_string-serialize_string}
use rest_api_gateway.Json.Reading.{Closes, parse_number-print_ℤ}
use rest_api_gateway.Json.RoundTrip.Plain.{
  StartsValue, skip_blanks_none, is_end_none, starts_bracket_none, AreApart,
}

module _ (rt : Runtime) where
  pub read_null : (f : ℕ) (s : Bytes) → parse_value rt (suc f) (codes "null" ++ s) ≡ ok (null, s)
  unfolding parse_value skip_blanks dispatch parse_null ◌=s=◌
  read_null f s =
      let enough : leb 4 (suc (suc (suc (suc (length s))))) ≡ true = ground arith in rw enough refl

  pub read_boolean :
      (b : Bool) (f : ℕ) (s : Bytes)
      → parse_value rt (suc f) (serialize rt (boolean b) ++ s) ≡ ok (boolean b, s)
  unfolding parse_value skip_blanks dispatch parse_boolean serialize ◌=s=◌
  read_boolean true f s =
      let enough : leb 4 (suc (suc (suc (suc (length s))))) ≡ true = ground arith in rw enough refl
  read_boolean false f s =
      let four : leb 4 (suc (suc (suc (suc (suc (length s)))))) ≡ true = ground arith in
      let five : leb 5 (suc (suc (suc (suc (suc (length s)))))) ≡ true = ground arith in
      rw (four, five) refl

  dispatch_number :
      (f c : ℕ) (s : Bytes)
      → starts_number (c ∷ s) ≡ true
      → parse_value rt (suc f) (c ∷ s) ≡ parse_number rt (c ∷ s)
  unfolding parse_value skip_blanks dispatch
  dispatch_number f c s h =
      let blank : is_blank c ≡ false = ground arith in
      let n : (c == b'n') ≡ false = ground arith in
      let t : (c == b't') ≡ false = ground arith in
      let f' : (c == b'f') ≡ false = ground arith in rw (blank, n, t, f', h) refl

  pub read_integer :
      (n : ℤ) (f : ℕ) (s : Bytes)
      → IsInt64 n
      → Closes s
      → parse_value rt (suc f) (print_ℤ n ++ s) ≡ ok (integer n, s)
  unfolding print_ℤ
  read_integer (pos n) f s range h =
      let (c, t, shape, digit) = print_ℕ_head n in
      let starting : starts_number (c ∷ (t ++ s)) ≡ true = ground arith in
      let read : parse_number rt (c ∷ (t ++ s)) ≡ ok (integer (pos n), s) =
        rw shape at (parse_number-print_ℤ rt (pos n) s range h) in
      rw shape (dispatch_number f c (t ++ s) starting ∙ read)
  read_integer (negsuc n) f s range h =
      dispatch_number f b'-' _ refl ∙ parse_number-print_ℤ rt (negsuc n) s range h

  dispatch_string :
      (f : ℕ) (s : Bytes) → parse_value rt (suc f) (b'"' ∷ s) ≡ parse_string_value (b'"' ∷ s)
  unfolding parse_value skip_blanks dispatch
  dispatch_string f s = refl

  string_value : (t s : Bytes) → parse_string_value (serialize_string t ++ s) ≡ ok (string t, s)
  unfolding parse_string_value
  string_value t s = rw (parse_string-serialize_string t s) refl

  pub read_string_value :
      (t : Bytes) (f : ℕ) (s : Bytes)
      → parse_value rt (suc f) (serialize_string t ++ s) ≡ ok (string t, s)
  unfolding serialize_string
  read_string_value t f s = dispatch_string f _ ∙ string_value t s

  pub dispatch_array :
      (f : ℕ) (s : Bytes) → parse_value rt (suc f) (b'[' ∷ s) ≡ parse_array (parse_elements rt f) s
  unfolding parse_value skip_blanks dispatch
  dispatch_array f s = refl

  pub dispatch_object :
      (f : ℕ) (s : Bytes) → parse_value rt (suc f) (b'{' ∷ s) ≡ parse_object (parse_members rt f) s
  unfolding parse_value skip_blanks dispatch
  dispatch_object f s = refl

module _ (elements : Bytes → Result (Elements × Bytes)) where
  pub array_empty : (s : Bytes) → parse_array elements (b']' ∷ s) ≡ ok (array no_elements, s)
  unfolding parse_array skip_blanks
  array_empty s = refl

  pub array_first :
      (u s : Bytes) (xs : Elements)
      → StartsValue u
      → elements u ≡ ok (xs, s)
      → parse_array elements u ≡ ok (array xs, s)
  unfolding parse_array
  array_first u s xs starting e =
      rw (skip_blanks_none u starting, starts_bracket_none u starting, e) refl

  pub after_last :
      (v : JsonValue) (s : Bytes)
      → after_element elements v (skip_blanks (b']' ∷ s)) ≡ ok (element v no_elements, s)
  unfolding after_element skip_blanks
  after_last v s = refl

  pub after_comma :
      (v : JsonValue) (u s : Bytes) (xs : Elements)
      → elements u ≡ ok (xs, s)
      → after_element elements v (skip_blanks (b',' ∷ u)) ≡ ok (element v xs, s)
  unfolding after_element skip_blanks
  after_comma v u s xs e = rw e refl

  pub read_element_value :
      (value : Bytes → Result (JsonValue × Bytes)) (u s : Bytes) (v : JsonValue)
      → StartsValue u
      → value u ≡ ok (v, s)
      → read_element value elements u ≡ after_element elements v (skip_blanks s)
  unfolding read_element
  read_element_value value u s v starting e =
      rw (is_end_none u starting, skip_blanks_none u starting, e) refl

module _ (members : Members → Bytes → Result (Members × Bytes)) where
  pub object_empty : (s : Bytes) → parse_object members (b'}' ∷ s) ≡ ok (object no_members, s)
  unfolding parse_object skip_blanks
  object_empty s = refl

  pub object_first :
      (k u t s : Bytes) (ms : Members)
      → members no_members ((serialize_string k ++ u) ++ t) ≡ ok (ms, s)
      → parse_object members ((serialize_string k ++ u) ++ t) ≡ ok (object ms, s)
  unfolding parse_object skip_blanks serialize_string
  object_first k u t s ms e = rw e refl

  pub after_last_member :
      (ms : Members) (s : Bytes) → after_member members ms (skip_blanks (b'}' ∷ s)) ≡ ok (ms, s)
  unfolding after_member skip_blanks
  after_last_member ms s = refl

  pub after_member_comma :
      (ms : Members) (u : Bytes) → after_member members ms (skip_blanks (b',' ∷ u)) ≡ members ms u
  unfolding after_member skip_blanks
  after_member_comma ms u = refl

  pub read_member_value :
      (value : Bytes → Result (JsonValue × Bytes)) (ms : Members) (k u s : Bytes) (v : JsonValue)
      → StartsValue u
      → value u ≡ ok (v, s)
      → read_member value members ms (serialize_string k ++ b':' ∷ u)
        ≡ after_member members (set_key k v ms) (skip_blanks s)
  unfolding read_member after_key skip_blanks serialize_string
  read_member_value value ms k u s v starting e =
      let key : parse_string (serialize_string k ++ b':' ∷ u) ≡ ok (k, b':' ∷ u) =
        parse_string-serialize_string k (b':' ∷ u) in
      rw (key, skip_blanks_none u starting, e) refl

pub no_keys : (ms : Members) → AreApart no_members ms
unfolding has_key
no_keys ms k h = let false_true : false ≡ true = h in cc

pub length-append_bytes : (s t : Bytes) → length (s ++ t) ≡ length s + length t
length-append_bytes = length-append

pub ruleset lengths = (arith, length-append_bytes)

module _ (rt : Runtime) where
  pub parse_elements-suc :
      (f : ℕ) (s : Bytes)
      → parse_elements rt (suc f) s ≡ read_element (parse_value rt f) (parse_elements rt f) s
  unfolding parse_elements
  parse_elements-suc f s = refl

  pub parse_members-suc :
      (f : ℕ) (ms : Members) (s : Bytes)
      → parse_members rt (suc f) ms s ≡ read_member (parse_value rt f) (parse_members rt f) ms s
  unfolding parse_members
  parse_members-suc f ms s = refl
