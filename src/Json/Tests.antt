-- ===== src/Json/Tests.antt =====
-- Texts and values at concrete inputs.
use rest_api_gateway.Prelude.{
  ◌≡◌, ◌≢◌, refl, true, [], ◌∷◌, ◌++◌, ◌<◌, length, Bytes, codes, ◌=s=◌, arith,
}
use rest_api_gateway.Prelude.Int.{pos, negsuc}
use rest_api_gateway.Decimal.{
  print_ℤ, print_ℕ, stoll, strtoll, skip_space, scan_digits, clamp_int64,
}
use rest_api_gateway.Runtime.{no_runtime}
use rest_api_gateway.Url.{hex_value}
use rest_api_gateway.Json.RoundTrip.Plain.{IsPlain, HasDistinctKeys}
use rest_api_gateway.Json.RoundTrip.Values.{parse-serialize}
use rest_api_gateway.Json.Total.Parse.{parse-ne-out_of_fuel}
use rest_api_gateway.Json.{
  JsonValue, null, boolean, integer, string, array, object, no_elements, element, no_members,
  member, set_key, has_key, serialize, serialize_string, escape_all, escape,
}
use rest_api_gateway.Json.Parser.{
  ok, position_limit, threw, out_of_fuel, parse, parse_value, dispatch, parse_array, parse_object,
  read_element, read_member, after_element, after_member, after_key, parse_string, read_string,
  read_escape, parse_number, integer_end, number_end, skip_digits, skip_blanks, parse_boolean,
  parse_string_value, stoul_hex, scan_hex, utf8,
}

abbrev quote : Bytes → Bytes
quote s = b'"' ∷ (s ++ b'"' ∷ [])

abbrev sample : JsonValue
sample = object (
    member (codes "a") (array (element (integer (negsuc 6)) (element null no_elements)))
      (member (codes "b") (string (10 ∷ 7 ∷ [])) no_members))

sample_text :
    serialize no_runtime sample
    ≡ b'{'
      ∷ (quote (codes "a")
          ++ (codes ":[-7,null],"
              ++ (quote (codes "b")
                  ++ (b':' ∷ quote (b'\\' ∷ b'n' ∷ b'\\' ∷ codes "u0007") ++ codes "}"))))
unfolding serialize serialize_string escape_all escape print_ℤ print_ℕ
sample_text = refl

spaced :
    parse no_runtime (codes " { " ++ (quote (codes "a") ++ codes " : [ 1 , true ] } trailing"))
    ≡ ok (
        object (
          member
            (codes "a")
            (array (element (integer (pos 1)) (element (boolean true) no_elements)))
            no_members))
unfolding parse parse_value dispatch parse_object read_member parse_string read_string after_key
    after_member set_key parse_array read_element after_element parse_number integer_end number_end
    skip_digits skip_blanks parse_boolean stoll strtoll skip_space scan_digits clamp_int64 ◌=s=◌
spaced = refl

truncated : parse no_runtime (codes "[1,") ≡ ok (array (element (integer (pos 1)) no_elements))
unfolding parse parse_value dispatch parse_array read_element after_element parse_number integer_end
    number_end skip_digits skip_blanks stoll strtoll skip_space scan_digits clamp_int64
truncated = refl

lone_minus : parse no_runtime (codes "-") ≡ threw
unfolding parse parse_value dispatch parse_number integer_end number_end skip_digits skip_blanks
    stoll strtoll skip_space
lone_minus = refl

sloppy_escape :
    parse no_runtime (quote (b'\\' ∷ codes "u-001")) ≡ ok (string (239 ∷ 191 ∷ 191 ∷ []))
unfolding parse parse_value dispatch parse_string_value parse_string read_string read_escape
    skip_blanks stoul_hex scan_hex skip_space hex_value utf8
sloppy_escape = refl

sample-IsPlain : IsPlain sample
unfolding IsPlain HasDistinctKeys has_key ◌=s=◌
sample-IsPlain = ((refl, (refl, tt)), ((omega arith, (tt, tt)), (tt, tt)))

sample_short : length (serialize no_runtime sample) < position_limit
sample_short = rw sample_text (omega arith)

parse-serialize_example : parse no_runtime (serialize no_runtime sample) ≡ ok sample
parse-serialize_example = parse-serialize no_runtime sample sample-IsPlain sample_short

parse-ne-out_of_fuel_example : parse no_runtime (codes "[[1,") ≢ out_of_fuel
parse-ne-out_of_fuel_example = parse-ne-out_of_fuel no_runtime (codes "[[1,") (omega arith)
