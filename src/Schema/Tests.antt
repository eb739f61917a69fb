-- ===== src/Schema/Tests.antt =====
-- Schemas and decimal texts at concrete inputs, with a pattern that only texts equal to it match.
use rest_api_gateway.Prelude.{◌≡◌, ◌↔◌, refl, false, [], ◌∷◌, none, some, codes, arith, ◌=s=◌}
use rest_api_gateway.Prelude.Int.{pos, negsuc}
use rest_api_gateway.Decimal.{print_ℤ, stoll}
use rest_api_gateway.Decimal.Print.{stoll-print_ℤ}
use rest_api_gateway.Runtime.{Runtime}
use rest_api_gateway.Schema.{
  ParameterConstraints, validate_string_constraints, validate_integer_constraints, contains_value,
}
use rest_api_gateway.Schema.Checks.{
  StringFits, InRange, validate_string_constraints_iff, validate_integer-print_ℤ_iff,
}

abbrev plain_runtime : Runtime
plain_runtime = record {
  strtod = λ s. (0, s, false);
  double_lt = λ a b. false;
  double_inf = λ a. false;
  double_nan = λ a. false;
  print_double = λ a. [];
  to_string_double = λ a. [];
  regex_match = λ v p. some (v =s= p);
}

abbrev small : ParameterConstraints
small = record {
  min_value = some (negsuc 4);
  max_value = some (pos 10);
  float_min_value = none;
  float_max_value = none;
  min_length = some 1;
  max_length = some 3;
  regex_pattern = none;
  allowed_values = codes "red" ∷ codes "blue" ∷ [];
  min_array_items = none;
  max_array_items = none;
}

red_passes : validate_string_constraints plain_runtime (codes "red") small ≡ none
unfolding validate_string_constraints contains_value ◌=s=◌
red_passes = refl

pink_fails :
    validate_string_constraints plain_runtime (codes "pin") small
    ≡ some (codes "Value is not in the list of allowed values")
unfolding validate_string_constraints contains_value ◌=s=◌
pink_fails = refl

validate_string_constraints_iff_example :
    (validate_string_constraints plain_runtime (codes "red") small ≡ none)
    ↔ StringFits plain_runtime (codes "red") small
validate_string_constraints_iff_example =
    validate_string_constraints_iff plain_runtime (codes "red") small

validate_integer-print_ℤ_iff_example :
    (validate_integer_constraints (print_ℤ (negsuc 2)) small ≡ none) ↔ InRange (negsuc 2) small
validate_integer-print_ℤ_iff_example = validate_integer-print_ℤ_iff (negsuc 2) small (omega arith)

stoll-print_ℤ_example : stoll (print_ℤ (negsuc 41)) ≡ some (negsuc 41)
stoll-print_ℤ_example = stoll-print_ℤ (negsuc 41) (omega arith)
