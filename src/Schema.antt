-- ===== src/Schema.antt =====
-- include/gateway/routing/ParameterSchema.h and src/routing/ParameterSchema.cpp; the reading
-- of a schema out of JSON is in Reader. A check returns `none` for the result true, and the error message for
-- false. What the C library does with doubles and std::regex with patterns is the
-- parameter `Runtime`.
pub mod Checks
pub mod Reader
mod Tests
use rest_api_gateway.Prelude.{
  ℕ, ◌+◌, Bool, true, false, not, ◌&&◌, ◌||◌, List, [], ◌∷◌, ◌++◌, Option, none, some, Bytes, codes,
  ◌=s=◌, length, ltb, leb, ◌==◌, if◌then◌else◌, or_else,
}
use rest_api_gateway.Runtime.{Double, Runtime}
use rest_api_gateway.Prelude.Int.{ℤ, ltb_ℤ}
use rest_api_gateway.Decimal.{print_ℕ, print_ℤ, Converted, no_conversion, converted, strtoll}

pub data ParameterType : Type 0 where
  string integer float boolean object array : ParameterType

pub data ParameterLocation : Type 0 where
  path query header body : ParameterLocation

pub record ParameterConstraints : Type 0 where
  pub min_value : Option ℤ
  pub max_value : Option ℤ
  pub float_min_value : Option Double
  pub float_max_value : Option Double
  pub min_length : Option ℕ
  pub max_length : Option ℕ
  pub regex_pattern : Option Bytes
  pub allowed_values : List Bytes
  pub min_array_items : Option ℕ
  pub max_array_items : Option ℕ

pub record ParameterSchema : Type 0 where
  pub name : Bytes
  pub parameter_type : ParameterType
  pub location : ParameterLocation
  pub is_required : Bool
  pub description : Bytes
  pub default_value : Bytes
  pub constraints : ParameterConstraints

unfoldable pub is_valid_schema : ParameterSchema → Bool
is_valid_schema s = not (s.name =s= [])

-- A check that runs where its bound is given.
abbrev pub when_given {ℓ} : {A : Type ℓ} → Option A → (A → Option Bytes) → Option Bytes
when_given none check = none
when_given (some a) check = check a

abbrev pub fail_if : Bool → Bytes → Option Bytes
fail_if true message = some message
fail_if false message = none

unfoldable pub contains_value : Bytes → List Bytes → Bool
contains_value v [] = false
contains_value v (a ∷ allowed) = if v =s= a then true else contains_value v allowed

abbrev match_message : Option Bool → Option Bytes
match_message none = some (codes "Invalid regex pattern in schema")
match_message (some true) = none
match_message (some false) = some (codes "String does not match required pattern")

abbrev pub is_empty {ℓ} : {A : Type ℓ} → List A → Bool
is_empty [] = true
is_empty (x ∷ xs) = false

-- The tests stop at the first that fails.
unfoldable pub validate_string_constraints : Runtime → Bytes → ParameterConstraints → Option Bytes
validate_string_constraints rt v c =
    or_else
      (when_given c.min_length λ m. fail_if (ltb (length v) m) (
        codes "String length "
        ++ (print_ℕ (length v) ++ (codes " is below minimum " ++ print_ℕ m))))
      (or_else
        (when_given c.max_length λ m. fail_if (ltb m (length v)) (
          codes "String length "
          ++ (print_ℕ (length v) ++ (codes " exceeds maximum " ++ print_ℕ m))))
        (or_else (when_given c.regex_pattern λ p. match_message (rt.regex_match v p)) (
          fail_if (not (is_empty c.allowed_values) && not (contains_value v c.allowed_values))
            (codes "Value is not in the list of allowed values"))))

-- The text that a C function sees ends at its first NUL.
abbrev pub at_end : Bytes → Bool
at_end [] = true
at_end (c ∷ s) = c == 0

unfoldable pub check_range : ℤ → ParameterConstraints → Option Bytes
check_range n c =
    or_else
      (when_given c.min_value λ m.
        fail_if (ltb_ℤ n m)
          (codes "Integer value " ++ (print_ℤ n ++ (codes " is below minimum " ++ print_ℤ m))))
      (when_given c.max_value λ m.
        fail_if (ltb_ℤ m n)
          (codes "Integer value " ++ (print_ℤ n ++ (codes " exceeds maximum " ++ print_ℤ m))))

abbrev check_converted : Converted → ParameterConstraints → Option Bytes
check_converted no_conversion c = some (codes "Value is not a valid integer")
check_converted (converted n rest range) c =
    if at_end rest && not range
    then check_range n c
    else some (codes "Value is not a valid integer")

unfoldable pub validate_integer_constraints : Bytes → ParameterConstraints → Option Bytes
validate_integer_constraints v c = check_converted (strtoll v) c

-- `pszEnd != szValue.c_str()`: the end pointer has moved if what is left is shorter.
unfoldable pub validate_float_constraints : Runtime → Bytes → ParameterConstraints → Option Bytes
validate_float_constraints rt v c =
    let (d, rest, out) = rt.strtod v in
    if ltb (length rest) (length v)
      && at_end rest
      && not out
      && not (rt.double_inf d)
      && not (rt.double_nan d)
    then or_else
        (when_given c.float_min_value
          λ m. fail_if (rt.double_lt d m) (codes "Float value is below minimum"))
        (when_given c.float_max_value
          λ m. fail_if (rt.double_lt m d) (codes "Float value exceeds maximum"))
    else some (codes "Value is not a valid floating-point number")

unfoldable pub validate_boolean_value : Bytes → Option Bytes
validate_boolean_value v =
    if v =s= codes "true"
      || v =s= codes "false"
      || v =s= codes "1"
      || v =s= codes "0"
      || v =s= codes "yes"
      || v =s= codes "no"
    then none
    else some (codes "Value is not a valid boolean (expected true/false, 1/0, or yes/no)")

abbrev validate_as : Runtime → ParameterType → Bytes → ParameterConstraints → Option Bytes
validate_as rt string v c = validate_string_constraints rt v c
validate_as rt integer v c = validate_integer_constraints v c
validate_as rt float v c = validate_float_constraints rt v c
validate_as rt boolean v c = validate_boolean_value v
validate_as rt object v c = none
validate_as rt array v c = none

unfoldable pub validate_value : Runtime → ParameterSchema → Bytes → Option Bytes
validate_value rt s v = validate_as rt s.parameter_type v s.constraints
