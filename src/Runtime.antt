-- ===== src/Runtime.antt =====
-- What the sources use of the C library's doubles and of std::regex. A double is its 64-bit
-- pattern.
use rest_api_gateway.Prelude.{ℕ, Bool, false, [], Option, none, Bytes}

-- The bits of a double.
abbrev pub Double : Type 0
Double = ℕ

-- strtod gives a value, what the end pointer points at (the start, if nothing is read), and
-- whether errno is set. `print_double` is what an ostream writes by default, `to_string_double` is
-- std::to_string. `regex_match` is none where std::regex throws regex_error.
pub record Runtime : Type 0 where
  pub strtod : Bytes → Double × Bytes × Bool
  pub double_lt : Double → Double → Bool
  pub double_inf : Double → Bool
  pub double_nan : Double → Bool
  pub print_double : Double → Bytes
  pub to_string_double : Double → Bytes
  pub regex_match : Bytes → Bytes → Option Bool

-- A library that reads no numbers and no patterns, for tests.
abbrev pub no_runtime : Runtime
no_runtime = record {
  strtod = λ s. (0, s, false);
  double_lt = λ a b. false;
  double_inf = λ a. false;
  double_nan = λ a. false;
  print_double = λ a. [];
  to_string_double = λ a. [];
  regex_match = λ v p. none;
}
