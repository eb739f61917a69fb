-- ===== src/Schema/Checks.antt =====
-- What a value that passes the checks of its schema is like.
use rest_api_gateway.Prelude.{
  ℕ, ◌≤◌, ◌≡◌, ◌↔◌, ◌⊎◌, inl, inr, refl, true, false, not, ◌&&◌, List, [], ◌∷◌, Option, none, some,
  Bytes, length, or_else, arith, codes, ◌=s=◌, bytes_eq_iff, Bool-cases, append-nil, ap, sym, ◌∙◌,
}
use rest_api_gateway.Prelude.Int.{ℤ, ◌≤ℤ◌}
use rest_api_gateway.Decimal.{print_ℤ, strtoll, converted}
use rest_api_gateway.Decimal.Print.{IsInt64, strtoll-print_ℤ}
use rest_api_gateway.Runtime.{Runtime}
use rest_api_gateway.Schema.{
  ParameterConstraints, validate_string_constraints, validate_integer_constraints, contains_value,
  check_range, fail_if, when_given, is_empty,
}

-- A value is one of a list.
abbrev pub IsOneOf : Bytes → List Bytes → Type 0
IsOneOf v [] = ⊥
IsOneOf v (a ∷ allowed) = (v ≡ a) ⊎ IsOneOf v allowed

pub contains_value-IsOneOf :
    (v : Bytes) (allowed : List Bytes) → (contains_value v allowed ≡ true) ↔ IsOneOf v allowed
unfolding contains_value
contains_value-IsOneOf v [] = (λ h. cc, λ h. absurd h)
contains_value-IsOneOf v (a ∷ allowed) =
    let (to, from) = contains_value-IsOneOf v allowed in
    elim (Bool-cases (v =s= a)) [
      | inl same ↦ (λ h. inl ((bytes_eq_iff v a).0 same), λ h. rw same refl)
      | inr other ↦
          (λ h. inr (to (rw other at h)), λ h. rw other (from (ground (arith, bytes_eq_iff v a))))
    ]

-- What the constraints ask of a text.
pub record StringFits (rt : Runtime) (v : Bytes) (c : ParameterConstraints) : Type 0 where
  pub long_enough : (m : ℕ) → c.min_length ≡ some m → m ≤ length v
  pub short_enough : (m : ℕ) → c.max_length ≡ some m → length v ≤ m
  pub matches : (p : Bytes) → c.regex_pattern ≡ some p → rt.regex_match v p ≡ some true
  pub allowed : (c.allowed_values ≡ []) ⊎ IsOneOf v c.allowed_values

allowed_none_iff :
    (v message : Bytes) (allowed : List Bytes)
    → (fail_if (not (is_empty allowed) && not (contains_value v allowed)) message ≡ none)
      ↔ ((allowed ≡ []) ⊎ IsOneOf v allowed)
allowed_none_iff v message [] = (λ h. inl refl, λ h. refl)
allowed_none_iff v message (a ∷ allowed) =
    let (to, from) = contains_value-IsOneOf v (a ∷ allowed) in
    (λ h. inr (to (ground arith)), back from)
  where
    back :
        (IsOneOf v (a ∷ allowed) → contains_value v (a ∷ allowed) ≡ true)
        → ((a ∷ allowed ≡ []) ⊎ IsOneOf v (a ∷ allowed))
        → fail_if (not (contains_value v (a ∷ allowed))) message ≡ none
    back from (inl e) = cc
    back from (inr h) = rw (from h) refl

when_given-none {ℓ} :
    {A : Type ℓ} (o : Option A) (check : A → Option Bytes)
    → ((a : A) → o ≡ some a → check a ≡ none)
    → when_given o check ≡ none
when_given-none none check h = refl
when_given-none (some a) check h = h a refl

or_else-none {ℓ} : {A : Type ℓ} (a b : Option A) → a ≡ none → b ≡ none → or_else a b ≡ none
or_else-none a b h k = rw h k

string_sound :
    (rt : Runtime) (v : Bytes) (c : ParameterConstraints)
    → validate_string_constraints rt v c ≡ none
    → StringFits rt v c
unfolding validate_string_constraints
string_sound rt v c h = record {
  long_enough = λ m e. ground arith;
  short_enough = λ m e. ground arith;
  matches = λ p e. ground arith;
  allowed =
      (allowed_none_iff v (codes "Value is not in the list of allowed values") c.allowed_values).0
        (ground arith);
}

string_complete :
    (rt : Runtime) (v : Bytes) (c : ParameterConstraints)
    → StringFits rt v c
    → validate_string_constraints rt v c ≡ none
unfolding validate_string_constraints
string_complete rt v c f =
    or_else-none _ _ (when_given-none c.min_length _ (λ m e. ground (arith, f.long_enough m e))) (
      or_else-none _ _ (when_given-none c.max_length _ (λ m e. ground (arith, f.short_enough m e)))
        (or_else-none _ _ (when_given-none c.regex_pattern _ (λ p e. rw (f.matches p e) refl))
          ((allowed_none_iff v _ c.allowed_values).1 f.allowed)))

-- A text passes ValidateStringConstraints exactly when it meets every constraint that is given.
pub validate_string_constraints_iff :
    (rt : Runtime) (v : Bytes) (c : ParameterConstraints)
    → (validate_string_constraints rt v c ≡ none) ↔ StringFits rt v c
validate_string_constraints_iff rt v c = (string_sound rt v c, string_complete rt v c)

-- Between the bounds that are given.
pub record InRange (n : ℤ) (c : ParameterConstraints) : Type 0 where
  pub above : (m : ℤ) → c.min_value ≡ some m → m ≤ℤ n
  pub below : (m : ℤ) → c.max_value ≡ some m → n ≤ℤ m

check_range_iff : (n : ℤ) (c : ParameterConstraints) → (check_range n c ≡ none) ↔ InRange n c
unfolding check_range
check_range_iff n c = (
  λ h. record { above = λ m e. ground arith; below = λ m e. ground arith },
  λ r.
      or_else-none _ _ (when_given-none c.min_value _ (λ m e. ground (arith, r.above m e)))
        (when_given-none c.max_value _ (λ m e. ground (arith, r.below m e))),
)

-- The decimal text of an int64_t passes ValidateIntegerConstraints exactly when the number lies
-- between the bounds that are given.
pub validate_integer-print_ℤ_iff :
    (n : ℤ) (c : ParameterConstraints)
    → IsInt64 n
    → (validate_integer_constraints (print_ℤ n) c ≡ none) ↔ InRange n c
unfolding validate_integer_constraints
validate_integer-print_ℤ_iff n c h =
    let e : strtoll (print_ℤ n) ≡ converted n [] false =
      ap strtoll (sym (append-nil (print_ℤ n))) ∙ strtoll-print_ℤ n [] h tt in
    rw e (check_range_iff n c)
