-- ===== src/Json/Reading.antt =====
-- An integer that Serialize wrote is read back by ParseNumber.
use rest_api_gateway.Prelude.{
  ℕ, ◌+◌, ◌-◌, ◌*◌, ◌≡◌, refl, ap, ◌∙◌, true, false, [], ◌∷◌, ◌++◌, Bytes, length, take, ltb, ◌==◌,
  arith, Bool-cases, inl, inr, length-append, take-length_append,
}
use rest_api_gateway.Prelude.Int.{ℤ, pos, negsuc}
use rest_api_gateway.Decimal.{is_digit, scan_digits, print_ℕ, print_ℤ}
use rest_api_gateway.Decimal.Print.{Ends, IsInt64, scan-print_ℕ, print_ℕ_head, stoll-print_ℤ}
use rest_api_gateway.Runtime.{Runtime}
use rest_api_gateway.Json.{integer}
use rest_api_gateway.Json.Parser.{
  ok, starts, skip_digits, fraction_end, starts_exponent, integer_end, number_end, is_float_number,
  parse_number,
}

-- Nothing that continues a number is in front.
abbrev pub Closes : Bytes → Type 0
Closes [] = Unit {0}
Closes (c ∷ s) =
    (is_digit c ≡ false) × ((c == b'.') ≡ false) × ((c == b'e') ≡ false) × ((c == b'E') ≡ false)

Ends-Closes : (s : Bytes) → Closes s → Ends s
Ends-Closes [] h = tt
Ends-Closes (c ∷ s) (h, _, _, _) = h

skip_digits-eq-scan_digits : (acc : ℕ) (s : Bytes) → skip_digits s ≡ (scan_digits acc s).1
unfolding skip_digits scan_digits
skip_digits-eq-scan_digits acc [] = refl
skip_digits-eq-scan_digits acc (c ∷ s) = elim (Bool-cases (is_digit c)) [
  | inl digit ↦ rw digit (skip_digits-eq-scan_digits (acc * 10 + (c - b'0')) s)
  | inr other ↦ rw other refl
]

skip_digits-print_ℕ : (n : ℕ) (rest : Bytes) → Ends rest → skip_digits (print_ℕ n ++ rest) ≡ rest
skip_digits-print_ℕ n rest h =
    skip_digits-eq-scan_digits 0 (print_ℕ n ++ rest) ∙ ap (λ p. p.1) (scan-print_ℕ n rest h)

integer_end_digit :
    (c : ℕ) (s : Bytes) → is_digit c ≡ true → integer_end (c ∷ s) ≡ skip_digits (c ∷ s)
unfolding integer_end
integer_end_digit c s h = let minus : (c == b'-') ≡ false = ground arith in rw minus refl

skip_minus : (s : Bytes) → integer_end (b'-' ∷ s) ≡ skip_digits s
unfolding integer_end
skip_minus s = refl

integer_end-print_ℤ : (n : ℤ) (rest : Bytes) → Ends rest → integer_end (print_ℤ n ++ rest) ≡ rest
unfolding print_ℤ
integer_end-print_ℤ (pos n) rest h =
    let (c, s, shape, digit) = print_ℕ_head n in
    let read : skip_digits (c ∷ (s ++ rest)) ≡ rest = rw shape at (skip_digits-print_ℕ n rest h) in
    rw shape (integer_end_digit c (s ++ rest) digit ∙ read)
integer_end-print_ℤ (negsuc n) rest h =
    skip_minus (print_ℕ (n + 1) ++ rest) ∙ skip_digits-print_ℕ (n + 1) rest h

fraction_end_closed : (s : Bytes) → Closes s → fraction_end s ≡ s
fraction_end_closed [] h = refl
fraction_end_closed (c ∷ s) (_, point, _, _) = rw point refl

starts_point_closed : (s : Bytes) → Closes s → starts b'.' s ≡ false
starts_point_closed [] h = refl
starts_point_closed (c ∷ s) (_, point, _, _) = point

starts_exponent_closed : (s : Bytes) → Closes s → starts_exponent s ≡ false
starts_exponent_closed [] h = refl
starts_exponent_closed (c ∷ s) (_, _, small, large) = rw (small, large) refl

number_end-print_ℤ : (n : ℤ) (rest : Bytes) → Closes rest → number_end (print_ℤ n ++ rest) ≡ rest
unfolding number_end
number_end-print_ℤ n rest h =
    rw
      (
        integer_end-print_ℤ n rest (Ends-Closes rest h),
        fraction_end_closed rest h,
        starts_exponent_closed rest h,
      )
      refl

is_float_number-print_ℤ :
    (n : ℤ) (rest : Bytes) → Closes rest → is_float_number (print_ℤ n ++ rest) ≡ false
is_float_number-print_ℤ n rest h =
    rw
      (
        integer_end-print_ℤ n rest (Ends-Closes rest h),
        fraction_end_closed rest h,
        starts_exponent_closed rest h,
        starts_point_closed rest h,
      )
      refl

print_ℤ_nonempty : (n : ℤ) → ltb 0 (length (print_ℤ n)) ≡ true
unfolding print_ℤ
print_ℤ_nonempty (pos n) = let (c, s, shape, _) = print_ℕ_head n in rw shape (ground arith)
print_ℤ_nonempty (negsuc n) = ground arith

take_front : (s rest : Bytes) → take (length (s ++ rest) - length rest) (s ++ rest) ≡ s
take_front s rest =
    let e : length (s ++ rest) - length rest ≡ length s = omega (arith, length-append s rest) in
    rw e (take-length_append s rest)

pub parse_number-print_ℤ :
    (rt : Runtime) (n : ℤ) (rest : Bytes)
    → IsInt64 n
    → Closes rest
    → parse_number rt (print_ℤ n ++ rest) ≡ ok (integer n, rest)
unfolding parse_number
parse_number-print_ℤ rt n rest range h =
    rw
      (
        number_end-print_ℤ n rest h,
        take_front (print_ℤ n) rest,
        print_ℤ_nonempty n,
        is_float_number-print_ℤ n rest h,
        stoll-print_ℤ n range,
      )
      refl
