-- ===== src/Decimal.antt =====
-- What the source uses of the standard library's decimal conversions: std::to_string of an integer,
-- strtoll with its end pointer and ERANGE, and std::stoll, which throws.
pub mod Print
use mathlib.Core.Logic.{dite}
use mathlib.Core.WellFounded.{Acc}
use rest_api_gateway.Prelude.{
  ℕ, zero, suc, ◌+◌, ◌-◌, ◌*◌, ◌/◌, ◌%◌, ◌^◌, ◌<◌, Bool, true, false, ◌&&◌, ◌||◌, not, List, [],
  ◌∷◌, ◌++◌, Option, none, some, Bytes, ltb, leb, ◌==◌, if◌then◌else◌, dec_lt, arith,
}
use rest_api_gateway.Prelude.Int.{ℤ, pos, negsuc}
use rest_api_gateway.Prelude.Order.{lt_wf}

unfoldable pub print_acc : (n : ℕ) → Acc ◌<◌ n → Bytes
print_acc n (Acc.intro _ smaller) =
    dite (dec_lt n 10) (λ _. (48 + n) ∷ [])
      (λ h. print_acc (n / 10) (smaller (n / 10) (omega arith)) ++ (48 + n % 10) ∷ [])

-- std::to_string of an unsigned number
unfoldable pub print_ℕ : ℕ → Bytes
unfolding print_acc lt_wf dec_lt
print_ℕ n = print_acc n (lt_wf.apply n)

-- std::to_string of an int64_t
unfoldable pub print_ℤ : ℤ → Bytes
print_ℤ (pos n) = print_ℕ n
print_ℤ (negsuc n) = b'-' ∷ print_ℕ (n + 1)

-- isspace in the C locale
abbrev pub is_space : ℕ → Bool
is_space c = c == b' ' || leb 9 c && leb c 13

abbrev pub is_digit : ℕ → Bool
is_digit c = leb b'0' c && leb c b'9'

unfoldable pub skip_space : Bytes → Bytes
skip_space [] = []
skip_space (c ∷ s) = if is_space c then skip_space s else c ∷ s

-- The value of the digits at the front, behind an accumulator, and what follows them.
unfoldable pub scan_digits : ℕ → Bytes → ℕ × Bytes
scan_digits acc [] = (acc, [])
scan_digits acc (c ∷ s) =
    let rest = scan_digits (acc * 10 + (c - b'0')) s in if is_digit c then rest else (acc, c ∷ s)

-- `converted` holds the value, what the end pointer points at, and whether errno is ERANGE.
pub data Converted : Type 0 where
  no_conversion : Converted
  converted : ℤ → Bytes → Bool → Converted

abbrev pub max_int64 : ℕ
max_int64 = 2 ^ 63 - 1

-- The value of a magnitude under a sign, clamped to int64_t.
unfoldable pub clamp_int64 : Bool → ℕ × Bytes → Converted
clamp_int64 false (n, rest) =
    if leb n max_int64 then converted (pos n) rest false else converted (pos max_int64) rest true
clamp_int64 true (zero, rest) = converted (pos 0) rest false
clamp_int64 true (suc n, rest) =
    if leb n max_int64
    then converted (negsuc n) rest false
    else converted (negsuc max_int64) rest true

abbrev strtoll_digits : Bool → Bytes → Converted
strtoll_digits negative [] = no_conversion
strtoll_digits negative (c ∷ s) =
    if is_digit c then clamp_int64 negative (scan_digits 0 (c ∷ s)) else no_conversion

abbrev strtoll_sign : Bytes → Converted
strtoll_sign [] = no_conversion
strtoll_sign (c ∷ s) =
    if c == b'-'
    then strtoll_digits true s
    else if c == b'+'
    then strtoll_digits false s
    else strtoll_digits false (c ∷ s)

-- strtoll in base 10
unfoldable pub strtoll : Bytes → Converted
unfolding clamp_int64 scan_digits skip_space
strtoll s = strtoll_sign (skip_space s)

-- std::stoll; `none` is an exception.
abbrev stoll_result : Converted → Option ℤ
stoll_result no_conversion = none
stoll_result (converted v rest out) = if out then none else some v

unfoldable pub stoll : Bytes → Option ℤ
unfolding strtoll
stoll s = stoll_result (strtoll s)

-- std::stoul: strtoul in base 10, where a minus sign negates the 64-bit word; `none` is an
-- exception, of no digits or of a magnitude over 64 bits.
abbrev stoul_magnitude : Bool → ℕ → Option ℕ
stoul_magnitude negative n =
    if ltb n (2 ^ 64) then some (if negative then (2 ^ 64 - n) % 2 ^ 64 else n) else none

abbrev stoul_digits : Bool → Bytes → Option ℕ
stoul_digits negative [] = none
stoul_digits negative (c ∷ s) =
    if is_digit c then stoul_magnitude negative (scan_digits 0 (c ∷ s)).0 else none

abbrev stoul_sign : Bytes → Option ℕ
stoul_sign [] = none
stoul_sign (c ∷ s) =
    if c == b'-'
    then stoul_digits true s
    else if c == b'+'
    then stoul_digits false s
    else stoul_digits false (c ∷ s)

unfoldable pub stoul : Bytes → Option ℕ
stoul s = stoul_sign (skip_space s)
