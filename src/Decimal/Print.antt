-- ===== src/Decimal/Print.antt =====
-- A printed number is read back.
use mathlib.Core.Logic.{dif_pos, dif_neg}
use mathlib.Core.WellFounded.{Acc}
use native.Mathlib.Bridge.{le_prop}
use rest_api_gateway.Prelude.{
  ℕ, suc, ◌+◌, ◌-◌, ◌*◌, ◌/◌, ◌%◌, ◌<◌, ◌≤◌, ◌≡◌, refl, sym, ap, ◌∙◌, true, false, [], ◌∷◌, ◌++◌,
  some, Bytes, append_assoc, append-nil, ◌==◌, dec_lt, arith,
}
use rest_api_gateway.Prelude.Int.{ℤ, pos, negsuc}
use rest_api_gateway.Prelude.Order.{lt_wf}
use rest_api_gateway.Decimal.{
  print_acc, print_ℕ, print_ℤ, is_space, is_digit, scan_digits, strtoll, stoll, clamp_int64,
  converted, max_int64,
}

-- What follows a number does not start with a digit.
abbrev pub Ends : Bytes → Type 0
Ends [] = Unit {0}
Ends (c ∷ s) = is_digit c ≡ false

scan_one :
    (acc d : ℕ) (rest : Bytes)
    → d < 10
    → scan_digits acc ((48 + d) ∷ rest) ≡ scan_digits (acc * 10 + d) rest
unfolding scan_digits
scan_one acc d rest h =
    let e : 48 + d - 48 ≡ d = omega arith in
    let digit : is_digit (48 + d) ≡ true = ground arith in rw (digit, e) refl

-- Reading the printed digits of n leaves n in the accumulator.
scan-print_acc :
    (n : ℕ) (w : Acc ◌<◌ n) (rest : Bytes)
    → scan_digits 0 (print_acc n w ++ rest) ≡ scan_digits n rest
unfolding print_acc
scan-print_acc n (Acc.intro _ smaller) rest = elim (dec_lt n 10) [
  | yes p ↦
      rw (dif_pos _ le_prop p)
        (scan_one 0 n rest p ∙ ap (λ (k : ℕ). scan_digits k rest) (omega arith))
  | no p ↦
      rw (dif_neg _ p, append_assoc)
        (scan-print_acc (n / 10) (smaller _ _) ((48 + n % 10) ∷ rest)
          ∙ scan_one (n / 10) (n % 10) rest (omega arith)
          ∙ ap (λ (k : ℕ). scan_digits k rest) (omega arith))
]

abbrev StartsWithDigit : Bytes → Type 0
StartsWithDigit [] = ⊥
StartsWithDigit (c ∷ s) = is_digit c ≡ true

StartsWithDigit-append : (s t : Bytes) → StartsWithDigit s → StartsWithDigit (s ++ t)
StartsWithDigit-append [] t h = absurd h
StartsWithDigit-append (c ∷ s) t h = h

print_acc-StartsWithDigit : (n : ℕ) (w : Acc ◌<◌ n) → StartsWithDigit (print_acc n w)
unfolding print_acc
print_acc-StartsWithDigit n (Acc.intro _ smaller) = elim (dec_lt n 10) [
  | yes p ↦ rw (dif_pos _ le_prop p) (ground arith)
  | no p ↦
      rw (dif_neg _ p)
        (StartsWithDigit-append _ _ (print_acc-StartsWithDigit (n / 10) (smaller _ _)))
]

scan_end : (n : ℕ) (rest : Bytes) → Ends rest → scan_digits n rest ≡ (n, rest)
unfolding scan_digits
scan_end n [] h = refl
scan_end n (c ∷ rest) h = rw h refl

-- The digits of a number in front of something that is no digit.
pub scan-print_ℕ :
    (n : ℕ) (rest : Bytes) → Ends rest → scan_digits 0 (print_ℕ n ++ rest) ≡ (n, rest)
unfolding print_ℕ
scan-print_ℕ n rest h = scan-print_acc n (lt_wf.apply n) rest ∙ scan_end n rest h

pub print_ℕ_head : (n : ℕ) → (c : ℕ) × (s : Bytes) × (print_ℕ n ≡ c ∷ s) × (is_digit c ≡ true)
unfolding print_ℕ
print_ℕ_head n = go (print_acc n (lt_wf.apply n)) (print_acc-StartsWithDigit n (lt_wf.apply n))
  where
    go : (s : Bytes) → StartsWithDigit s → (c : ℕ) × (t : Bytes) × (s ≡ c ∷ t) × (is_digit c ≡ true)
    go [] h = absurd h
    go (c ∷ t) h = (c, t, refl, h)

strtoll_head_digit :
    (c : ℕ) (s : Bytes)
    → is_digit c ≡ true
    → strtoll (c ∷ s) ≡ clamp_int64 false (scan_digits 0 (c ∷ s))
unfolding strtoll
strtoll_head_digit c s h =
    let sp : is_space c ≡ false = ground arith in
    let minus : (c == b'-') ≡ false = ground arith in
    let plus : (c == b'+') ≡ false = ground arith in rw (sp, minus, plus, h) refl

-- The int64_t values.
abbrev pub IsInt64 : ℤ → Type 0
IsInt64 (pos n) = n ≤ max_int64
IsInt64 (negsuc n) = n ≤ max_int64

strtoll_minus_digit :
    (c : ℕ) (s : Bytes)
    → is_digit c ≡ true
    → strtoll (b'-' ∷ c ∷ s) ≡ clamp_int64 true (scan_digits 0 (c ∷ s))
unfolding strtoll
strtoll_minus_digit c s h = rw h refl

clamp_pos :
    (n : ℕ) (rest : Bytes)
    → n ≤ max_int64
    → clamp_int64 false (n, rest) ≡ converted (pos n) rest false
unfolding clamp_int64
clamp_pos n rest h = ground arith

clamp_negsuc :
    (n : ℕ) (rest : Bytes)
    → n ≤ max_int64
    → clamp_int64 true (n + 1, rest) ≡ converted (negsuc n) rest false
unfolding clamp_int64
clamp_negsuc n rest h = let e : n + 1 ≡ suc n = omega arith in rw e (ground arith)

-- strtoll reads back a printed int64_t and stops behind it, at anything that is no digit.
pub strtoll-print_ℤ :
    (z : ℤ) (rest : Bytes)
    → IsInt64 z
    → Ends rest
    → strtoll (print_ℤ z ++ rest) ≡ converted z rest false
unfolding print_ℤ
strtoll-print_ℤ (pos n) rest h e =
    let (c, s, shape, digit) = print_ℕ_head n in
    rw shape (strtoll_head_digit c (s ++ rest) digit)
    ∙ ap (clamp_int64 false) (rw shape at (scan-print_ℕ n rest e))
    ∙ clamp_pos n rest h
strtoll-print_ℤ (negsuc n) rest h e =
    let (c, s, shape, digit) = print_ℕ_head (n + 1) in
    rw shape (strtoll_minus_digit c (s ++ rest) digit)
    ∙ ap (clamp_int64 true) (rw shape at (scan-print_ℕ (n + 1) rest e))
    ∙ clamp_negsuc n rest h

-- std::stoll is a left inverse of std::to_string on the int64_t values.
pub stoll-print_ℤ : (z : ℤ) → IsInt64 z → stoll (print_ℤ z) ≡ some z
unfolding stoll
stoll-print_ℤ z h =
    let e : strtoll (print_ℤ z) ≡ converted z [] false =
      ap strtoll (sym (append-nil (print_ℤ z))) ∙ strtoll-print_ℤ z [] h tt in
    rw e refl
