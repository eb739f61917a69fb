-- ===== src/Base64/Alphabet.antt =====
-- The alphabet and its table, for every six-bit value.
use rest_api_gateway.Prelude.{
  Bool-cases, inl, inr, ◌≤◌, ℕ, zero, suc, ◌+◌, ◌%◌, ◌<◌, ◌≡◌, refl, ap, Bool, true, false, not,
  ◌&&◌, Option, none, some, get_or, ◌==◌, if◌then◌else◌, arith,
}
use rest_api_gateway.Base64.{base64_url_chars, char_of, index_of, value_of}

-- The decoder's answer for the character of a six-bit value, and its test for '='.
abbrev answers : ℕ → Option ℕ → Bool → Bool
answers v none stops = false
answers v (some w) stops = w == v && not stops

abbrev is_good : ℕ → Bool
is_good v = answers v (value_of (char_of v)) (char_of v == b'=')

-- All of the six-bit values from `start` on are good.
good_from : ℕ → ℕ → Bool
good_from start zero = true
good_from start (suc count) = if is_good start then good_from (start + 1) count else false

alphabet_is_good : good_from 0 64 ≡ true
unfolding good_from value_of char_of index_of
alphabet_is_good = refl

good_at :
    (start count v : ℕ)
    → good_from start count ≡ true
    → start ≤ v
    → v < start + count
    → is_good v ≡ true
unfolding good_from
good_at start zero v all low high = absurd (omega arith)
good_at start (suc count) v all low high = elim (Bool-cases (is_good start)) [
  | inr bad ↦ absurd (ground (arith, bad))
  | inl good ↦ elim (Bool-cases (v == start)) [
    | inl same ↦ let e : v ≡ start = ground arith in rw e good
    | inr later ↦ good_at (start + 1) count v (ground (arith, good)) (ground arith) (omega arith)
  ]
]

answers_parts :
    (v : ℕ) (o : Option ℕ) (stops : Bool)
    → answers v o stops ≡ true
    → (o ≡ some v) × (stops ≡ false)
answers_parts v none stops h = cc
answers_parts v (some w) stops h = ground arith

char_of-mod : (v : ℕ) → char_of (v % 64) ≡ char_of v
unfolding char_of
char_of-mod v =
    let e : v % 64 % 64 ≡ v % 64 = omega arith in ap (λ (w : ℕ). get_or base64_url_chars w 0) e

pub char_of_facts : (v : ℕ) → (value_of (char_of v) ≡ some (v % 64)) × ((char_of v == b'=') ≡ false)
char_of_facts v = rw (← char_of-mod v) (
    answers_parts (v % 64) _ _ (good_at 0 64 (v % 64) alphabet_is_good (omega arith) (omega arith)))
