-- ===== src/Json/Total/Below.antt =====
-- Results that leave less of the input than a bound and do not run out of fuel, and the parsers of
-- texts, words and numbers.
use rest_api_gateway.Prelude.{
  ℕ, zero, suc, ◌-◌, ◌<◌, ◌≤◌, ◌≡◌, refl, Bool, true, false, ◌||◌, [], ◌∷◌, ◌++◌, Option, none,
  some, Bytes, codes, length, take, drop, length-drop, ltb, leb, ◌==◌, if◌then◌else◌, arith,
  Bool-cases, inl, inr, ◌%◌, ◌^◌,
}
use rest_api_gateway.Prelude.Int.{ℤ}
use rest_api_gateway.Runtime.{Double, Runtime}
use rest_api_gateway.Json.Parser.{
  Result, ok, failed, threw, out_of_fuel, ◌>>=◌, push, push_code_point, read_escape, read_string,
  parse_string, parse_string_value, reads_word, parse_null, parse_boolean, number_end,
  is_float_number, float_result, integer_result, parse_number, skip_blanks, is_blank, starts,
  stoul_hex, utf8,
}

-- What a result says of the input: less than the bound is left.
abbrev Leaves : {A : Type 0} → ℕ → Result (A × Bytes) → Type 0
Leaves n (ok (a, rest)) = length rest < n
Leaves n (failed m at) = Unit
Leaves n threw = Unit
Leaves n out_of_fuel = ⊥

pub record Below {A : Type 0} (n : ℕ) (r : Result (A × Bytes)) : Type 0 where
  pub leaves : Leaves n r

module _ {A : Type 0} where
  pub Below-failed : (n : ℕ) (m at : Bytes) → Below {A = A} n (failed m at)
  Below-failed n m at = record { leaves = tt }

  pub Below-threw : (n : ℕ) → Below {A = A} n threw
  Below-threw n = record { leaves = tt }

  pub Below-ok : (n : ℕ) (a : A) (rest : Bytes) → length rest < n → Below n (ok (a, rest))
  Below-ok n a rest h = record { leaves = h }

  pub Below-ne-out_of_fuel : (n : ℕ) → Below {A = A} n out_of_fuel → ⊥
  Below-ne-out_of_fuel n h = h.leaves

  pub Below-mono : (m n : ℕ) (r : Result (A × Bytes)) → m ≤ n → Below m r → Below n r
  Below-mono m n (ok (a, rest)) h b = let k = b.leaves in Below-ok n a rest (omega arith)
  Below-mono m n (failed x at) h b = Below-failed n x at
  Below-mono m n threw h b = Below-threw n
  Below-mono m n out_of_fuel h b = absurd b.leaves

  pub Below-if :
      {n : ℕ} (c : Bool) {a b : Result (A × Bytes)}
      → (c ≡ true → Below n a)
      → (c ≡ false → Below n b)
      → Below n (if c then a else b)
  Below-if true ha hb = ha refl
  Below-if false ha hb = hb refl

module _ {A B : Type 0} where
  pub Below-bind :
      (m n : ℕ) (r : Result (A × Bytes)) (f : A × Bytes → Result (B × Bytes))
      → Below m r
      → ((a : A) (rest : Bytes) → length rest < m → Below n (f (a, rest)))
      → Below n (r >>= f)
  Below-bind m n (ok (a, rest)) f h k = k a rest h.leaves
  Below-bind m n (failed x at) f h k = Below-failed n x at
  Below-bind m n threw f h k = Below-threw n
  Below-bind m n out_of_fuel f h k = absurd h.leaves

Below-push : (n : ℕ) (t : Bytes) (r : Result (Bytes × Bytes)) → Below n r → Below n (push t r)
Below-push n t (ok (s, rest)) h = Below-ok n (t ++ s) rest h.leaves
Below-push n t (failed m at) h = Below-failed n m at
Below-push n t threw h = Below-threw n
Below-push n t out_of_fuel h = absurd h.leaves

Below-push_code_point :
    (n : ℕ) (o : Option ℕ) (r : Result (Bytes × Bytes)) → Below n r → Below n (push_code_point o r)
Below-push_code_point n none r h = Below-threw n
Below-push_code_point n (some k) r h = Below-push n (utf8 (k % 2 ^ 32)) r h

Below-read_escape :
    (n : ℕ) (s : Bytes) (next : ℕ → Result (Bytes × Bytes))
    → ((k : ℕ) → Below n (next k))
    → Below n (read_escape s next)
unfolding read_escape
Below-read_escape n [] next h = Below-failed _ _ _
Below-read_escape n (e ∷ s) next h =
    let one = λ (k : ℕ). Below-push n (k ∷ []) (next 1) (h 1) in
    Below-if (e == b'"' || e == b'\\' || e == b'/') (λ _. one e)
      λ _.
        Below-if (e == b'b') (λ _. one 8)
          λ _.
            Below-if (e == b'f') (λ _. one 12)
              λ _.
                Below-if (e == b'n') (λ _. one 10)
                  λ _.
                    Below-if (e == b'r') (λ _. one 13)
                      λ _.
                        Below-if (e == b't') (λ _. one 9)
                          λ _.
                            Below-if (e == b'u')
                              (λ _.
                                Below-if (leb 4 (length s))
                                  (λ _.
                                    Below-push_code_point n (stoul_hex (take 4 s)) (next 5) (h 5))
                                  (λ _. Below-failed _ _ _))
                              (λ _. Below-failed _ _ _)

Below-read_string : (s : Bytes) (k : ℕ) → Below (length s) (read_string s k)
unfolding read_string
Below-read_string [] zero = Below-failed _ _ _
Below-read_string [] (suc k) = Below-failed _ _ _
Below-read_string (c ∷ s) (suc k) = Below-mono (length s) _ _ (omega arith) (Below-read_string s k)
Below-read_string (c ∷ s) zero =
    let later =
      λ (k : ℕ). Below-mono (length s) (suc (length s)) _ (omega arith) (Below-read_string s k) in
    Below-if (c == b'"') (λ _. Below-ok _ _ _ (omega arith))
      λ _.
        Below-if (c == b'\\') (λ _. Below-read_escape _ s _ later)
          λ _. Below-push _ (c ∷ []) _ (later 0)

pub Below-parse_string : (s : Bytes) → Below (length s) (parse_string s)
unfolding parse_string
Below-parse_string [] = Below-failed _ _ _
Below-parse_string (c ∷ s) =
    Below-if (c == b'"') (λ _. Below-mono (length s) _ _ (omega arith) (Below-read_string s 0))
      (λ _. Below-failed _ _ _)

pub Below-parse_string_value : (s : Bytes) → Below (length s) (parse_string_value s)
unfolding parse_string_value
Below-parse_string_value s =
    Below-bind _ _ (parse_string s) _ (Below-parse_string s) (λ t rest h. Below-ok _ _ _ h)

word_drop :
    (word s : Bytes)
    → 0 < length word
    → reads_word word s ≡ true
    → length (drop (length word) s) < length s
word_drop word s h e =
    let enough : length word ≤ length s = ground arith in omega (arith, length-drop (length word) s)

pub Below-parse_null : (s : Bytes) → Below (length s) (parse_null s)
unfolding parse_null
Below-parse_null s =
    Below-if (reads_word (codes "null") s)
      (λ e. Below-ok _ _ _ (word_drop (codes "null") s (omega arith) e)) (λ _. Below-failed _ _ _)

pub Below-parse_boolean : (s : Bytes) → Below (length s) (parse_boolean s)
unfolding parse_boolean
Below-parse_boolean s =
    Below-if (reads_word (codes "true") s)
      (λ e. Below-ok _ _ _ (word_drop (codes "true") s (omega arith) e))
      λ _.
        Below-if (reads_word (codes "false") s)
          (λ e. Below-ok _ _ _ (word_drop (codes "false") s (omega arith) e))
          (λ _. Below-failed _ _ _)

taken : (n : ℕ) (s : Bytes) → ltb 0 (length (take n s)) ≡ true → 0 < n
taken zero s h = ground arith
taken (suc n) s h = omega arith

Below-float_result :
    (rt : Runtime) (n : ℕ) (o : Option Double) (rest : Bytes)
    → length rest < n
    → Below n (float_result rt o rest)
Below-float_result rt n none rest h = Below-threw n
Below-float_result rt n (some d) rest h = Below-ok _ _ _ h

Below-integer_result :
    (rt : Runtime) (n : ℕ) (o : Option ℤ) (rest : Bytes)
    → length rest < n
    → Below n (integer_result rt o rest)
Below-integer_result rt n none rest h = Below-threw n
Below-integer_result rt n (some z) rest h = Below-ok _ _ _ h

pub Below-parse_number : (rt : Runtime) (s : Bytes) → Below (length s) (parse_number rt s)
unfolding parse_number
Below-parse_number rt s =
    Below-if (ltb 0 (length (take (length s - length (number_end s)) s)))
      (λ e.
        let some_read = taken _ s e in
        let less : length (number_end s) < length s = omega arith in
        Below-if (is_float_number s) (λ _. Below-float_result rt _ _ _ less)
          (λ _. Below-integer_result rt _ _ _ less))
      (λ _. Below-failed _ _ _)

pub skip_blanks_le : (s : Bytes) → length (skip_blanks s) ≤ length s
unfolding skip_blanks
skip_blanks_le [] = omega arith
skip_blanks_le (c ∷ s) = elim (Bool-cases (is_blank c)) [
  | inl blank ↦ let rec = skip_blanks_le s in rw blank (omega arith)
  | inr other ↦ rw other (omega arith)
]

pub drop-starts : (c : ℕ) (s : Bytes) → starts c s ≡ true → length (drop 1 s) < length s
drop-starts c [] h = let false_true : false ≡ true = h in cc
drop-starts c (d ∷ s) h = omega arith
