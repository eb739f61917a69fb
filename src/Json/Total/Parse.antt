-- ===== src/Json/Total/Parse.antt =====
-- Parse ends on every input below its limit: the fuel, twice the length and one more, is never used up.
use rest_api_gateway.Prelude.{
  ℕ, zero, suc, ◌+◌, ◌*◌, ◌<◌, ◌≡◌, ◌≢◌, ltb, Bool, true, false, Bytes, codes, [], if◌then◌else◌,
  length, arith,
}
use rest_api_gateway.Runtime.{Runtime}
use rest_api_gateway.Json.{JsonValue, Members}
use rest_api_gateway.Json.Parser.{
  Result, ok, failed, threw, out_of_fuel, ◌>>=◌, skip_blanks, is_end, parse_value, parse_elements,
  parse_members, position_limit, parse,
}
use rest_api_gateway.Json.Total.Below.{Below, Below-mono, skip_blanks_le}
use rest_api_gateway.Json.Total.Steps.{Below-read_element, Below-read_member, Below-dispatch}

module _ (rt : Runtime) where
  mutual
    unfolding parse_value

    Below-parse_value_fuel :
        (f : ℕ) (s : Bytes) → 2 * length s < f → Below (length s) (parse_value rt f s)
    Below-parse_value_fuel zero s h = absurd (omega arith)
    Below-parse_value_fuel (suc f) s h =
        let le = skip_blanks_le s in
        Below-mono (length (skip_blanks s)) _ _ le (
          Below-dispatch rt (parse_elements rt f) (parse_members rt f) (skip_blanks s)
            (λ t k. Below-parse_elements f t (omega arith))
            (λ ms t k. Below-parse_members f ms t (omega arith)))

    Below-parse_elements :
        (f : ℕ) (s : Bytes) → 2 * length s + 1 < f → Below (suc (length s)) (parse_elements rt f s)
    Below-parse_elements zero s h = absurd (omega arith)
    Below-parse_elements (suc f) s h =
        Below-read_element (parse_value rt f) (parse_elements rt f) s
          (λ t k. Below-parse_value_fuel f t (omega arith))
          (λ t k. Below-parse_elements f t (omega arith))

    Below-parse_members :
        (f : ℕ) (ms : Members) (s : Bytes)
        → 2 * length s + 1 < f
        → Below (suc (length s)) (parse_members rt f ms s)
    Below-parse_members zero ms s h = absurd (omega arith)
    Below-parse_members (suc f) ms s h =
        Below-read_member (parse_value rt f) (parse_members rt f) ms s
          (λ t k. Below-parse_value_fuel f t (omega arith))
          (λ ns t k. Below-parse_members f ns t (omega arith))

  pub Below-parse_value :
      (f : ℕ) (s : Bytes) → 2 * length s < f → Below (length s) (parse_value rt f s)
  Below-parse_value = Below-parse_value_fuel

  value_of_ne :
      (n : ℕ) (r : Result (JsonValue × Bytes)) → Below n r → (r >>= λ (v, rest). ok v) ≢ out_of_fuel
  value_of_ne n (ok (v, rest)) h e = let e' : ok v ≡ out_of_fuel = e in cc
  value_of_ne n (failed m at) h e =
      let e' : ◌≡◌ {A = Result JsonValue} (failed m at) out_of_fuel = e in cc
  value_of_ne n threw h e = let e' : ◌≡◌ {A = Result JsonValue} threw out_of_fuel = e in cc
  value_of_ne n out_of_fuel h e = absurd h.leaves

  empty_ne :
      (c : Bool) (r : Result JsonValue)
      → r ≢ out_of_fuel
      → (if c then failed (codes "Empty input") [] else r) ≢ out_of_fuel
  empty_ne true r h e =
      let e' : ◌≡◌ {A = Result JsonValue} (failed (codes "Empty input") []) out_of_fuel = e in cc
  empty_ne false r h e = h e

  short_parse :
      (b : Bool) (r : Result JsonValue)
      → b ≡ true
      → r ≢ out_of_fuel
      → (if b then r else out_of_fuel) ≢ out_of_fuel
  short_parse true r b h = h
  short_parse false r b h = absurd (let no : false ≡ true = b in cc)

  -- Parse ends on every input shorter than 2^32 - 4: with fuel of twice the length and one
  -- more, the model never runs out of it, whatever the input and the C library's strtod give.
  pub parse-ne-out_of_fuel : (s : Bytes) → length s < position_limit → parse rt s ≢ out_of_fuel
  unfolding parse
  parse-ne-out_of_fuel s short =
      let le = skip_blanks_le s in
      short_parse (ltb (length s) position_limit) _ (ground arith) (
        empty_ne (is_end (skip_blanks s)) _ (
          value_of_ne _ (parse_value rt (2 * length s + 1) (skip_blanks s))
            (Below-parse_value (2 * length s + 1) (skip_blanks s) (omega arith))))
