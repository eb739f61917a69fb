-- ===== src/Json/Total/Steps.antt =====
-- The loops of arrays and objects, with parsers of their parts that stay below their bounds.
use rest_api_gateway.Prelude.{suc, ◌<◌, ◌≤◌, ◌||◌, [], ◌∷◌, Bytes, length, drop, ◌==◌, arith}
use rest_api_gateway.Runtime.{Runtime}
use rest_api_gateway.Json.{JsonValue, Elements, Members, no_members, set_key}
use rest_api_gateway.Json.Parser.{
  Result, skip_blanks, starts, is_end, starts_number, parse_string, parse_array, parse_object,
  read_element, after_element, read_member, after_member, after_key, dispatch,
}
use rest_api_gateway.Json.Total.Below.{
  Below, Below-failed, Below-ok, Below-mono, Below-if, Below-bind, Below-parse_string,
  Below-parse_null, Below-parse_boolean, Below-parse_number, Below-parse_string_value,
  skip_blanks_le, drop-starts,
}

abbrev pub Elems : Type 0
Elems = Bytes → Result (Elements × Bytes)

abbrev pub Membs : Type 0
Membs = Members → Bytes → Result (Members × Bytes)

module _ (value : Bytes → Result (JsonValue × Bytes)) (more : Elems) where
  Below-after_element :
      (v : JsonValue) (s : Bytes)
      → ((t : Bytes) → length t < length s → Below (suc (length t)) (more t))
      → Below (suc (length s)) (after_element more v s)
  unfolding after_element
  Below-after_element v s h =
      Below-if (starts b',' s)
        (λ e.
          let less = drop-starts b',' s e in
          Below-bind _ _ (more (drop 1 s)) _ (h (drop 1 s) less)
            (λ xs rest k. Below-ok _ _ _ (omega arith)))
        λ _.
          Below-if (starts b']' s)
            (λ e. let less = drop-starts b']' s e in Below-ok _ _ _ (omega arith))
            (λ _. Below-failed _ _ _)

  pub Below-read_element :
      (s : Bytes)
      → ((t : Bytes) → length t ≤ length s → Below (length t) (value t))
      → ((t : Bytes) → length t < length s → Below (suc (length t)) (more t))
      → Below (suc (length s)) (read_element value more s)
  unfolding read_element
  Below-read_element s hv h =
      let le = skip_blanks_le s in
      Below-if (is_end s) (λ _. Below-ok _ _ _ (omega arith))
        λ _. Below-bind _ _ (value (skip_blanks s)) _ (hv (skip_blanks s) le) λ v rest k.
          let le' = skip_blanks_le rest in
          Below-mono (suc (length (skip_blanks rest))) _ _ (omega arith)
            (Below-after_element v (skip_blanks rest) (λ t kt. h t (omega arith)))

module _ (value : Bytes → Result (JsonValue × Bytes)) (more : Membs) where
  Below-after_member :
      (ms : Members) (s : Bytes)
      → ((ns : Members) (t : Bytes) → length t < length s → Below (suc (length t)) (more ns t))
      → Below (suc (length s)) (after_member more ms s)
  unfolding after_member
  Below-after_member ms s h =
      Below-if (starts b',' s)
        (λ e.
          let less = drop-starts b',' s e in
          Below-mono (suc (length (drop 1 s))) _ _ (omega arith) (h ms (drop 1 s) less))
        λ _.
          Below-if (starts b'}' s)
            (λ e. let less = drop-starts b'}' s e in Below-ok _ _ _ (omega arith))
            (λ _. Below-failed _ _ _)

  Below-after_key :
      (ms : Members) (k s : Bytes)
      → ((t : Bytes) → length t ≤ length s → Below (length t) (value t))
      → ((ns : Members) (t : Bytes) → length t < length s → Below (suc (length t)) (more ns t))
      → Below (suc (length s)) (after_key value more ms k s)
  unfolding after_key
  Below-after_key ms k s hv h =
      Below-if (starts b':' s)
        (λ e.
          let less = drop-starts b':' s e in
          let le = skip_blanks_le (drop 1 s) in
          Below-bind _ _ (value (skip_blanks (drop 1 s))) _
            (hv (skip_blanks (drop 1 s)) (omega arith))
            λ v rest kr.
              let le' = skip_blanks_le rest in
              Below-mono (suc (length (skip_blanks rest))) _ _ (omega arith) (
                Below-after_member (set_key k v ms) (skip_blanks rest)
                  (λ ns t kt. h ns t (omega arith))))
        (λ _. Below-failed _ _ _)

  pub Below-read_member :
      (ms : Members) (s : Bytes)
      → ((t : Bytes) → length t ≤ length s → Below (length t) (value t))
      → ((ns : Members) (t : Bytes) → length t < length s → Below (suc (length t)) (more ns t))
      → Below (suc (length s)) (read_member value more ms s)
  unfolding read_member
  Below-read_member ms s hv h =
      let le = skip_blanks_le s in
      Below-if (is_end s) (λ _. Below-ok _ _ _ (omega arith))
        λ _.
          Below-bind _ _ (parse_string (skip_blanks s)) _ (Below-parse_string (skip_blanks s))
            λ k rest kr.
              let le' = skip_blanks_le rest in
              Below-mono (suc (length (skip_blanks rest))) _ _ (omega arith) (
                Below-after_key ms k (skip_blanks rest) (λ t kt. hv t (omega arith))
                  (λ ns t kt. h ns t (omega arith)))

Below-parse_array :
    (elements : Elems) (s : Bytes)
    → ((t : Bytes) → length t ≤ length s → Below (suc (length t)) (elements t))
    → Below (suc (length s)) (parse_array elements s)
unfolding parse_array
Below-parse_array elements s h =
    let le = skip_blanks_le s in
    Below-if (starts b']' (skip_blanks s))
      (λ e. let less = drop-starts b']' (skip_blanks s) e in Below-ok _ _ _ (omega arith))
      λ _.
        Below-bind _ _ (elements (skip_blanks s)) _ (h (skip_blanks s) le)
          (λ xs rest k. Below-ok _ _ _ (omega arith))

Below-parse_object :
    (members : Membs) (s : Bytes)
    → ((ms : Members) (t : Bytes) → length t ≤ length s → Below (suc (length t)) (members ms t))
    → Below (suc (length s)) (parse_object members s)
unfolding parse_object
Below-parse_object members s h =
    let le = skip_blanks_le s in
    Below-if (starts b'}' (skip_blanks s))
      (λ e. let less = drop-starts b'}' (skip_blanks s) e in Below-ok _ _ _ (omega arith))
      λ _.
        Below-bind _ _ (members no_members (skip_blanks s)) _ (h no_members (skip_blanks s) le)
          (λ xs rest k. Below-ok _ _ _ (omega arith))

pub Below-dispatch :
    (rt : Runtime) (elements : Elems) (members : Membs) (s : Bytes)
    → ((t : Bytes) → length t < length s → Below (suc (length t)) (elements t))
    → ((ms : Members) (t : Bytes) → length t < length s → Below (suc (length t)) (members ms t))
    → Below (length s) (dispatch rt elements members s)
unfolding dispatch
Below-dispatch rt elements members [] he hm = Below-failed _ _ _
Below-dispatch rt elements members (c ∷ s) he hm =
    Below-if (c == b'n') (λ _. Below-parse_null (c ∷ s))
      λ _.
        Below-if (c == b't' || c == b'f') (λ _. Below-parse_boolean (c ∷ s))
          λ _.
            Below-if (starts_number (c ∷ s)) (λ _. Below-parse_number rt (c ∷ s))
              λ _.
                Below-if (c == b'"') (λ _. Below-parse_string_value (c ∷ s))
                  λ _.
                    Below-if (c == b'[')
                      (λ _. Below-parse_array elements s (λ t k. he t (omega arith)))
                      λ _.
                        Below-if (c == b'{')
                          (λ _. Below-parse_object members s (λ ms t k. hm ms t (omega arith)))
                          (λ _. Below-failed _ _ _)
