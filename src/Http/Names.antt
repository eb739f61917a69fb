-- ===== src/Http/Names.antt =====
-- The names of header fields are kept without capital letters.
use rest_api_gateway.Prelude.{
  ℕ, ◌≡◌, sym, subst, Bool, true, false, List, [], ◌∷◌, ◌++◌, Option, none, some, Bytes, leb, ◌==◌,
  ◌%◌, ◌^◌, ◌<◌, ◌⊎◌, ◌&&◌, ltb, length, ◌=s=◌, arith, All, Bool-cases, Option-cases, inl, inr,
}
use rest_api_gateway.Prelude.Map.{insert}
use rest_api_gateway.Decimal.{stoul}
use rest_api_gateway.Http.{
  HttpRequest, crlf, blank_line, split_text, lower, to_lower_case, add_field, add_line, parse_lines,
  parse_headers, Outcome, done, threw, with_body, with_length, with_headers, with_head, begun,
  parse,
}
use rest_api_gateway.Http.Body.{Carries, request_line-Carries}

-- Not one of the letters from A, 65, to Z, 90.
abbrev pub IsNoCapital : ℕ → Type 0
IsNoCapital c = (c < 65) ⊎ (90 < c)

-- A field under a name without capital letters.
abbrev pub IsLower : (Bytes × Bytes) → Type 0
IsLower (name, value) = All IsNoCapital name

IsNoCapital-lower : (c : ℕ) → IsNoCapital (lower c)
IsNoCapital-lower c = elim (Bool-cases (leb b'A' c && leb c b'Z')) [
  | inl capital ↦ rw capital (inr (ground arith))
  | inr other ↦ rw other (elim (Bool-cases (leb b'A' c)) [
    | inl above ↦ inr (ground arith)
    | inr below ↦ inl (ground arith)
  ])
]

to_lower_case-IsNoCapital : (s : Bytes) → All IsNoCapital (to_lower_case s)
unfolding to_lower_case
to_lower_case-IsNoCapital [] = tt
to_lower_case-IsNoCapital (c ∷ s) = (IsNoCapital-lower c, to_lower_case-IsNoCapital s)

insert-IsLower :
    (name value : Bytes) (headers : List (Bytes × Bytes))
    → IsLower (name, value)
    → All IsLower headers
    → All IsLower (insert name value headers)
unfolding insert
insert-IsLower name value [] h k = (h, tt)
insert-IsLower name value ((n, v) ∷ headers) h (k, ks) = elim (Bool-cases (n =s= name)) [
  | inl same ↦ rw same (h, ks)
  | inr other ↦ rw other (k, insert-IsLower name value headers h ks)
]

add_field-IsLower :
    (parts : Option (Bytes × Bytes)) (headers : List (Bytes × Bytes))
    → All IsLower headers
    → All IsLower (add_field parts headers)
add_field-IsLower none headers h = h
add_field-IsLower (some (name, value)) headers h =
    insert-IsLower (to_lower_case name) _ headers (to_lower_case-IsNoCapital name) h

parse_lines-IsLower :
    (line block : Bytes) (headers : List (Bytes × Bytes))
    → All IsLower headers
    → All IsLower (parse_lines line block headers)
unfolding parse_lines add_line
parse_lines-IsLower line [] headers h = add_field-IsLower _ headers h
parse_lines-IsLower line (c ∷ s) headers h = elim (Bool-cases (c == 10)) [
  | inl ends ↦ rw ends (parse_lines-IsLower [] s _ (add_field-IsLower _ headers h))
  | inr inside ↦ rw inside (parse_lines-IsLower (line ++ c ∷ []) s headers h)
]

-- An outcome whose request has such fields only.
abbrev HasLower : Outcome → Type 0
HasLower (done q b) = All IsLower q.headers
HasLower threw = Unit {0}

HasLower-Carries :
    (r : HttpRequest) (o : Outcome) → All IsLower r.headers → Carries r o → HasLower o
HasLower-Carries r (done q b) h c = subst (All IsLower) (sym c.1.1.1) h
HasLower-Carries r threw h c = tt

with_body-HasLower :
    (r : HttpRequest) (body : Bytes) (n : ℕ) → All IsLower r.headers → HasLower (with_body r body n)
with_body-HasLower r body n h = elim (Bool-cases (ltb 0 n)) [
  | inr nothing ↦ rw nothing h
  | inl some_bytes ↦ elim (Bool-cases (leb n (length body))) [
    | inl there ↦ rw (some_bytes, there) h
    | inr missing ↦ rw (some_bytes, missing) h
  ]
]

with_length-HasLower :
    (r : HttpRequest) (body : Bytes) (field : Option Bytes)
    → All IsLower r.headers
    → HasLower (with_length r body field)
with_length-HasLower r body none h = with_body-HasLower r body r.content_length h
with_length-HasLower r body (some text) h = elim (Option-cases (stoul text)) [
  | inl bad ↦ rw bad tt
  | inr (n, good) ↦ rw good (with_body-HasLower r body (n % 2 ^ 32) h)
]

with_headers-HasLower :
    (block body : Bytes) (o : Outcome) → HasLower o → HasLower (with_headers block body o)
unfolding parse_headers
with_headers-HasLower block body threw h = tt
with_headers-HasLower block body (done r false) h = h
with_headers-HasLower block body (done r true) h =
    with_length-HasLower (parse_headers block r) body _ (parse_lines-IsLower [] block r.headers h)

with_head-HasLower :
    (r : HttpRequest) (parts : Option (Bytes × Bytes))
    → All IsLower r.headers
    → HasLower (with_head r parts)
with_head-HasLower r none h = h
with_head-HasLower r (some (head, body)) h = elim (Option-cases (split_text crlf head)) [
  | inl missing ↦ rw missing h
  | inr ((line, block), at) ↦
      rw at
        (with_headers-HasLower block body _ (HasLower-Carries r _ h (request_line-Carries line r)))
]

-- Whatever the bytes are and whatever Parse returns, no name of a header field of its request
-- has a letter from A to Z, where none of those it began with does.
pub parse-IsLower :
    (raw : Bytes) (r q : HttpRequest) (b : Bool)
    → All IsLower r.headers
    → parse raw r ≡ done q b
    → All IsLower q.headers
unfolding parse
parse-IsLower raw r q b h e =
    subst HasLower e (with_head-HasLower (begun raw r) (split_text blank_line raw) h)
