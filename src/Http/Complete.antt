-- ===== src/Http/Complete.antt =====
-- When Parse calls a request complete.
use rest_api_gateway.Prelude.{
  ℕ, ◌%◌, ◌^◌, ◌≤◌, ◌<◌, ◌≡◌, ◌↔◌, ◌⊎◌, ◌∙◌, refl, subst, true, false, Option, none, some, Bytes,
  codes, length, take, ltb, leb, arith, Bool-cases, Option-cases, inl, inr,
}
use rest_api_gateway.Prelude.Map.{lookup}
use rest_api_gateway.Decimal.{stoul}
use rest_api_gateway.Http.{
  HttpRequest, crlf, blank_line, split_text, parse_headers, Outcome, done, threw, with_body,
  with_length, with_headers, with_line, begun, parse,
}
use rest_api_gateway.Http.Body.{Carries, request_line-Carries}

-- The length that the header field gives, where it is there; it is cut to 32 bits.
abbrev pub IsLength : Option Bytes → ℕ → Type 0
IsLength none n = n ≡ 0
IsLength (some text) n = (m : ℕ) × (stoul text ≡ some m) × (n ≡ m % 2 ^ 32)

-- What Parse says of a request whose head stands before `section_body`, where `before` is the body
-- that it held.
pub record Measures (q : HttpRequest) (before section_body : Bytes) : Type 0 where
  pub announced : IsLength (lookup (codes "content-length") q.headers) q.content_length
  pub complete_iff : (q.is_complete ≡ true) ↔ (q.content_length ≤ length section_body)
  pub body_taken :
      0 < q.content_length → q.is_complete ≡ true → q.body ≡ take q.content_length section_body
  pub body_kept : (q.content_length ≡ 0) ⊎ (q.is_complete ≡ false) → q.body ≡ before

Measures-done :
    (q q' : HttpRequest) (before body : Bytes)
    → Measures q before body
    → done q true ≡ done q' true
    → Measures q' before body
Measures-done q q' before body m e =
    let same : q ≡ q' = cc in subst (λ x. Measures x before body) same m

with_body-Measures :
    (r q : HttpRequest) (body : Bytes) (n : ℕ)
    → r.is_complete ≡ false
    → IsLength (lookup (codes "content-length") r.headers) n
    → with_body r body n ≡ done q true
    → Measures q r.body body
with_body-Measures r q body n h says e = elim (Bool-cases (ltb 0 n)) [
  | inr nothing ↦
      Measures-done (record r { content_length = n; is_complete = true }) q r.body body
        (record {
          announced = says;
          complete_iff = (λ x. ground arith, λ x. refl);
          body_taken = λ x y. absurd (ground arith);
          body_kept = λ x. refl;
        })
        (rw nothing at e)
  | inl some_bytes ↦ elim (Bool-cases (leb n (length body))) [
    | inl there ↦
        Measures-done (record r { content_length = n; body = take n body; is_complete = true }) q
          r.body body
          (record {
            announced = says;
            complete_iff = (λ x. ground arith, λ x. refl);
            body_taken = λ x y. refl;
            body_kept = λ o. elim o [
              | inl zero_length ↦ absurd (ground arith)
              | inr incomplete ↦ absurd (let no : true ≡ false = incomplete in cc)
            ];
          })
          (rw (some_bytes, there) at e)
    | inr missing ↦
        Measures-done (record r { content_length = n }) q r.body body
          (record {
            announced = says;
            complete_iff = (λ x. cc, λ x. absurd (ground arith));
            body_taken = λ x y. cc;
            body_kept = λ x. refl;
          })
          (rw (some_bytes, missing) at e)
  ]
]

with_length-Measures :
    (r q : HttpRequest) (body : Bytes) (field : Option Bytes)
    → r.is_complete ≡ false
    → r.content_length ≡ 0
    → lookup (codes "content-length") r.headers ≡ field
    → with_length r body field ≡ done q true
    → Measures q r.body body
with_length-Measures r q body none h zero_length at e =
    with_body-Measures r q body r.content_length h (rw at zero_length) e
with_length-Measures r q body (some text) h zero_length at e = elim (Option-cases (stoul text)) [
  | inl bad ↦ let clash : threw ≡ done q true = rw bad at e in cc
  | inr (n, good) ↦
      with_body-Measures r q body (n % 2 ^ 32) h (rw at (n, good, refl)) (rw good at e)
]

with_headers-Measures :
    (block body : Bytes) (r : HttpRequest) (o : Outcome) (q : HttpRequest)
    → r.is_complete ≡ false
    → r.content_length ≡ 0
    → Carries r o
    → with_headers block body o ≡ done q true
    → Measures q r.body body
unfolding parse_headers
with_headers-Measures block body r threw q h z c e = cc
with_headers-Measures block body r (done p false) q h z c e = cc
with_headers-Measures block body r (done p true) q h z (complete, (size, (same, fields))) e =
    subst (λ before. Measures q before body) same
      (with_length-Measures (parse_headers block p) q body _ (complete ∙ h) (size ∙ z) refl e)

with_line-Measures :
    (raw body : Bytes) (r q : HttpRequest) (parts : Option (Bytes × Bytes))
    → with_line (begun raw r) body parts ≡ done q true
    → Measures q r.body body
with_line-Measures raw body r q none e = cc
with_line-Measures raw body r q (some (line, block)) e =
    with_headers-Measures block body (begun raw r) _ q refl refl
      (request_line-Carries line (begun raw r)) e

-- Where Parse returns true its bytes have a blank line. The request's content length is the
-- number in its header field content-length, cut to 32 bits, and 0 where there is no such
-- field; the request is complete exactly when the bytes behind the blank line are at least so
-- many. The body of a complete request with a length other than 0 is so many of these bytes; in
-- all other cases the body is the one that the request held before.
pub parse-Measures :
    (raw : Bytes) (r q : HttpRequest)
    → parse raw r ≡ done q true
    → (head : Bytes) × (body : Bytes) × (split_text blank_line raw ≡ some (head, body))
      × Measures q r.body body
unfolding parse
parse-Measures raw r q e = elim (Option-cases (split_text blank_line raw)) [
  | inl missing ↦ let clash : done (begun raw r) false ≡ done q true = rw missing at e in cc
  | inr ((head, body), at) ↦
      (head, body, at, with_line-Measures raw body r q (split_text crlf head) (rw at at e))
]
