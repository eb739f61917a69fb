-- ===== src/Http/Body.antt =====
-- A complete request, and the bytes that arrive behind it.
use rest_api_gateway.Prelude.{
  ℕ, ◌%◌, ◌^◌, ◌≡◌, refl, ap, ◌∙◌, true, false, ◌++◌, Option, none, some, Bytes, length, take, ltb,
  leb, arith, Bool-cases, Option-cases, inl, inr, length-append, take-append_of_le,
}
use rest_api_gateway.Decimal.{stoul}
use rest_api_gateway.Url.{split_at, parse_query_string}
use rest_api_gateway.Http.{
  HttpRequest, crlf, blank_line, split_text, parse_headers, Outcome, done, threw,
  parse_request_line, with_body, with_length, with_headers, with_line, begun, parse,
}
use rest_api_gateway.Http.Stable.{split_text-append}

-- An outcome with other raw bytes in its request.
abbrev again : Bytes → Outcome → Outcome
again raw (done q b) = done (record q { raw_request = raw }) b
again raw threw = threw

request_line_again :
    (line raw : Bytes) (r : HttpRequest)
    → parse_request_line line (record r { raw_request = raw })
      ≡ again raw (parse_request_line line r)
unfolding parse_request_line
request_line_again line raw r = elim (Option-cases (split_at b' ' line)) [
  | inl e ↦ rw e refl
  | inr ((method, rest), e) ↦ elim (Option-cases (split_at b' ' rest)) [
    | inl e' ↦ rw (e, e') refl
    | inr ((uri, version), e') ↦ elim (Option-cases (split_at b'?' uri)) [
      | inl e'' ↦ rw (e, e', e'') refl
      | inr ((path, query), e'') ↦
          elim (Option-cases (parse_query_string query r.query_parameters)) [
            | inl bad ↦ rw (e, e', e'', bad) refl
            | inr (params, good) ↦ rw (e, e', e'', good) refl
          ]
    ]
  ]
]

with_body-again :
    (r : HttpRequest) (raw body : Bytes) (n : ℕ)
    → with_body (record r { raw_request = raw }) body n ≡ again raw (with_body r body n)
with_body-again r raw body n = elim (Bool-cases (ltb 0 n)) [
  | inr nothing ↦ rw nothing refl
  | inl some_bytes ↦ elim (Bool-cases (leb n (length body))) [
    | inl there ↦ rw (some_bytes, there) refl
    | inr missing ↦ rw (some_bytes, missing) refl
  ]
]

with_length-again :
    (r : HttpRequest) (raw body : Bytes) (field : Option Bytes)
    → with_length (record r { raw_request = raw }) body field ≡ again raw (with_length r body field)
with_length-again r raw body none = with_body-again r raw body r.content_length
with_length-again r raw body (some text) = elim (Option-cases (stoul text)) [
  | inl bad ↦ rw bad refl
  | inr (n, good) ↦ rw good (with_body-again r raw body (n % 2 ^ 32))
]

with_headers-again :
    (block raw body : Bytes) (o : Outcome)
    → with_headers block body (again raw o) ≡ again raw (with_headers block body o)
unfolding parse_headers
with_headers-again block raw body threw = refl
with_headers-again block raw body (done r false) = refl
with_headers-again block raw body (done r true) =
    with_length-again (parse_headers block r) raw body _

-- The request line leaves the mark of completeness, the length, the body and the headers alone.
abbrev pub Carries : HttpRequest → Outcome → Type 0
Carries r (done q b) =
    (q.is_complete ≡ r.is_complete)
    × ((q.content_length ≡ r.content_length) × ((q.body ≡ r.body) × (q.headers ≡ r.headers)))
Carries r threw = Unit {0}

pub request_line-Carries : (line : Bytes) (r : HttpRequest) → Carries r (parse_request_line line r)
unfolding parse_request_line
request_line-Carries line r = elim (Option-cases (split_at b' ' line)) [
  | inl e ↦ rw e (refl, (refl, (refl, refl)))
  | inr ((method, rest), e) ↦ elim (Option-cases (split_at b' ' rest)) [
    | inl e' ↦ rw (e, e') (refl, (refl, (refl, refl)))
    | inr ((uri, version), e') ↦ elim (Option-cases (split_at b'?' uri)) [
      | inl e'' ↦ rw (e, e', e'') (refl, (refl, (refl, refl)))
      | inr ((path, query), e'') ↦
          elim (Option-cases (parse_query_string query r.query_parameters)) [
            | inl bad ↦ rw (e, e', e'', bad) tt
            | inr (params, good) ↦ rw (e, e', e'', good) (refl, (refl, (refl, refl)))
          ]
    ]
  ]
]

abbrev Waits : Outcome → Type 0
Waits (done q b) = q.is_complete ≡ false
Waits threw = Unit {0}

Waits-Carries : (r : HttpRequest) (o : Outcome) → r.is_complete ≡ false → Carries r o → Waits o
Waits-Carries r (done q b) h c = c.0 ∙ h
Waits-Carries r threw h c = tt

request_line-Waits :
    (line : Bytes) (r : HttpRequest) → r.is_complete ≡ false → Waits (parse_request_line line r)
request_line-Waits line r h = Waits-Carries r _ h (request_line-Carries line r)

-- A complete request stays as it is when more bytes stand behind the body.
with_body-more :
    (r q : HttpRequest) (body more : Bytes) (n : ℕ)
    → r.is_complete ≡ false
    → with_body r body n ≡ done q true
    → q.is_complete ≡ true
    → with_body r (body ++ more) n ≡ done q true
with_body-more r q body more n h e complete = elim (Bool-cases (ltb 0 n)) [
  | inr nothing ↦ rw nothing (rw nothing at e)
  | inl some_bytes ↦ elim (Bool-cases (leb n (length body))) [
    | inl there ↦
        let longer : leb n (length (body ++ more)) ≡ true =
          ground (arith, length-append body more) in
        let same : take n (body ++ more) ≡ take n body =
          take-append_of_le n body more (ground arith) in
        rw (some_bytes, longer, same) (rw (some_bytes, there) at e)
    | inr missing ↦
        let waiting : ◌≡◌ {A = Outcome} (done (record r { content_length = n }) true)
            (done q true) =
          rw (some_bytes, missing) at e in
        let same : record r { content_length = n } ≡ q = cc in
        let clash : r.is_complete ≡ q.is_complete = ap (λ (x : HttpRequest). x.is_complete) same in
        cc
  ]
]

with_length-more :
    (r q : HttpRequest) (body more : Bytes) (field : Option Bytes)
    → r.is_complete ≡ false
    → with_length r body field ≡ done q true
    → q.is_complete ≡ true
    → with_length r (body ++ more) field ≡ done q true
with_length-more r q body more none h e complete =
    with_body-more r q body more r.content_length h e complete
with_length-more r q body more (some text) h e complete = elim (Option-cases (stoul text)) [
  | inl bad ↦ let clash : threw ≡ done q true = rw bad at e in cc
  | inr (n, good) ↦ rw good (with_body-more r q body more (n % 2 ^ 32) h (rw good at e) complete)
]

with_headers-more :
    (block body more : Bytes) (o : Outcome) (q : HttpRequest)
    → Waits o
    → with_headers block body o ≡ done q true
    → q.is_complete ≡ true
    → with_headers block (body ++ more) o ≡ done q true
unfolding parse_headers
with_headers-more block body more threw q w e complete = cc
with_headers-more block body more (done r false) q w e complete = e
with_headers-more block body more (done r true) q w e complete =
    with_length-more (parse_headers block r) q body more _ w e complete

with_line-more :
    (raw later body more : Bytes) (r q : HttpRequest) (parts : Option (Bytes × Bytes))
    → with_line (begun raw r) body parts ≡ done q true
    → q.is_complete ≡ true
    → with_line (begun later r) (body ++ more) parts ≡ done (record q { raw_request = later }) true
with_line-more raw later body more r q none e complete = cc
with_line-more raw later body more r q (some (line, block)) e complete =
    ap (with_headers block (body ++ more)) (request_line_again line later (begun raw r))
    ∙ with_headers-again block later (body ++ more) (parse_request_line line (begun raw r))
    ∙ ap (again later) (
        with_headers-more block body more (parse_request_line line (begun raw r)) q
          (request_line-Waits line (begun raw r) refl) e complete)

-- Once Parse finds a complete request, more bytes behind it change nothing in the result but
-- the raw bytes that it records.
pub parse-append :
    (raw more : Bytes) (r q : HttpRequest)
    → parse raw r ≡ done q true
    → q.is_complete ≡ true
    → parse (raw ++ more) r ≡ done (record q { raw_request = raw ++ more }) true
unfolding parse
parse-append raw more r q e complete = elim (Option-cases (split_text blank_line raw)) [
  | inl missing ↦ let clash : done (begun raw r) false ≡ done q true = rw missing at e in cc
  | inr ((head, body), at) ↦
      rw (split_text-append blank_line raw head body more at) (
        with_line-more raw (raw ++ more) body more r q (split_text crlf head) (rw at at e) complete)
]
