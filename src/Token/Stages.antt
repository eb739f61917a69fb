-- ===== src/Token/Stages.antt =====
-- The stages of DeserializePayload, and reading behind a front part of known length.
use rest_api_gateway.Prelude.{
  ℕ, zero, suc, ◌+◌, ◌*◌, ◌%◌, ◌^◌, ◌<◌, ◌≤◌, ◌≡◌, refl, sym, ap, ◌∙◌, [], ◌∷◌, ◌++◌, Bytes, length,
  take, drop, get_or, ◌==◌, if◌then◌else◌, arith, length-append, drop-length_append, append_assoc,
}
use rest_api_gateway.Frame.{read_uint32_big_endian}
use rest_api_gateway.Token.{
  access, refresh, TokenPayload, write_int64, type_byte, parsed, read_int64, parse_times,
  parse_user, deserialize_payload,
}

get_or-append_right : (xs ys : Bytes) (i : ℕ) → get_or (xs ++ ys) (length xs + i) 0 ≡ get_or ys i 0
get_or-append_right [] ys i = ap (λ (n : ℕ). get_or ys n 0) (omega arith)
get_or-append_right (x ∷ xs) ys i =
    let e : suc (length xs) + i ≡ suc (length xs + i) = omega arith in
    rw e (get_or-append_right xs ys i)

-- A word behind a front part is the word at its own place in what follows.
read_uint32-behind :
    (xs ys : Bytes) (at : ℕ)
    → read_uint32_big_endian (xs ++ ys) (length xs + at) ≡ read_uint32_big_endian ys at
unfolding read_uint32_big_endian
read_uint32-behind xs ys at =
    let next : (i : ℕ) → get_or (xs ++ ys) (length xs + at + i) 0 ≡ get_or ys (at + i) 0 = λ i.
      ap (λ (n : ℕ). get_or (xs ++ ys) n 0) (omega arith) ∙ get_or-append_right xs ys (at + i) in
    omega (arith, get_or-append_right xs ys at, next 1, next 2, next 3)

read_int64-behind :
    (n : ℕ) (xs ys : Bytes) (at v : ℕ)
    → read_int64 n (xs ++ ys) (length xs + at) v ≡ read_int64 n ys at v
unfolding read_int64
read_int64-behind zero xs ys at v = refl
read_int64-behind (suc n) xs ys at v = rw (get_or-append_right xs ys at) (
    ap (λ (i : ℕ). read_int64 n (xs ++ ys) i (v * 256 % 2 ^ 64 + get_or ys at 0)) (omega arith)
    ∙ read_int64-behind n xs ys (at + 1) (v * 256 % 2 ^ 64 + get_or ys at 0))

pub read-write_int64 :
    (v : ℕ) (rest : Bytes) → v < 2 ^ 64 → read_int64 8 (write_int64 v ++ rest) 0 0 ≡ v
unfolding read_int64 write_int64
read-write_int64 v rest h = omega arith

-- Each stage of the parse, where the input is long enough and no sum wraps around.
pub parse_times_step :
    (input : Bytes) (at : ℕ) (p : TokenPayload)
    → at + 17 ≤ length input
    → length input < 2 ^ 32
    → get_or input at 0 ≡ type_byte p.token_type
    → read_int64 8 input (at + 1) 0 ≡ p.creation_timestamp
    → read_int64 8 input (at + 9) 0 ≡ p.expiry_timestamp
    → parse_times input at p.server_identifier p.user_identifier ≡ parsed p
unfolding parse_times
parse_times_step input at p long short e c x =
    let after : (at + 1) % 2 ^ 32 ≡ at + 1 = omega arith in
    let nine : at + 1 + 8 ≡ at + 9 = omega arith in
    let kind : (if get_or input at 0 == 0 then access else refresh) ≡ p.token_type = ground arith in
    rw after (rw (nine, c, x, kind) (ground arith))

pub parse_user_step :
    (input : Bytes) (at : ℕ) (server user : Bytes)
    → at + 4 + length user + 17 ≤ length input
    → length input < 2 ^ 32
    → read_uint32_big_endian input at ≡ length user
    → take (length user) (drop (at + 4) input) ≡ user
    → parse_user input at server ≡ parse_times input (at + 4 + length user) server user
unfolding parse_user
parse_user_step input at server user long short e t =
    let after : (at + 4) % 2 ^ 32 ≡ at + 4 = omega arith in rw (e, after) (ground (arith, t))

pub deserialize_step :
    (input server : Bytes)
    → 4 + length server + 21 ≤ length input
    → length input < 2 ^ 32
    → read_uint32_big_endian input 0 ≡ length server
    → take (length server) (drop 4 input) ≡ server
    → deserialize_payload input ≡ parse_user input (4 + length server) server
unfolding deserialize_payload
deserialize_step input server long short e t = rw e (ground (arith, t))

-- An input with a front part of a known length.
pub record Behind (input rest : Bytes) (at : ℕ) : Type 0 where
  pub front : Bytes
  pub shape : input ≡ front ++ rest
  pub size : at ≡ length front

module _ {input rest : Bytes} {at : ℕ} (b : Behind input rest at) where
  pub read_uint32_at : read_uint32_big_endian input at ≡ read_uint32_big_endian rest 0
  read_uint32_at =
      let e : at ≡ length b.front + 0 = omega (arith, b.size) in
      rw (e, b.shape) (read_uint32-behind b.front rest 0)

  pub get_or_at : get_or input at 0 ≡ get_or rest 0 0
  get_or_at =
      let e : at ≡ length b.front + 0 = omega (arith, b.size) in
      rw (e, b.shape) (get_or-append_right b.front rest 0)

  pub read_int64_at : read_int64 8 input at 0 ≡ read_int64 8 rest 0 0
  read_int64_at =
      let e : at ≡ length b.front + 0 = omega (arith, b.size) in
      rw (e, b.shape) (read_int64-behind 8 b.front rest 0 0)

  pub drop_at : drop at input ≡ rest
  drop_at = rw (b.size, b.shape) (drop-length_append b.front rest)

  pub further : (part tail : Bytes) → rest ≡ part ++ tail → Behind input tail (at + length part)
  further part tail e = record {
    front = b.front ++ part;
    shape = b.shape ∙ ap (λ xs. b.front ++ xs) e ∙ sym (append_assoc b.front part tail);
    size = omega (arith, b.size, length-append b.front part);
  }
