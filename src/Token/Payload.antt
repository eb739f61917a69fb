-- ===== src/Token/Payload.antt =====
-- The payload's bytes and their parsing.
use rest_api_gateway.Prelude.{
  ℕ, ◌+◌, ◌-◌, ◌%◌, ◌^◌, ◌<◌, ◌≤◌, ◌≡◌, refl, sym, ap, ◌∙◌, [], ◌∷◌, ◌++◌, Bytes, length, get_or,
  arith, IsByte, All, All-append, length-append, take-length_append, append-nil,
}
use rest_api_gateway.Frame.{write_uint32_big_endian, read_uint32_big_endian}
use rest_api_gateway.Frame.Words.{read-write_uint32}
use rest_api_gateway.Token.{
  TokenType, access, refresh, TokenPayload, write_int64, type_byte, serialize_payload, parsed,
  out_of_range, read_int64, deserialize_payload,
}
use rest_api_gateway.Token.Stages.{
  read-write_int64, parse_times_step, parse_user_step, deserialize_step, Behind, read_uint32_at,
  get_or_at, read_int64_at, drop_at, further,
}

-- What a payload is in the engine: texts that fit in the format, and 64-bit times.
pub record IsPayload (p : TokenPayload) : Type 0 where
  pub short : length p.server_identifier + length p.user_identifier + 25 < 2 ^ 32
  pub creation_word : p.creation_timestamp < 2 ^ 64
  pub expiry_word : p.expiry_timestamp < 2 ^ 64
  pub server_bytes : All IsByte p.server_identifier
  pub user_bytes : All IsByte p.user_identifier

module _ (p : TokenPayload) (h : IsPayload p) where
  input : Bytes
  input = serialize_payload p

  server_size : Bytes
  server_size = write_uint32_big_endian (length p.server_identifier % 2 ^ 32)

  user_size : Bytes
  user_size = write_uint32_big_endian (length p.user_identifier % 2 ^ 32)

  times : Bytes
  times =
      type_byte p.token_type ∷ (write_int64 p.creation_timestamp ++ write_int64 p.expiry_timestamp)

  at_start :
      Behind input
        (server_size ++ (p.server_identifier ++ (user_size ++ (p.user_identifier ++ times))))
        0
  unfolding input serialize_payload server_size user_size times
  at_start = record { front = []; shape = refl; size = refl }

  at_server : Behind input (p.server_identifier ++ (user_size ++ (p.user_identifier ++ times))) 4
  unfolding server_size write_uint32_big_endian
  at_server = further at_start server_size _ refl

  at_user_size :
      Behind input (user_size ++ (p.user_identifier ++ times)) (4 + length p.server_identifier)
  at_user_size = further at_server p.server_identifier _ refl

  at_user : Behind input (p.user_identifier ++ times) (4 + length p.server_identifier + 4)
  unfolding user_size write_uint32_big_endian
  at_user = further at_user_size user_size _ refl

  at_times : Behind input times (4 + length p.server_identifier + 4 + length p.user_identifier)
  at_times = further at_user p.user_identifier _ refl

  length-input : length input ≡ length p.server_identifier + length p.user_identifier + 25
  unfolding times write_int64
  length-input =
      omega (arith, at_times.size, length-append at_times.front times, ap length at_times.shape)

  at_creation :
      Behind input
        (write_int64 p.creation_timestamp ++ write_int64 p.expiry_timestamp)
        (4 + length p.server_identifier + 4 + length p.user_identifier + 1)
  unfolding times
  at_creation = further at_times (type_byte p.token_type ∷ []) _ refl

  at_expiry :
      Behind input
        (write_int64 p.expiry_timestamp)
        (4 + length p.server_identifier + 4 + length p.user_identifier + 1 + 8)
  unfolding write_int64
  at_expiry = further at_creation (write_int64 p.creation_timestamp) _ refl

  creation_read :
      read_int64 8 input (4 + length p.server_identifier + 4 + length p.user_identifier + 1) 0
      ≡ p.creation_timestamp
  creation_read =
      read_int64_at at_creation
      ∙ read-write_int64 p.creation_timestamp (write_int64 p.expiry_timestamp) h.creation_word

  expiry_read :
      read_int64 8 input (4 + length p.server_identifier + 4 + length p.user_identifier + 9) 0
      ≡ p.expiry_timestamp
  expiry_read =
      let nine : 4 + length p.server_identifier + 4 + length p.user_identifier + 9
          ≡ 4 + length p.server_identifier + 4 + length p.user_identifier + 1 + 8 =
        omega arith in
      rw nine (
        read_int64_at at_expiry
        ∙ ap (λ xs. read_int64 8 xs 0 0) (sym (append-nil (write_int64 p.expiry_timestamp)))
        ∙ read-write_int64 p.expiry_timestamp [] h.expiry_word)

  type_read :
      get_or input (4 + length p.server_identifier + 4 + length p.user_identifier) 0
      ≡ type_byte p.token_type
  unfolding times
  type_read = get_or_at at_times

  server_size_read : read_uint32_big_endian input 0 ≡ length p.server_identifier
  unfolding server_size
  server_size_read =
      read_uint32_at at_start
      ∙ read-write_uint32 (length p.server_identifier % 2 ^ 32) _ (omega arith)
      ∙ omega (arith, h.short)

  user_size_read :
      read_uint32_big_endian input (4 + length p.server_identifier) ≡ length p.user_identifier
  unfolding user_size
  user_size_read =
      read_uint32_at at_user_size
      ∙ read-write_uint32 (length p.user_identifier % 2 ^ 32) _ (omega arith)
      ∙ omega (arith, h.short)

  deserialize_input : deserialize_payload input ≡ parsed p
  deserialize_input =
      deserialize_step input p.server_identifier (omega (arith, length-input))
        (omega (arith, length-input, h.short)) server_size_read
        (rw (drop_at at_server) (take-length_append p.server_identifier _))
      ∙ parse_user_step input (4 + length p.server_identifier) p.server_identifier p.user_identifier
          (omega (arith, length-input)) (omega (arith, length-input, h.short)) user_size_read
          (rw (drop_at at_user) (take-length_append p.user_identifier _))
      ∙ parse_times_step input (4 + length p.server_identifier + 4 + length p.user_identifier) p
          (omega (arith, length-input)) (omega (arith, length-input, h.short)) type_read
          creation_read expiry_read

-- DeserializePayload reads back every payload that SerializePayload wrote, for identifiers of
-- bytes whose whole payload is shorter than 2^32 and 64-bit times.
pub deserialize-serialize :
    (p : TokenPayload) → IsPayload p → deserialize_payload (serialize_payload p) ≡ parsed p
unfolding input
deserialize-serialize p h = deserialize_input p h

pub length-serialize_payload :
    (p : TokenPayload)
    → IsPayload p
    → length (serialize_payload p) ≡ length p.server_identifier + length p.user_identifier + 25
unfolding input
length-serialize_payload p h = length-input p h

-- For an input of 25 bytes or more, shorter than 2^31: a server length field of 2^32 - 25 or
-- more passes the check of the bounds in DeserializePayload, and the parse reads behind the end
-- of the bytes.
pub deserialize_payload_overflow :
    (input : Bytes)
    → 25 ≤ length input
    → length input < 2 ^ 31
    → 2 ^ 32 - 25 ≤ read_uint32_big_endian input 0
    → read_uint32_big_endian input 0 < 2 ^ 32
    → deserialize_payload input ≡ out_of_range
unfolding deserialize_payload
deserialize_payload_overflow input long short big word = ground arith

write_uint32_bytes : (v : ℕ) → All IsByte (write_uint32_big_endian v)
unfolding write_uint32_big_endian
write_uint32_bytes v = (omega arith, (omega arith, (omega arith, (omega arith, tt))))

write_int64_bytes : (v : ℕ) → All IsByte (write_int64 v)
unfolding write_int64
write_int64_bytes v = (
  omega arith,
  (
    omega arith,
    (omega arith, (omega arith, (omega arith, (omega arith, (omega arith, (omega arith, tt)))))),
  ),
)

type_byte-IsByte : (t : TokenType) → IsByte (type_byte t)
type_byte-IsByte access = omega arith
type_byte-IsByte refresh = omega arith

pub serialize_payload_bytes : (p : TokenPayload) → IsPayload p → All IsByte (serialize_payload p)
unfolding serialize_payload
serialize_payload_bytes p h = All-append IsByte _ _ (write_uint32_bytes _) (
    All-append IsByte _ _ h.server_bytes (
      All-append IsByte _ _ (write_uint32_bytes _) (
        All-append IsByte _ _ h.user_bytes (
          type_byte-IsByte p.token_type,
          All-append IsByte _ _ (write_int64_bytes p.creation_timestamp)
              (write_int64_bytes p.expiry_timestamp),
        ))))
