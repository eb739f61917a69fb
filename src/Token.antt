-- ===== src/Token.antt =====
-- include/gateway/auth/TokenEngine.h and src/auth/TokenEngine.cpp: encrypted access and refresh
-- tokens. Each call holds the mutex of the set of revoked tokens only around its access to the set;
-- a call is one step here. The clock's seconds and the random bytes are arguments. An int64_t is its
-- 64-bit pattern. Log lines are left out.
pub mod Stages
pub mod Payload
pub mod Engine
pub mod Issue
pub mod Revoke
mod Tests
use rest_api_gateway.Prelude.{
  ℕ, zero, suc, ◌+◌, ◌-◌, ◌*◌, ◌/◌, ◌%◌, ◌^◌, Bool, true, false, not, ◌&&◌, List, [], ◌∷◌, ◌++◌,
  Option, none, some, Bytes, ◌=s=◌, length, take, drop, get_or, ltb, leb, ◌==◌, if◌then◌else◌,
}
use rest_api_gateway.Frame.{write_uint32_big_endian, read_uint32_big_endian}

pub data TokenType : Type 0 where
  access refresh : TokenType

pub record TokenPayload : Type 0 where
  pub server_identifier : Bytes
  pub user_identifier : Bytes
  pub token_type : TokenType
  pub creation_timestamp : ℕ
  pub expiry_timestamp : ℕ

-- The order of int64_t on the patterns.
abbrev pub signed_lt : ℕ → ℕ → Bool
signed_lt a b = ltb ((a + 2 ^ 63) % 2 ^ 64) ((b + 2 ^ 63) % 2 ^ 64)

-- The loop from shift 56 down to 0.
unfoldable pub write_int64 : ℕ → Bytes
write_int64 v =
    (v / 2 ^ 56 % 256)
    ∷ (v / 2 ^ 48 % 256)
    ∷ (v / 2 ^ 40 % 256)
    ∷ (v / 2 ^ 32 % 256)
    ∷ (v / 2 ^ 24 % 256)
    ∷ (v / 2 ^ 16 % 256)
    ∷ (v / 2 ^ 8 % 256)
    ∷ (v % 256)
    ∷ []

abbrev pub type_byte : TokenType → ℕ
type_byte access = 0
type_byte refresh = 1

unfoldable pub serialize_payload : TokenPayload → Bytes
serialize_payload p =
    write_uint32_big_endian (length p.server_identifier % 2 ^ 32)
    ++ (p.server_identifier
        ++ (write_uint32_big_endian (length p.user_identifier % 2 ^ 32)
            ++ (p.user_identifier
                ++ (type_byte p.token_type
                    ∷ (write_int64 p.creation_timestamp ++ write_int64 p.expiry_timestamp)))))

-- `out_of_range` is an access behind the end of the vector, `malformed` the result false.
pub data Parsed : Type 0 where
  parsed : TokenPayload → Parsed
  malformed out_of_range : Parsed

-- The loops over eight bytes: `(v << 8) | byte` from 0.
unfoldable pub read_int64 : ℕ → Bytes → ℕ → ℕ → ℕ
read_int64 zero input at v = v
read_int64 (suc n) input at v = read_int64 n input (at + 1) (v * 256 % 2 ^ 64 + get_or input at 0)

-- DeserializePayload from the token type on.
unfoldable pub parse_times : Bytes → ℕ → Bytes → Bytes → Parsed
parse_times input at server user =
    let after = (at + 1) % 2 ^ 32 in
    if leb (at + 1) (length input)
    then (if leb ((after + 16) % 2 ^ 32) (length input)
        then (if leb (after + 16) (length input)
            then parsed (record {
              server_identifier = server;
              user_identifier = user;
              token_type = if get_or input at 0 == 0 then access else refresh;
              creation_timestamp = read_int64 8 input after 0;
              expiry_timestamp = read_int64 8 input (after + 8) 0;
            })
            else out_of_range)
        else malformed)
    else out_of_range

-- DeserializePayload from the length of the user identifier on.
unfoldable pub parse_user : Bytes → ℕ → Bytes → Parsed
parse_user input at server =
    let size = read_uint32_big_endian input at in
    let after = (at + 4) % 2 ^ 32 in
    if leb (at + 4) (length input)
    then (if leb ((after + size + 1 + 16) % 2 ^ 32) (length input)
        then (if leb (after + size) (length input)
            then parse_times input ((after + size) % 2 ^ 32) server (take size (drop after input))
            else out_of_range)
        else malformed)
    else out_of_range

-- The offset and the sums that are compared with the vector's size are uint32_t and wrap around; the
-- iterators do not. For a vector shorter than 2^32 bytes.
unfoldable pub deserialize_payload : Bytes → Parsed
deserialize_payload input =
    let size = read_uint32_big_endian input 0 in
    if leb 25 (length input)
    then (if leb ((4 + size + 4 + 1 + 16) % 2 ^ 32) (length input)
        then (if leb (4 + size) (length input)
            then parse_user input ((4 + size) % 2 ^ 32) (take size (drop 4 input))
            else out_of_range)
        else malformed)
    else malformed
