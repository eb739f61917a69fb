-- ===== src/Frame/Words.antt =====
-- A big-endian word is read back as it was written.
use rest_api_gateway.Prelude.{ℕ, ◌^◌, ◌<◌, ◌≡◌, refl, Bytes, ◌++◌, length, arith}
use rest_api_gateway.Frame.{
  FrameType, frame_type_code, frame_type_of, write_uint32_big_endian, read_uint32_big_endian,
  unnamed,
}

pub length-write_uint32 : (v : ℕ) → length (write_uint32_big_endian v) ≡ 4
unfolding write_uint32_big_endian
length-write_uint32 v = refl

pub read-write_uint32 :
    (v : ℕ) (rest : Bytes)
    → v < 2 ^ 32
    → read_uint32_big_endian (write_uint32_big_endian v ++ rest) 0 ≡ v
unfolding read_uint32_big_endian write_uint32_big_endian
read-write_uint32 v rest h = omega arith

-- The enumerators, and the codes that have none.
abbrev pub IsNamed : FrameType → Type 0
IsNamed (unnamed n) = 7 < n
IsNamed _ = Unit {0}

pub frame_type_of-code : (t : FrameType) → IsNamed t → frame_type_of (frame_type_code t) ≡ t
unfolding frame_type_of frame_type_code
frame_type_of-code (unnamed n) h = ground arith
frame_type_of-code _ h = refl
