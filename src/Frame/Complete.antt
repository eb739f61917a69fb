-- ===== src/Frame/Complete.antt =====
-- HasCompleteFrame and DeserializeFrame agree, and later bytes change nothing.
use rest_api_gateway.Prelude.{
  ℕ, ◌+◌, ◌*◌, ◌^◌, ◌≤◌, ◌≡◌, ◌↔◌, inl, inr, Option-cases, true, Bytes, [], ◌++◌, ◌∷◌, length,
  arith, drop, some, length-append, IsByte, get_or-append, drop-append_of_le, take-append_of_le,
  length-drop, length-take_of_le,
}
use rest_api_gateway.Frame.{
  Frame, write_uint32_big_endian, read_uint32_big_endian, max_payload_size, deserialize_frame,
  has_complete_frame,
}

-- HasCompleteFrame says true exactly when DeserializeFrame parses a frame.
pub has_complete_frame_iff :
    (b : Bytes) → (has_complete_frame b ≡ true) ↔ ((r : Frame × ℕ) × (deserialize_frame b ≡ some r))
unfolding has_complete_frame deserialize_frame
has_complete_frame_iff b = elim (Option-cases (deserialize_frame b)) [
  | inl e ↦ (λ h. ground arith, λ r. cc (r.1))
  | inr (r, e) ↦ (λ h. (r, e), λ q. ground arith)
]

pub read_uint32-append :
    (b more : Bytes) (at : ℕ)
    → at + 4 ≤ length b
    → read_uint32_big_endian (b ++ more) at ≡ read_uint32_big_endian b at
unfolding read_uint32_big_endian
read_uint32-append b more at h = omega (
  arith,
  get_or-append b more at 0 (omega arith),
  get_or-append b more (at + 1) 0 (omega arith),
  get_or-append b more (at + 2) 0 (omega arith),
  get_or-append b more (at + 3) 0 (omega arith),
)

-- A frame parsed out of a buffer is parsed the same when more bytes stand behind it.
pub deserialize-append :
    (b more : Bytes) (f : Frame) (n : ℕ)
    → deserialize_frame b ≡ some (f, n)
    → deserialize_frame (b ++ more) ≡ some (f, n)
unfolding deserialize_frame
deserialize-append b more f n h = ground (
  arith,
  length-append b more,
  read_uint32-append b more 0,
  read_uint32-append b more 4,
  read_uint32-append b more 8,
  drop-append_of_le 12 b more,
  take-append_of_le (read_uint32_big_endian b 8) (drop 12 b) more,
  length-drop 12 b,
)

-- A parsed frame has a payload of its announced length, which is within the limit; the parse
-- takes its 12 header bytes and its payload, no more than the buffer holds.
pub deserialize_bounds :
    (b : Bytes) (f : Frame) (n : ℕ)
    → deserialize_frame b ≡ some (f, n)
    → (n ≡ 12 + f.payload_length)
      × (n ≤ length b)
      × (length f.payload ≡ f.payload_length)
      × (f.payload_length ≤ max_payload_size)
unfolding deserialize_frame
deserialize_bounds b f n h =
    ground (arith, length-drop 12 b, length-take_of_le (read_uint32_big_endian b 8) (drop 12 b))

byte_parts :
    (a b c d : ℕ)
    → IsByte a
    → IsByte b
    → IsByte c
    → IsByte d
    → write_uint32_big_endian (a * 2 ^ 24 + b * 2 ^ 16 + c * 2 ^ 8 + d) ≡ a ∷ b ∷ c ∷ d ∷ []
unfolding write_uint32_big_endian
byte_parts a b c d ha hb hc hd = ground arith
