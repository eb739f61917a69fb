-- ===== src/Frame/RoundTrip.antt =====
-- A frame that is serialized is read back from the front of any stream.
use rest_api_gateway.Prelude.{
  ℕ, ◌+◌, ◌^◌, ◌≤◌, ◌<◌, ◌≡◌, refl, ap, ◌∙◌, Bytes, [], ◌++◌, ◌∷◌, length, arith, take, drop, some,
  append_assoc, length-append, take-length_append,
}
use rest_api_gateway.Frame.{
  Frame, frame_type_code, write_uint32_big_endian, read_uint32_big_endian, max_payload_size,
  frame_header, serialize_frame, deserialize_frame, written,
}
use rest_api_gateway.Frame.Words.{IsNamed, frame_type_of-code}

-- What the gateway and its backends put on the wire: the length field is the payload's length and
-- within the limit, the numbers are 32-bit words, and the type has an enumerator.
pub record IsWire (f : Frame) : Type 0 where
  pub counted : f.payload_length ≡ length f.payload
  pub within : f.payload_length ≤ max_payload_size
  pub named : IsNamed f.frame_type
  pub type_word : frame_type_code f.frame_type < 2 ^ 32
  pub request_word : f.request_identifier < 2 ^ 32

-- The bytes of a frame on the wire.
unfoldable pub wire : Frame → Bytes
wire f = frame_header f ++ f.payload

pub length-frame_header : (f : Frame) → length (frame_header f) ≡ 12
unfolding frame_header write_uint32_big_endian
length-frame_header f = refl

pub header_words :
    (f : Frame) (rest : Bytes)
    → IsWire f
    → (read_uint32_big_endian (frame_header f ++ rest) 0 ≡ frame_type_code f.frame_type)
      × (read_uint32_big_endian (frame_header f ++ rest) 4 ≡ f.request_identifier)
      × (read_uint32_big_endian (frame_header f ++ rest) 8 ≡ f.payload_length)
unfolding frame_header write_uint32_big_endian read_uint32_big_endian
header_words f rest w = (omega arith, omega arith, omega arith)

take_self : (xs : Bytes) → take (length xs) xs ≡ xs
take_self [] = refl
take_self (x ∷ xs) = ap (◌∷◌ x) (take_self xs)

pub serialize_frame-wire : (f : Frame) → IsWire f → serialize_frame f ≡ written (wire f)
unfolding serialize_frame wire
serialize_frame-wire f w =
    let e : take f.payload_length f.payload ≡ f.payload = rw w.counted (take_self f.payload) in
    ground (arith, e)

drop_header : (f : Frame) (rest : Bytes) → drop 12 (frame_header f ++ rest) ≡ rest
unfolding frame_header write_uint32_big_endian
drop_header f rest = refl

deserialize_parts :
    (f : Frame) (rest : Bytes)
    → IsWire f
    → deserialize_frame (frame_header f ++ (f.payload ++ rest)) ≡ some (f, 12 + length f.payload)
unfolding deserialize_frame
deserialize_parts f rest w = ground (
  arith,
  header_words f (f.payload ++ rest) w,
  length-append (frame_header f) (f.payload ++ rest),
  length-append f.payload rest,
  length-frame_header f,
  frame_type_of-code f.frame_type w.named,
  drop_header f (f.payload ++ rest),
  take_payload,
)
  where
    take_payload : take f.payload_length (f.payload ++ rest) ≡ f.payload
    take_payload = rw w.counted (take-length_append f.payload rest)

-- Parsing the bytes of a well-formed frame with anything behind them gives that frame and its
-- length.
pub deserialize-wire :
    (f : Frame) (rest : Bytes)
    → IsWire f
    → deserialize_frame (wire f ++ rest) ≡ some (f, length (wire f))
unfolding wire
deserialize-wire f rest w = rw append_assoc (
    deserialize_parts f rest w
    ∙ ap (λ (n : ℕ). some (f, n))
        (omega (arith, length-append (frame_header f) f.payload, length-frame_header f)))
