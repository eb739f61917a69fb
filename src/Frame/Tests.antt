-- ===== src/Frame/Tests.antt =====
-- Frames at concrete inputs.
use rest_api_gateway.Prelude.{
  ℕ, ◌≡◌, ◌↔◌, refl, true, List, [], ◌∷◌, ◌++◌, some, Bytes, codes, length, arith, ◌≤◌, ◌+◌,
}
use rest_api_gateway.Frame.{
  heartbeat, Frame, max_payload_size, deserialize_frame, has_complete_frame, serialize_frame,
  written, Read, chunk, closed, read_again, received, receiving, receive_frame, wrote, write_again,
  Sent, send_frame, error_frame, frame_header, write_uint32_big_endian, read_uint32_big_endian,
  frame_type_code, frame_type_of, finish_receive,
}
use rest_api_gateway.Frame.RoundTrip.{IsWire, wire, deserialize-wire}
use rest_api_gateway.Frame.Complete.{has_complete_frame_iff, deserialize-append, deserialize_bounds}
use rest_api_gateway.Frame.Stream.{Takes, receive_frame-Takes, receive_frame_oversized}
use rest_api_gateway.Frame.Sending.{Delivers, send_frame-Delivers}

abbrev ping : Frame
ping = record {
  frame_type = heartbeat;
  payload_length = 2;
  payload = codes "hi";
  request_identifier = 258;
}

abbrev ping_bytes : Bytes
ping_bytes = 0 ∷ 0 ∷ 0 ∷ 6 ∷ 0 ∷ 0 ∷ 1 ∷ 2 ∷ 0 ∷ 0 ∷ 0 ∷ 2 ∷ 104 ∷ 105 ∷ []

ping-IsWire : IsWire ping
unfolding frame_type_code
ping-IsWire = record {
  counted = refl;
  within = omega arith;
  named = tt;
  type_word = omega arith;
  request_word = omega arith;
}

serialize_ping : serialize_frame ping ≡ written ping_bytes
unfolding serialize_frame frame_header write_uint32_big_endian frame_type_code
serialize_ping = refl

ping_parsed : deserialize_frame ping_bytes ≡ some (ping, 14)
unfolding deserialize_frame read_uint32_big_endian frame_type_of
ping_parsed = refl

two_reads :
    receive_frame
      (chunk (0 ∷ 0 ∷ 0 ∷ 6 ∷ 0 ∷ [])
        ∷ read_again
        ∷ chunk (0 ∷ 1 ∷ 2 ∷ 0 ∷ 0 ∷ 0 ∷ 2 ∷ 104 ∷ 105 ∷ 9 ∷ [])
        ∷ [])
      []
    ≡ received ping (9 ∷ []) []
unfolding receive_frame finish_receive has_complete_frame deserialize_frame read_uint32_big_endian
    frame_type_of
two_reads = refl

closed_early :
    receive_frame (chunk (0 ∷ 0 ∷ []) ∷ closed ∷ []) [] ≡ received error_frame (0 ∷ 0 ∷ []) []
unfolding receive_frame finish_receive has_complete_frame
closed_early = refl

deserialize-wire_example : deserialize_frame (wire ping ++ 5 ∷ []) ≡ some (ping, length (wire ping))
deserialize-wire_example = deserialize-wire ping (5 ∷ []) ping-IsWire

has_complete_frame_iff_example :
    (has_complete_frame ping_bytes ≡ true)
    ↔ ((r : Frame × ℕ) × (deserialize_frame ping_bytes ≡ some r))
has_complete_frame_iff_example = has_complete_frame_iff ping_bytes

deserialize-append_example : deserialize_frame (ping_bytes ++ 1 ∷ 2 ∷ []) ≡ some (ping, 14)
deserialize-append_example = deserialize-append ping_bytes (1 ∷ 2 ∷ []) ping 14 ping_parsed

deserialize_bounds_example :
    (14 ≡ 12 + ping.payload_length)
    × (14 ≤ length ping_bytes)
    × (length ping.payload ≡ ping.payload_length)
    × (ping.payload_length ≤ max_payload_size)
deserialize_bounds_example = deserialize_bounds ping_bytes ping 14 ping_parsed

abbrev cut_reads : List Read
cut_reads =
    chunk (0 ∷ 0 ∷ 0 ∷ 6 ∷ 0 ∷ [])
    ∷ read_again
    ∷ chunk (0 ∷ 1 ∷ 2 ∷ 0 ∷ 0 ∷ 0 ∷ 2 ∷ 104 ∷ 105 ∷ 9 ∷ [])
    ∷ []

receive_frame-Takes_example : Takes ping (9 ∷ []) (receive_frame cut_reads [])
unfolding wire frame_header write_uint32_big_endian frame_type_code
receive_frame-Takes_example = receive_frame-Takes ping (9 ∷ []) ping-IsWire cut_reads [] tt refl

abbrev huge_header : Bytes
huge_header = 0 ∷ 0 ∷ 0 ∷ 6 ∷ 0 ∷ 0 ∷ 1 ∷ 2 ∷ 255 ∷ 0 ∷ 0 ∷ 0 ∷ []

receive_frame_oversized_example :
    receive_frame (chunk (7 ∷ []) ∷ []) huge_header ≡ receiving (huge_header ++ 7 ∷ [])
unfolding read_uint32_big_endian
receive_frame_oversized_example =
    receive_frame_oversized (chunk (7 ∷ []) ∷ []) huge_header tt (omega arith) (omega arith)

send_frame-Delivers_example :
    (s : Sent) × (send_frame (wrote 10 ∷ write_again ∷ wrote 4 ∷ []) ping ≡ some s)
    × Delivers (wire ping) s
unfolding wire frame_header write_uint32_big_endian frame_type_code
send_frame-Delivers_example =
    send_frame-Delivers (wrote 10 ∷ write_again ∷ wrote 4 ∷ []) ping ping-IsWire
      (omega arith, (omega arith, tt))
