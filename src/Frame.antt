-- ===== src/Frame.antt =====
-- include/gateway/transport/FrameProtocol.h and src/transport/FrameProtocol.cpp: the binary frames
-- between the gateway and a backend, and their parsing out of a stream of reads.
-- A socket's behaviour is a list of the outcomes of its `read` or `write` calls; log lines are left
-- out. The bits that `|` joins in ReadUint32BigEndian are disjoint, so it is a sum here.
pub mod Words
pub mod RoundTrip
pub mod Complete
pub mod Stream
pub mod Sending
mod Tests
use rest_api_gateway.Prelude.{
  ℕ, zero, suc, ◌+◌, ◌-◌, ◌*◌, ◌/◌, ◌%◌, ◌^◌, Bool, true, false, ◌&&◌, List, [], ◌∷◌, ◌++◌, Option,
  none, some, Bytes, length, get_or, take, drop, ltb, leb, ◌==◌, if◌then◌else◌,
}

-- `unnamed` is a value that static_cast makes of a number with no enumerator.
pub data FrameType : Type 0 where
  registration unregistration request response login_response token_response heartbeat : FrameType
  error : FrameType
  unnamed : ℕ → FrameType

pub record Frame : Type 0 where
  pub frame_type : FrameType
  pub payload_length : ℕ
  pub payload : Bytes
  pub request_identifier : ℕ

abbrev pub header_size : ℕ
header_size = 12

abbrev pub max_payload_size : ℕ
max_payload_size = 1048576

-- static_cast<uint32_t>(FrameType)
unfoldable pub frame_type_code : FrameType → ℕ
frame_type_code registration = 0
frame_type_code unregistration = 1
frame_type_code request = 2
frame_type_code response = 3
frame_type_code login_response = 4
frame_type_code token_response = 5
frame_type_code heartbeat = 6
frame_type_code error = 7
frame_type_code (unnamed n) = n

-- static_cast<FrameType>(uint32_t)
unfoldable pub frame_type_of : ℕ → FrameType
frame_type_of n =
    if n == 0
    then registration
    else if n == 1
    then unregistration
    else if n == 2
    then request
    else if n == 3
    then response
    else if n == 4
    then login_response
    else if n == 5
    then token_response
    else if n == 6
    then heartbeat
    else if n == 7
    then error
    else unnamed n

unfoldable pub write_uint32_big_endian : ℕ → Bytes
write_uint32_big_endian v =
    (v / 2 ^ 24 % 256) ∷ (v / 2 ^ 16 % 256) ∷ (v / 2 ^ 8 % 256) ∷ (v % 256) ∷ []

-- The four bytes from an offset that the caller has checked.
unfoldable pub read_uint32_big_endian : Bytes → ℕ → ℕ
read_uint32_big_endian input at =
    get_or input at 0 * 2 ^ 24
    + get_or input (at + 1) 0 * 2 ^ 16
    + get_or input (at + 2) 0 * 2 ^ 8
    + get_or input (at + 3) 0

-- `refused` is the result false; `out_of_range` is a copy from behind the end of the payload.
pub data Serialized : Type 0 where
  written : Bytes → Serialized
  refused out_of_range : Serialized

unfoldable pub frame_header : Frame → Bytes
frame_header f =
    write_uint32_big_endian (frame_type_code f.frame_type)
    ++ (write_uint32_big_endian f.request_identifier ++ write_uint32_big_endian f.payload_length)

unfoldable pub serialize_frame : Frame → Serialized
serialize_frame f =
    if leb f.payload_length max_payload_size
    then (if leb f.payload_length (length f.payload)
        then written (frame_header f ++ take f.payload_length f.payload)
        else out_of_range)
    else refused

-- The frame and the count of bytes consumed; `none` is the result false.
unfoldable pub deserialize_frame : Bytes → Option (Frame × ℕ)
deserialize_frame input =
    if leb header_size (length input)
    then (let size = read_uint32_big_endian input 8 in
        if leb size max_payload_size && leb (header_size + size) (length input)
        then some (
          record {
            frame_type = frame_type_of (read_uint32_big_endian input 0);
            payload_length = size;
            payload = take size (drop header_size input);
            request_identifier = read_uint32_big_endian input 4;
          },
          header_size + size,
        )
        else none)
    else none

unfoldable pub has_complete_frame : Bytes → Bool
has_complete_frame buffer =
    if leb header_size (length buffer)
    then (let size = read_uint32_big_endian buffer 8 in
        leb size max_payload_size && leb (header_size + size) (length buffer))
    else false

-- What a `write` call does: it takes so many bytes, or fails with EAGAIN, or fails otherwise.
pub data Write : Type 0 where
  wrote : ℕ → Write
  write_again write_failed : Write

-- `sending` is a coroutine that waits for the next call, with what it has put on the wire.
pub data Sent : Type 0 where
  sending : Bytes → Sent
  sent : Bytes → Bool → Sent

-- The loop of SendFrame: `out` is on the wire, and `total` counts it. A write of n bytes takes them
-- from the offset `total` of the serialized frame.
unfoldable pub send_loop : List Write → Bytes → ℕ → Bytes → Sent
send_loop [] bytes total out =
    if ltb total (length bytes) then sending out else sent out (total == length bytes)
send_loop (wrote n ∷ calls) bytes total out =
    let rest = send_loop calls bytes (total + n) (out ++ take n (drop total bytes)) in
    if ltb total (length bytes)
    then (if ltb 0 n then rest else sent out (total == length bytes))
    else sent out (total == length bytes)
send_loop (write_again ∷ calls) bytes total out =
    let rest = send_loop calls bytes total out in
    if ltb total (length bytes) then rest else sent out (total == length bytes)
send_loop (write_failed ∷ calls) bytes total out = sent out (total == length bytes)

abbrev send_serialized : List Write → Serialized → Option Sent
send_serialized calls (written bytes) = some (send_loop calls bytes 0 [])
send_serialized calls refused = some (sent [] false)
send_serialized calls out_of_range = none

-- `none` is the copy out of range.
unfoldable pub send_frame : List Write → Frame → Option Sent
unfolding send_loop serialize_frame
send_frame calls f = send_serialized calls (serialize_frame f)

-- What a `read` call does.
pub data Read : Type 0 where
  chunk : Bytes → Read
  closed read_again read_failed : Read

-- `receiving` is a coroutine that waits for the next call, with its buffer. A result holds the
-- frame, the buffer that is left, and the calls that were not made.
pub data Received : Type 0 where
  receiving : Bytes → Received
  received : Frame → Bytes → List Read → Received

-- What ReceiveFrame returns where it parses no frame.
abbrev pub error_frame : Frame
error_frame = record {
  frame_type = error;
  payload_length = 0;
  payload = [];
  request_identifier = 0;
}

-- The end of ReceiveFrame, behind its loop.
abbrev finish_with : Bytes → List Read → Option (Frame × ℕ) → Received
finish_with buffer calls none = received error_frame buffer calls
finish_with buffer calls (some (f, consumed)) = received f (drop consumed buffer) calls

unfoldable pub finish_receive : Bytes → List Read → Received
finish_receive buffer calls =
    if has_complete_frame buffer
    then finish_with buffer calls (deserialize_frame buffer)
    else received error_frame buffer calls

unfoldable pub receive_frame : List Read → Bytes → Received
receive_frame [] buffer =
    if has_complete_frame buffer then finish_receive buffer [] else receiving buffer
receive_frame (chunk more ∷ calls) buffer =
    let rest = receive_frame calls (buffer ++ more) in
    if has_complete_frame buffer then finish_receive buffer (chunk more ∷ calls) else rest
receive_frame (closed ∷ calls) buffer =
    if has_complete_frame buffer
    then finish_receive buffer (closed ∷ calls)
    else finish_receive buffer calls
receive_frame (read_again ∷ calls) buffer =
    let rest = receive_frame calls buffer in
    if has_complete_frame buffer then finish_receive buffer (read_again ∷ calls) else rest
receive_frame (read_failed ∷ calls) buffer =
    if has_complete_frame buffer
    then finish_receive buffer (read_failed ∷ calls)
    else finish_receive buffer calls
