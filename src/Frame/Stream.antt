-- ===== src/Frame/Stream.antt =====
-- ReceiveFrame over a stream of reads.
use rest_api_gateway.Prelude.{
  ℕ, ◌≤◌, ◌<◌, ◌≡◌, sym, ap, ◌∙◌, inl, inr, Bool-cases, true, false, Bytes, List, [], ◌++◌, ◌∷◌,
  length, arith, drop, Option, some, length-append, append-nil, append_assoc, drop-append_of_le,
  drop-length_append,
}
use rest_api_gateway.Frame.{
  Frame, read_uint32_big_endian, max_payload_size, header_size, deserialize_frame,
  has_complete_frame, Read, chunk, closed, read_again, read_failed, Received, receiving, received,
  finish_receive, receive_frame,
}
use rest_api_gateway.Frame.RoundTrip.{wire, IsWire, deserialize-wire}
use rest_api_gateway.Frame.Complete.{
  has_complete_frame_iff, deserialize-append, deserialize_bounds, read_uint32-append,
}

-- The bytes that a list of reads brings, and the lists in which no read ends the stream.
abbrev pub bytes_of : List Read → Bytes
bytes_of [] = []
bytes_of (chunk more ∷ calls) = more ++ bytes_of calls
bytes_of (_ ∷ calls) = bytes_of calls

abbrev pub IsOpen : List Read → Type 0
IsOpen [] = Unit {0}
IsOpen (chunk more ∷ calls) = IsOpen calls
IsOpen (read_again ∷ calls) = IsOpen calls
IsOpen (_ ∷ calls) = ⊥

-- The result of a receive that takes the frame `f` and leaves `rest` unread.
abbrev pub Takes : Frame → Bytes → Received → Type 0
Takes f rest (receiving buffer) = ⊥
Takes f rest (received g buffer calls) = (g ≡ f) × (buffer ++ bytes_of calls ≡ rest)

module _ (f : Frame) (rest : Bytes) (w : IsWire f) where
  parsed-Takes :
      (buffer later : Bytes) (g : Frame) (n : ℕ)
      → deserialize_frame buffer ≡ some (g, n)
      → buffer ++ later ≡ wire f ++ rest
      → (g ≡ f) × (drop n buffer ++ later ≡ rest)
  parsed-Takes buffer later g n parsed e =
      let same : ◌≡◌ {A = Option (Frame × ℕ)} (some (g, n)) (some (f, length (wire f))) =
        sym (deserialize-append buffer later g n parsed)
        ∙ ap deserialize_frame e
        ∙ deserialize-wire f rest w in
      let moved : n ≡ length (wire f) = cc in
      (
        cc,
        sym (drop-append_of_le n buffer later (deserialize_bounds buffer g n parsed).1)
            ∙ rw (e, moved) (drop-length_append (wire f) rest),
      )

  finish-Takes :
      (calls : List Read) (buffer : Bytes)
      → has_complete_frame buffer ≡ true
      → buffer ++ bytes_of calls ≡ wire f ++ rest
      → Takes f rest (finish_receive buffer calls)
  unfolding finish_receive
  finish-Takes calls buffer complete e =
      let ((g, n), parsed) = (has_complete_frame_iff buffer).0 complete in
      rw (complete, parsed) (parsed-Takes buffer (bytes_of calls) g n parsed e)

  whole_is_complete :
      (buffer : Bytes) → buffer ++ [] ≡ wire f ++ rest → has_complete_frame buffer ≡ true
  whole_is_complete buffer e =
      (has_complete_frame_iff buffer).1
        (_, ap deserialize_frame (sym (append-nil buffer) ∙ e) ∙ deserialize-wire f rest w)

  -- Where the buffer and the reads together hold a well-formed frame and what follows it, and
  -- no read ends the stream: however the bytes are cut into reads, with tries again between
  -- them, ReceiveFrame returns that frame and leaves what follows it unread.
  pub receive_frame-Takes :
      (calls : List Read) (buffer : Bytes)
      → IsOpen calls
      → buffer ++ bytes_of calls ≡ wire f ++ rest
      → Takes f rest (receive_frame calls buffer)
  unfolding receive_frame
  receive_frame-Takes [] buffer o e =
      let complete = whole_is_complete buffer e in rw complete (finish-Takes [] buffer complete e)
  receive_frame-Takes (chunk more ∷ calls) buffer o e =
      elim (Bool-cases (has_complete_frame buffer)) [
        | inl complete ↦ rw complete (finish-Takes (chunk more ∷ calls) buffer complete e)
        | inr short ↦ rw short (
            receive_frame-Takes calls (buffer ++ more) o
              (append_assoc buffer more (bytes_of calls) ∙ e))
      ]
  receive_frame-Takes (read_again ∷ calls) buffer o e =
      elim (Bool-cases (has_complete_frame buffer)) [
        | inl complete ↦ rw complete (finish-Takes (read_again ∷ calls) buffer complete e)
        | inr short ↦ rw short (receive_frame-Takes calls buffer o e)
      ]
  receive_frame-Takes (closed ∷ calls) buffer o e = absurd o
  receive_frame-Takes (read_failed ∷ calls) buffer o e = absurd o

oversized_is_short :
    (buffer : Bytes)
    → max_payload_size < read_uint32_big_endian buffer 8
    → has_complete_frame buffer ≡ false
unfolding has_complete_frame
oversized_is_short buffer h = ground arith

-- A header in the buffer that announces more than the limit is never rejected: while no read
-- ends the stream, ReceiveFrame returns nothing and keeps every byte.
pub receive_frame_oversized :
    (calls : List Read) (buffer : Bytes)
    → IsOpen calls
    → header_size ≤ length buffer
    → max_payload_size < read_uint32_big_endian buffer 8
    → receive_frame calls buffer ≡ receiving (buffer ++ bytes_of calls)
unfolding receive_frame
receive_frame_oversized [] buffer o h big =
    rw (oversized_is_short buffer big) (ap receiving (sym (append-nil buffer)))
receive_frame_oversized (chunk more ∷ calls) buffer o h big =
    let kept = read_uint32-append buffer more 8 (omega arith) in
    rw (oversized_is_short buffer big) (
      receive_frame_oversized calls (buffer ++ more) o (omega (arith, length-append buffer more))
        (omega (arith, kept))
      ∙ ap receiving (append_assoc buffer more (bytes_of calls)))
receive_frame_oversized (read_again ∷ calls) buffer o h big =
    rw (oversized_is_short buffer big) (receive_frame_oversized calls buffer o h big)
receive_frame_oversized (closed ∷ calls) buffer o h big = absurd o
receive_frame_oversized (read_failed ∷ calls) buffer o h big = absurd o
