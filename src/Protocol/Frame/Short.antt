-- ===== src/Protocol/Frame/Short.antt =====
-- Frames whose length does not even count their header.
use coconut.Base
use coconut.Base.{
  ℕ, ◌+◌, ◌-◌, ◌≤◌, ◌<◌, ◌≡◌, refl, ap, ◌∙◌, arith, Bool, true, [], ◌++◌, Bytes, take, drop,
  length-drop, take-all, u64_mod, int_sign, ok, fault, if◌then◌else◌, ltb, some, none,
}
use coconut.Buffer
use coconut.Protocol.Frame
use coconut.Protocol.Frame.Delivery.{payload_view, completed, with_header, process_read-completes}
use coconut.Protocol.Frame.Parse.{IsHeader, encode}
use coconut.Protocol.Frame.{FrameProtocol, FrameHeader, State}

-- A complete protocol behind its header, with `n` bytes behind that.
record Short (p : FrameProtocol) (n : ℕ) : Type 0 where
  complete : p.state ≡ State.complete
  read_pos : p.read_buffer.read_pos ≡ 16
  payload_pos : p.payload_pos ≡ 16
  length : p.init_header.length < 16
  total : Base.length p.read_buffer.buffer ≡ 16 + n
  fits : 16 + n < int_sign
  no_payload : p.payload ≡ []

module _ (p : FrameProtocol) (n : ℕ) (f : Short p n) where
  to_end_lem : Frame.to_end p ≡ u64_mod - (16 - p.init_header.length)
  unfolding Frame.to_end
  to_end_lem = ground arith

  ptr_lem : Frame.remaining_buffer_ptr p ≡ p.init_header.length
  unfolding Frame.remaining_buffer_ptr
  ptr_lem = ground (arith, to_end_lem)

  size_lem : Frame.remaining_buffer_size p ≡ 16 + n - p.init_header.length
  unfolding Frame.remaining_buffer_size Buffer.remaining_size
  size_lem = ground (arith, to_end_lem)

  remaining_bytes_lem :
      Frame.remaining_bytes p ≡ ok (drop p.init_header.length p.read_buffer.buffer)
  unfolding Frame.remaining_bytes Buffer.total_size
  remaining_bytes_lem = ground (
    arith,
    ptr_lem,
    size_lem,
    take-all (16 + n - p.init_header.length) (drop p.init_header.length p.read_buffer.buffer),
    length-drop p.init_header.length p.read_buffer.buffer,
  )

  payload_size_lem : Frame.payload_size p ≡ u64_mod - (16 - p.init_header.length)
  unfolding Frame.payload_size Buffer.total_size
  payload_size_lem = ground arith

  payload_view_lem : payload_view p ≡ fault
  unfolding Frame.payload_ptr Buffer.total_size
  payload_view_lem =
      ground (arith, payload_size_lem, length-drop p.payload_pos p.read_buffer.buffer)

completed-Short :
    (le : Bool) (h : FrameHeader) (rest : Bytes)
    → h.length < 16
    → Base.length rest + 16 < int_sign
    → Short (completed (with_header le h rest) h) (Base.length rest)
completed-Short le h rest short room = record {
  complete = refl;
  read_pos = refl;
  payload_pos = refl;
  length = short;
  total = omega arith;
  fits = omega arith;
  no_payload = refl;
}

-- How many bytes remain behind a frame whose length is below 16.
pub process_read-short_size :
    (le : Bool) (h : FrameHeader) (rest : Bytes)
    → IsHeader h
    → h.length < 16
    → Base.length rest + 16 < int_sign
    → Frame.remaining_buffer_size (Frame.process_read le (with_header le h rest)).1
      ≡ 16 + Base.length rest - h.length
process_read-short_size le h rest i short room =
    rw (process_read-completes le h rest i room (omega arith)) (
      size_lem (completed (with_header le h rest) h) (Base.length rest)
        (completed-Short le h rest short room))

-- Nothing checks that a header's length counts the header itself. With a length below 16
-- `processRead` returns true for any bytes behind the header that an int can count,
-- `payloadSize()` is the length less 16 modulo 2 ^ 64, so that reading the payload leaves the
-- buffer, and the remaining bytes begin inside the frame's own header: with length 0 they are all
-- the bytes that were received.
pub process_read-short_length :
    (le : Bool) (h : FrameHeader) (rest : Bytes)
    → IsHeader h
    → h.length < 16
    → Base.length rest + 16 < int_sign
    → let (r, p) = Frame.process_read le (with_header le h rest) in
      (r ≡ ok true)
      × (Frame.payload_size p ≡ u64_mod - (16 - h.length))
      × (payload_view p ≡ fault)
      × (Frame.remaining_bytes p ≡ ok (drop h.length (encode le h ++ rest)))
process_read-short_length le h rest i short room =
    let p = completed (with_header le h rest) h in
    let f = completed-Short le h rest short room in
    rw (process_read-completes le h rest i room (omega arith)) (
      refl,
      payload_size_lem p (Base.length rest) f,
      payload_view_lem p (Base.length rest) f,
      remaining_bytes_lem p (Base.length rest) f,
    )
