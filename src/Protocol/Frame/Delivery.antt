-- ===== src/Protocol/Frame/Delivery.antt =====
-- What a client of `FrameProtocol` gets from a header and the bytes behind it.
use coconut.Base
use coconut.Base.{
  ℕ, ◌+◌, ◌-◌, ◌%◌, ◌≤◌, ◌<◌, ◌≡◌, refl, sym, ap, ◌∙◌, arith, Bool, true, false, List, [], ◌∷◌,
  ◌++◌, Option, none, some, Bytes, take, drop, length-append, length-drop, take-append, take-all,
  drop-append, drop-drop, ltb, if◌then◌else◌, u32_mod, u64_mod, int_sign, Result, ok, fault, M,
}
use coconut.Buffer
use coconut.Protocol.Frame
use coconut.Protocol.Frame.{FrameProtocol, FrameHeader, State}
use coconut.Protocol.Frame.Parse.{encode, IsHeader, received, behind_header, read_header_lem}

-- The `payloadSize()` bytes at `payloadPtr()`, as a client reads them.
abbrev pub payload_from : Option Bytes → ℕ → Result Bytes
payload_from none size = if ltb 0 size then fault else ok []
payload_from (some bytes) size =
    if ltb (Base.length bytes) size then fault else ok (take size bytes)

abbrev pub payload_view : FrameProtocol → Result Bytes
payload_view p = payload_from (Frame.payload_ptr p) (Frame.payload_size p)

abbrev pub completed : FrameProtocol → FrameHeader → FrameProtocol
completed p h = record (behind_header p h) { init_header = h; state = State.complete }

abbrev pub with_header : Bool → FrameHeader → Bytes → FrameProtocol
with_header le h rest = received (encode le h ++ rest)

module _ (le : Bool) (h : FrameHeader) (rest : Bytes) (i : IsHeader h)
    (room : Base.length rest + 16 < int_sign) where
  pub process_read-completes :
      h.length ≤ 16 + Base.length rest
      → Frame.process_read le (with_header le h rest)
        ≡ (ok true, completed (with_header le h rest) h)
  unfolding Frame.process_read Frame.read_payload Buffer.total_size
  process_read-completes enough =
      ap Frame.caught
        (read_header_lem le h (with_header le h rest).read_buffer rest i (omega arith) refl)
      ∙ ground arith

  pub process_read-waits :
      16 + Base.length rest < h.length
      → h.length ≤ int_sign
      → Frame.process_read le (with_header le h rest)
        ≡ (ok false, behind_header (with_header le h rest) h)
  unfolding Frame.process_read Frame.read_payload Buffer.total_size
  process_read-waits few small =
      ap Frame.caught
        (read_header_lem le h (with_header le h rest).read_buffer rest i (omega arith) refl)
      ∙ ground arith

-- A complete protocol that has read a header of `h` bytes of which the frame has `n` more.
record Holds (p : FrameProtocol) (n m : ℕ) : Type 0 where
  complete : p.state ≡ State.complete
  read_pos : p.read_buffer.read_pos ≡ 16
  payload_pos : p.payload_pos ≡ 16
  length : p.init_header.length ≡ 16 + n
  total : Base.length p.read_buffer.buffer ≡ 16 + n + m
  fits : 16 + n + m < int_sign
  no_payload : p.payload ≡ []

module _ (p : FrameProtocol) (n m : ℕ) (f : Holds p n m) where
  to_end_lem : Frame.to_end p ≡ n
  unfolding Frame.to_end
  to_end_lem = ground arith

  ptr_lem : Frame.remaining_buffer_ptr p ≡ 16 + n
  unfolding Frame.remaining_buffer_ptr
  ptr_lem = ground (arith, to_end_lem)

  size_lem : Frame.remaining_buffer_size p ≡ m
  unfolding Frame.remaining_buffer_size Buffer.remaining_size
  size_lem = ground (arith, to_end_lem)

  remaining_bytes_lem : Frame.remaining_bytes p ≡ ok (take m (drop (16 + n) p.read_buffer.buffer))
  unfolding Frame.remaining_bytes Buffer.total_size
  remaining_bytes_lem = ground (arith, ptr_lem, size_lem)

  payload_size_lem : Frame.payload_size p ≡ n
  unfolding Frame.payload_size Buffer.total_size
  payload_size_lem = ground arith

  payload_ptr_lem :
      Frame.payload_ptr p
      ≡ (if ltb 16 (16 + n + m) then some (drop 16 p.read_buffer.buffer) else none)
  unfolding Frame.payload_ptr Buffer.total_size
  payload_ptr_lem = ground arith

  payload_view_lem : payload_view p ≡ ok (take n (drop 16 p.read_buffer.buffer))
  payload_view_lem =
      rw (payload_ptr_lem, payload_size_lem)
        (ground (arith, length-drop 16 p.read_buffer.buffer, f.total))

-- A whole frame, read.
completed-Holds :
    (le : Bool) (h : FrameHeader) (payload rest : Bytes)
    → h.length ≡ 16 + Base.length payload
    → Base.length payload + Base.length rest + 16 < int_sign
    → Holds
        (completed (with_header le h (payload ++ rest)) h)
        (Base.length payload)
        (Base.length rest)
completed-Holds le h body rest e room =
    let n = length-append body rest in
    record {
      complete = refl;
      read_pos = refl;
      payload_pos = refl;
      length = e;
      total = omega arith;
      fits = omega arith;
      no_payload = refl;
    }

-- A whole frame and what follows it, received by a new protocol: `processRead` returns true, the
-- header has the words that were sent, the payload is what stood behind the header up to the
-- frame's length, and the remaining bytes are all that follows, for any header whose length counts
-- itself and the payload, as long as an int can count the bytes.
pub process_read-frame :
    (le : Bool) (h : FrameHeader) (payload rest : Bytes)
    → IsHeader h
    → h.length ≡ 16 + Base.length payload
    → Base.length payload + Base.length rest + 16 < int_sign
    → let (r, p) = Frame.process_read le (with_header le h (payload ++ rest)) in
      (r ≡ ok true)
      × (p.header ≡ h)
      × (payload_view p ≡ ok payload)
      × (Frame.remaining_bytes p ≡ ok rest)
process_read-frame le h body rest i e room =
    let p = completed (with_header le h (body ++ rest)) h in
    let n = length-append body rest in
    let hd = encode le h in
    let f = completed-Holds le h body rest e room in
    let behind : drop (16 + Base.length body) (hd ++ (body ++ rest)) ≡ rest =
      sym (drop-drop (Base.length body) 16 (hd ++ (body ++ rest)))
      ∙ drop-append (Base.length body) body rest refl in
    rw (process_read-completes le h (body ++ rest) i (omega arith) (omega arith)) (
      refl,
      refl,
      payload_view_lem p (Base.length body) (Base.length rest) f
          ∙ ap ok (take-append (Base.length body) body rest refl),
      remaining_bytes_lem p (Base.length body) (Base.length rest) f
          ∙ ap (λ (x : Bytes). ok (take (Base.length rest) x)) behind
          ∙ ap ok (take-all (Base.length rest) rest (omega arith)),
    )

-- A whole frame and what follows it: how many bytes remain, and that the frame is complete.
pub process_read-frame_size :
    (le : Bool) (h : FrameHeader) (payload rest : Bytes)
    → IsHeader h
    → h.length ≡ 16 + Base.length payload
    → Base.length payload + Base.length rest + 16 < int_sign
    → let p = (Frame.process_read le (with_header le h (payload ++ rest))).1 in
      (Frame.remaining_buffer_size p ≡ Base.length rest) × (p.state ≡ State.complete)
process_read-frame_size le h body rest i e room =
    let p = completed (with_header le h (body ++ rest)) h in
    let n = length-append body rest in
    rw (process_read-completes le h (body ++ rest) i (omega arith) (omega arith)) (
      size_lem p (Base.length body) (Base.length rest) (completed-Holds le h body rest e room),
      refl,
    )
