-- ===== src/Protocol/Frame/Split.antt =====
-- Frames that arrive in pieces.
use coconut.Base
use coconut.Base.{
  ℕ, ◌+◌, ◌≤◌, ◌<◌, ◌≡◌, refl, sym, ap, ◌∙◌, arith, Bool, true, false, [], ◌∷◌, ◌++◌, Bytes, drop,
  append_assoc, drop-append, length-append, u32_mod, int_sign, Result, ok, throws,
  protocol_exception, M, bind-throws,
}
use coconut.Buffer
use coconut.Buffer.{BufferedTransport}
use coconut.Protocol.Frame
use coconut.Protocol.Frame.Delivery.{with_header, process_read-waits}
use coconut.Protocol.Frame.Parse.{
  IsHeader, encode, reading, received, behind_header, read_header_lem, read_int32_short, at_end,
}
use coconut.Protocol.Frame.{FrameProtocol, FrameHeader, State}

-- A second chunk for the protocol.
abbrev pub and_then : Bool → Bytes → FrameProtocol → Result Bool × FrameProtocol
and_then le bytes p = Frame.process_read le (Frame.add_to_reading_buffer bytes p).1

-- A frame that is cut behind its header, and whose length is at most 2 ^ 31: the first chunk is
-- not enough, and once the second has arrived the protocol is in the state, and has the result,
-- of a single chunk with the bytes of both, whether these complete the frame or not. An int can
-- count both chunks.
pub process_read-two_chunks :
    (le : Bool) (h : FrameHeader) (first second : Bytes)
    → IsHeader h
    → h.length ≤ int_sign
    → 16 + Base.length first < h.length
    → Base.length first + Base.length second + 16 < int_sign
    → let (r, p) = Frame.process_read le (with_header le h first) in
      (r ≡ ok false)
      × (and_then le second p ≡ Frame.process_read le (with_header le h (first ++ second)))
unfolding Frame.process_read Frame.add_to_reading_buffer Buffer.write
process_read-two_chunks le h first second i small few room =
    let w = process_read-waits le h first i (omega arith) few small in
    let both =
      read_header_lem le h (with_header le h (first ++ second)).read_buffer (first ++ second) i
        (omega (arith, length-append first second)) refl in
    rw w (refl, sym (ap Frame.caught both))

read_command_short :
    (le : Bool) (part : Bytes)
    → Base.length part < 4
    → Frame.read_command le (received part)
      ≡ (throws protocol_exception, reading (at_end (received part).read_buffer))
unfolding Frame.read_command
read_command_short le part few =
    bind-throws (Frame.read_int32 le) (Frame.got_command le)
      (read_int32_short le (received part) (omega arith) few)

read_payload_header :
    (p : FrameProtocol) → (Frame.caught (Frame.read_payload p)).1.header ≡ p.header
unfolding Frame.read_payload
read_payload_header p = ground arith

-- The first word of a frame is cut: the first chunk, of less than four bytes, is consumed without
-- a frame, and the header is then taken from the second chunk alone, so that the bytes of the
-- first chunk are lost. An int can count both chunks.
pub process_read-split_word :
    (le : Bool) (h : FrameHeader) (part rest : Bytes)
    → IsHeader h
    → Base.length part < 4
    → Base.length part + Base.length rest + 16 < int_sign
    → let (r, p) = Frame.process_read le (received part) in
      (r ≡ ok false) × ((and_then le (encode le h ++ rest) p).1.header ≡ h)
unfolding Frame.process_read Frame.add_to_reading_buffer Buffer.write
process_read-split_word le h part rest i few room =
    let b : BufferedTransport = record {
      buffer = part ++ (encode le h ++ rest);
      read_pos = Base.length part;
    } in
    let n = length-append part (encode le h ++ rest) in
    rw (read_command_short le part few) (
      refl,
      ap (λ o. (Frame.caught o).1.header)
            (read_header_lem le h b rest i (omega arith)
              (drop-append (Base.length part) part (encode le h ++ rest) refl))
          ∙ read_payload_header (behind_header (reading b) h),
    )
