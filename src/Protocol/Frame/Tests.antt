-- ===== src/Protocol/Frame/Tests.antt =====
-- Frames at concrete bytes.

use coconut.Base.{◌≡◌, refl, arith, true, false, [], ◌∷◌, ◌++◌, some, Bytes, ok, fault}
use coconut.Buffer
use coconut.Protocol.Frame
use coconut.Protocol.Frame.Delivery.{payload_view, with_header, process_read-frame}
use coconut.Protocol.Frame.Parse.{IsHeader, encode, received}
use coconut.Protocol.Frame.Send.{send_frame, process_read-send_frame}
use coconut.Protocol.Frame.Short.{process_read-short_length}
use coconut.Protocol.Frame.Split.{and_then, process_read-two_chunks, process_read-split_word}
use coconut.Protocol.Frame.{FrameProtocol, FrameHeader, State}
use coconut.Wire.Agree.{buffer_transport}

-- A frame of three bytes, and two bytes of the next one.
abbrev header : FrameHeader
header = record { length = 19; checksum = 1; cmd = 258; trid = 7 }

abbrev body : Bytes
body = 104 ∷ 105 ∷ 33 ∷ []

abbrev next : Bytes
next = 0 ∷ 9 ∷ []

header-IsHeader : IsHeader header
header-IsHeader = omega arith

-- The header's bytes in network order.
encode_test :
    encode false header ≡ 0 ∷ 0 ∷ 1 ∷ 2 ∷ 0 ∷ 0 ∷ 0 ∷ 7 ∷ 0 ∷ 0 ∷ 0 ∷ 1 ∷ 0 ∷ 0 ∷ 0 ∷ 19 ∷ []
encode_test = refl

process_read-frame_example :
    let (r, p) = Frame.process_read false (with_header false header (body ++ next)) in
    (r ≡ ok true)
    × (p.header ≡ header)
    × (payload_view p ≡ ok body)
    × (Frame.remaining_bytes p ≡ ok next)
process_read-frame_example =
    process_read-frame false header body next header-IsHeader refl (omega arith)

process_read-send_frame_example :
    let (sent, b) = send_frame buffer_transport true header body Buffer.make in
    let (r, p) = Frame.process_read true (received (b.buffer ++ next)) in
    (sent ≡ ok true)
    × (r ≡ ok true)
    × (p.header ≡ record { length = 19; checksum = 1; cmd = 258; trid = 7 })
    × (payload_view p ≡ ok body)
    × (Frame.remaining_bytes p ≡ ok next)
process_read-send_frame_example =
    process_read-send_frame true header body next (omega arith) (omega arith) (omega arith)

process_read-two_chunks_example :
    let (r, p) = Frame.process_read false (with_header false header (104 ∷ [])) in
    (r ≡ ok false)
    × (and_then false (105 ∷ 33 ∷ []) p ≡ Frame.process_read false (with_header false header body))
process_read-two_chunks_example =
    process_read-two_chunks false header (104 ∷ []) (105 ∷ 33 ∷ []) header-IsHeader (omega arith)
      (omega arith) (omega arith)

process_read-split_word_example :
    let (r, p) = Frame.process_read false (received (0 ∷ 0 ∷ [])) in
    (r ≡ ok false) × ((and_then false (encode false header ++ body) p).1.header ≡ header)
process_read-split_word_example =
    process_read-split_word false header (0 ∷ 0 ∷ []) body header-IsHeader (omega arith)
      (omega arith)

-- A header of length 0: the remaining bytes are the frame itself.
abbrev empty_header : FrameHeader
empty_header = record { length = 0; checksum = 1; cmd = 258; trid = 7 }

process_read-short_length_example :
    let (r, p) = Frame.process_read false (with_header false empty_header body) in
    (r ≡ ok true)
    × (Frame.payload_size p ≡ 18446744073709551600)
    × (payload_view p ≡ fault)
    × (Frame.remaining_bytes p ≡ ok (encode false empty_header ++ body))
process_read-short_length_example =
    process_read-short_length false empty_header body (omega arith) (omega arith) (omega arith)

-- A frame with a nested protocol, as `setFrame` leaves it.
abbrev nested : FrameProtocol
nested = record Frame.make { header = header; payload_protocol = some body; state = State.complete }
