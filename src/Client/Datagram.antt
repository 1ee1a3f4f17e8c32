-- ===== src/Client/Datagram.antt =====
-- Frames in datagrams, which `onSocket_ReadFrom` gives to the protocol one by one.
use coconut.Base
use coconut.Base.{
  ℕ, ◌+◌, ◌-◌, ◌≤◌, ◌<◌, ◌≡◌, refl, sym, ap, ◌∙◌, arith, Bool, true, false, [], ◌∷◌, ◌++◌, some,
  Bytes, take, append-nil, int_sign, Result, ok,
}
use coconut.Buffer
use coconut.Client.Chunks.{waiting}
use coconut.Client.Frames.{frame_protocol, Sent, IsSent, frame_read, frame_ok}
use coconut.Client.Read.{on_read_from, datagram_read}
use coconut.Client.Stream.{Starts, frames_of, frames_of-append, expected}
use coconut.Client.{ClientController, received_protocol}
use coconut.Protocol.Frame
use coconut.Protocol.Frame.Delivery.{payload_view, with_header, process_read-frame}
use coconut.Protocol.Frame.Parse.{encode}
use coconut.Protocol.Frame.{FrameProtocol, FrameHeader, State}

-- The frame of a protocol that `onReceivedProtocol` is called with.
read_frames :
    (le : Bool) (p q : FrameProtocol) (c : ClientController FrameProtocol)
    → Frame.process_read le p ≡ (ok true, q)
    → frames_of (datagram_read (frame_protocol le) (Frame.process_read le p) c).1.events
      ≡ frames_of c.events ++ (q.header, payload_view q) ∷ []
read_frames le p q c e =
    ap (λ o. frames_of (datagram_read (frame_protocol le) o c).1.events) e
    ∙ frames_of-append c.events (received_protocol q ∷ [])

-- A datagram that is one whole frame, to a controller whose next bytes begin a frame:
-- `onReceivedProtocol` is called with it, as it was sent. Its length counts itself and its payload,
-- and an int can count it.
on_read_from-frame :
    (le : Bool) (f : Sent) (c : ClientController FrameProtocol)
    → Starts le c
    → IsSent f
    → Base.length f.payload + 16 < int_sign
    → frames_of (on_read_from (frame_protocol le) (encode le f.header ++ f.payload) c).1.events
      ≡ frames_of c.events ++ expected f ∷ []
unfolding on_read_from Frame.add_to_reading_buffer Buffer.write
on_read_from-frame le f c s i room =
    let (_, head, payload, _) =
      process_read-frame le f.header f.payload [] i.words i.counts (omega arith) in
    let q = frame_read le f [] in
    let e : Frame.process_read le (with_header le f.header f.payload) ≡ (ok true, q) =
      ap (λ (xs : Bytes). Frame.process_read le (with_header le f.header xs))
        (sym (append-nil f.payload))
      ∙ frame_ok le f [] i (omega arith) in
    rw (s.factory, s.fresh)
      (read_frames le (with_header le f.header f.payload) q (record c { protocol_factory = true }) e
        ∙ ap (λ (x : FrameHeader × Result Bytes). frames_of c.events ++ x ∷ [])
            (ap (λ (x : FrameHeader). (x, payload_view q)) head
              ∙ ap (λ (r : Result Bytes). (f.header, r)) payload))

-- The protocol that a cut frame has left, when the next datagram has replaced its bytes.
abbrev refilled : Bool → FrameHeader → Bytes → Bytes → FrameProtocol
refilled le h first datagram = record (waiting le h first) {
  read_buffer = record { buffer = datagram; read_pos = 0 };
  writebuffer = Buffer.make;
}

abbrev misread : Bool → FrameHeader → Bytes → Bytes → FrameProtocol
misread le h first datagram = record (refilled le h first datagram) {
  init_header = h;
  payload_pos = 0;
  state = State.complete;
}

refilled_lem :
    (le : Bool) (h : FrameHeader) (first datagram : Bytes)
    → h.length ≤ Base.length datagram
    → Base.length datagram < int_sign
    → Frame.process_read le (refilled le h first datagram) ≡ (ok true, misread le h first datagram)
unfolding Frame.process_read Frame.read_payload Buffer.total_size
refilled_lem le h first datagram enough room = ground arith

misread_lem :
    (le : Bool) (h : FrameHeader) (first datagram : Bytes)
    → h.length ≤ Base.length datagram
    → 0 < h.length
    → Base.length datagram < int_sign
    → payload_view (misread le h first datagram) ≡ ok (take h.length datagram)
unfolding Frame.payload_ptr Frame.payload_size Buffer.total_size
misread_lem le h first datagram enough some_bytes room = ground arith

-- A datagram has brought a header but not the whole frame. The next datagram replaces the bytes but
-- not the header: when it is at least as long as that header says, and an int can count it,
-- `onReceivedProtocol` is called with a frame of the old header, whose payload is the beginning of
-- the new datagram, its own header included.
pub on_read_from-after_cut :
    (le : Bool) (h : FrameHeader) (first datagram : Bytes) (c : ClientController FrameProtocol)
    → c.protocol_factory ≡ true
    → c.protocol ≡ some (waiting le h first)
    → 0 < h.length
    → h.length ≤ Base.length datagram
    → Base.length datagram < int_sign
    → frames_of (on_read_from (frame_protocol le) datagram c).1.events
      ≡ frames_of c.events ++ (h, ok (take h.length datagram)) ∷ []
unfolding on_read_from Frame.add_to_reading_buffer Buffer.write
on_read_from-after_cut le h first datagram c factory q some_bytes enough room =
    rw (factory, q)
      (read_frames le (refilled le h first datagram) (misread le h first datagram)
          (record c { protocol_factory = true; protocol = some (waiting le h first) })
          (refilled_lem le h first datagram enough room)
        ∙ ap (λ (r : Result Bytes). frames_of c.events ++ (h, r) ∷ [])
            (misread_lem le h first datagram enough some_bytes room))
