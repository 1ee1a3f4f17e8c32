-- ===== src/Client/Frames.antt =====
-- A `ClientController` of frames: `FrameController`'s protocol under the reading loop.
use coconut.Base
use coconut.Base.{
  ℕ, zero, suc, ◌+◌, ◌≤◌, ◌<◌, ◌≡◌, refl, sym, ap, ◌∙◌, arith, Bool, true, false, List, [], ◌∷◌,
  ◌++◌, map, append_assoc, append-nil, Option, none, some, Bytes, ltb, length-append, int_sign,
  Result, ok, throws, fault, M,
}
use coconut.Buffer
use coconut.Client.Read.{left, read_loop, turn, leave}
use coconut.Client.{Protocol, ClientController, got_protocol, received_protocol}
use coconut.Protocol.Frame
use coconut.Protocol.Frame.Delivery.{
  with_header, process_read-frame, process_read-frame_size, process_read-waits,
}
use coconut.Protocol.Frame.Parse.{IsHeader, encode, received, behind_header}
use coconut.Protocol.Frame.{FrameProtocol, FrameHeader, State, is_read_complete}

-- `BaseProtocol::resetBuffer`
abbrev pub reset_buffer : FrameProtocol → FrameProtocol
reset_buffer p = record p { read_buffer = Buffer.make; writebuffer = Buffer.make }

-- The factory that `FrameController` installs.
abbrev pub frame_protocol : Bool → Protocol FrameProtocol
frame_protocol le = record {
  make_protocol = Frame.make;
  is_read_complete = is_read_complete;
  add_to_reading_buffer = λ bytes p. (Frame.add_to_reading_buffer bytes p).1;
  process_read_from_reading_buffer = Frame.process_read le;
  remaining_buffer_size = Frame.remaining_buffer_size;
  remaining_bytes = Frame.remaining_bytes;
  is_invalid_packet_received = λ p. false;
  reset_buffer = reset_buffer;
}

-- A frame as its sender puts it on the wire.
pub record Sent : Type 0 where
  pub header : FrameHeader
  pub payload : Bytes

pub record IsSent (f : Sent) : Type 0 where
  pub words : IsHeader f.header
  pub counts : f.header.length ≡ 16 + Base.length f.payload

abbrev pub AllSent : List Sent → Type 0
AllSent [] = Unit
AllSent (f ∷ fs) = IsSent f × AllSent fs

-- How a chunk ends: behind a frame, or inside the payload of one.
pub data Tail : Type 0 where
  nothing : Tail
  part : FrameHeader → Bytes → Tail

abbrev pub tail_bytes : Bool → Tail → Bytes
tail_bytes le nothing = []
tail_bytes le (part h first) = encode le h ++ first

abbrev pub IsTail : Tail → Type 0
IsTail nothing = Unit
IsTail (part h first) = IsHeader h × (16 + Base.length first < h.length) × (h.length ≤ int_sign)

abbrev pub stream : Bool → List Sent → Tail → Bytes
stream le [] t = tail_bytes le t
stream le (f ∷ fs) t = encode le f.header ++ (f.payload ++ stream le fs t)

-- The protocol that has read a frame with `rest` behind it.
abbrev pub frame_read : Bool → Sent → Bytes → FrameProtocol
frame_read le f rest = (Frame.process_read le (with_header le f.header (f.payload ++ rest))).1

-- The controller when a protocol has been handed on.
abbrev pub handed : FrameProtocol → ClientController FrameProtocol → ClientController FrameProtocol
handed p c = record c {
  protocol = some p;
  events = (c.events ++ got_protocol p ∷ []) ++ received_protocol p ∷ [];
}

-- The controller behind a whole stream.
abbrev pub final :
    Bool → List Sent → Tail → ClientController FrameProtocol → ClientController FrameProtocol
final le [] nothing c = c
final le [] (part h first) c = record c {
  protocol = some (behind_header (with_header le h first) h);
}
final le (f ∷ fs) t c = final le fs t (handed (frame_read le f (stream le fs t)) c)

pub frame_ok :
    (le : Bool) (f : Sent) (rest : Bytes)
    → IsSent f
    → Base.length f.payload + Base.length rest + 16 < int_sign
    → Frame.process_read le (with_header le f.header (f.payload ++ rest))
      ≡ (ok true, frame_read le f rest)
frame_ok le f rest i room =
    ap (λ r. (r, frame_read le f rest))
      (process_read-frame le f.header f.payload rest i.words i.counts room).0

-- One turn of the loop hands a frame on; the rest is for a new protocol, when there is any.
turn_last :
    (le : Bool) (f : Sent) (fuel : ℕ) (c : ClientController FrameProtocol)
    → IsSent f
    → Base.length f.payload + 16 < int_sign
    → turn (frame_protocol le) (read_loop (frame_protocol le) fuel) (ok true, frame_read le f []) c
      ≡ (ok left, handed (frame_read le f []) c)
unfolding leave
turn_last le f fuel c i room =
    let (n, _) = process_read-frame_size le f.header f.payload [] i.words i.counts (omega arith) in
    rw n refl

turn_more :
    (le : Bool) (f : Sent) (b : ℕ) (bs : Bytes) (fuel : ℕ) (c : ClientController FrameProtocol)
    → IsSent f
    → Base.length f.payload + Base.length (b ∷ bs) + 16 < int_sign
    → turn
        (frame_protocol le)
        (read_loop (frame_protocol le) fuel)
        (ok true, frame_read le f (b ∷ bs))
        c
      ≡ read_loop
          (frame_protocol le)
          fuel
          (received (b ∷ bs))
          (record (handed (frame_read le f (b ∷ bs)) c) { protocol = some (received (b ∷ bs)) })
unfolding Frame.add_to_reading_buffer Buffer.write
turn_more le f b bs fuel c i room =
    let (n, _) = process_read-frame_size le f.header f.payload (b ∷ bs) i.words i.counts room in
    let (_, _, _, r) = process_read-frame le f.header f.payload (b ∷ bs) i.words i.counts room in
    let some_left : ltb 0 (Base.length (b ∷ bs)) ≡ true = ground arith in rw (n, some_left, r) refl

-- The last turn: the chunk ends inside a payload, and the loop leaves.
pub loop_part :
    (le : Bool) (h : FrameHeader) (first : Bytes) (fuel : ℕ) (c : ClientController FrameProtocol)
    → IsTail (part h first)
    → Base.length first + 16 < int_sign
    → read_loop (frame_protocol le) (suc fuel) (with_header le h first) c
      ≡ (ok left, final le [] (part h first) c)
unfolding read_loop leave
loop_part le h first fuel c (i, few, small) room =
    ap (λ o. turn (frame_protocol le) (read_loop (frame_protocol le) fuel) o c)
      (process_read-waits le h first i room few small)

pub stream_room :
    (le : Bool) (f : Sent) (rest : Bytes)
    → Base.length (encode le f.header ++ (f.payload ++ rest))
      ≡ 16 + (Base.length f.payload + Base.length rest)
stream_room le f rest = omega (arith, length-append f.payload rest)

pub turn_frames :
    (le : Bool) (f : Sent) (fs : List Sent) (t : Tail) (fuel : ℕ)
    (c : ClientController FrameProtocol)
    → AllSent (f ∷ fs)
    → IsTail t
    → Base.length (stream le (f ∷ fs) t) < int_sign
    → Base.length fs < fuel
    → turn
        (frame_protocol le)
        (read_loop (frame_protocol le) fuel)
        (ok true, frame_read le f (stream le fs t))
        c
      ≡ (ok left, final le (f ∷ fs) t c)
unfolding read_loop
turn_frames le f [] nothing fuel c (i, _) j room enough =
    let n = stream_room le f [] in turn_last le f fuel c i (omega arith)
turn_frames le f [] (part h first) (suc fuel) c (i, _) j room enough =
    let n = stream_room le f (encode le h ++ first) in
    turn_more le f _ _ (suc fuel) c i (omega arith) ∙ loop_part le h first fuel _ j (omega arith)
turn_frames le f (g ∷ gs) t (suc fuel) c (i, (k, ks)) j room enough =
    let rest = stream le (g ∷ gs) t in
    let n = stream_room le f rest in
    let n' = stream_room le g (stream le gs t) in
    let p = frame_read le f rest in
    let c' = record (handed p c) { protocol = some (received rest) } in
    turn_more le f _ _ (suc fuel) c i (omega arith)
    ∙ ap (λ o. turn (frame_protocol le) (read_loop (frame_protocol le) fuel) o c')
        (frame_ok le g (stream le gs t) k (omega arith))
    ∙ turn_frames le g gs t fuel c' (k, ks) j (omega arith) (omega arith)
turn_frames le f [] (part h first) zero c _ j room enough = ground arith
turn_frames le f (g ∷ gs) t zero c _ j room enough = ground arith
