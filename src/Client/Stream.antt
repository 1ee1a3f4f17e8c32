-- ===== src/Client/Stream.antt =====
-- A stream of frames that reaches a `ClientController` in chunks.
use coconut.Base
use coconut.Base.{
  ℕ, zero, suc, ◌+◌, ◌≤◌, ◌<◌, ◌≡◌, refl, sym, ap, ◌∙◌, arith, Bool, true, false, List, [], ◌∷◌,
  ◌++◌, map, append_assoc, append-nil, Option, none, some, Bytes, length-append, int_sign, Result,
  ok, M,
}
use coconut.Buffer
use coconut.Client.Frames.{
  Sent, AllSent, Tail, nothing, part, IsTail, stream, frame_protocol, frame_read, handed, final,
  turn_frames, loop_part, frame_ok, stream_room,
}
use coconut.Client.Read.{left, read_loop, on_read_event, current, turn}
use coconut.Client.{ClientController, Event, got_protocol, received_protocol}
use coconut.Protocol.Frame
use coconut.Protocol.Frame.Delivery.{
  payload_view, with_header, process_read-frame, process_read-waits,
}
use coconut.Protocol.Frame.Parse.{received, behind_header}
use coconut.Protocol.Frame.Split.{and_then, process_read-two_chunks}
use coconut.Protocol.Frame.{FrameProtocol, FrameHeader}

-- The frames that the controller's `onReceivedProtocol` has been called with.
abbrev pub frame_of : Event FrameProtocol → List (FrameHeader × Result Bytes)
frame_of (received_protocol p) = (p.header, payload_view p) ∷ []
frame_of _ = []

abbrev pub frames_of : List (Event FrameProtocol) → List (FrameHeader × Result Bytes)
frames_of [] = []
frames_of (e ∷ es) = frame_of e ++ frames_of es

abbrev pub expected : Sent → FrameHeader × Result Bytes
expected f = (f.header, ok f.payload)

-- A controller with a factory, whose next bytes begin a frame.
pub record Starts (le : Bool) (c : ClientController FrameProtocol) : Type 0 where
  pub factory : c.protocol_factory ≡ true
  pub fresh : current (frame_protocol le) c.protocol ≡ Frame.make

pub frames_of-append :
    (xs ys : List (Event FrameProtocol)) → frames_of (xs ++ ys) ≡ frames_of xs ++ frames_of ys
frames_of-append [] ys = refl
frames_of-append (x ∷ xs) ys =
    ap (λ l. frame_of x ++ l) (frames_of-append xs ys)
    ∙ sym (append_assoc (frame_of x) (frames_of xs) (frames_of ys))

first_turn :
    (le : Bool) (f : Sent) (fs : List Sent) (t : Tail) (fuel : ℕ)
    (c : ClientController FrameProtocol)
    → AllSent (f ∷ fs)
    → IsTail t
    → Base.length (stream le (f ∷ fs) t) < int_sign
    → Base.length fs < fuel
    → read_loop (frame_protocol le) (suc fuel) (received (stream le (f ∷ fs) t)) c
      ≡ (ok left, final le (f ∷ fs) t c)
unfolding read_loop
first_turn le f fs t fuel c (i, is) j room enough =
    let n = stream_room le f (stream le fs t) in
    ap (λ o. turn (frame_protocol le) (read_loop (frame_protocol le) fuel) o c)
      (frame_ok le f (stream le fs t) i (omega arith))
    ∙ turn_frames le f fs t fuel c (i, is) j room enough

pub event_final :
    (le : Bool) (fs : List Sent) (t : Tail) (fuel : ℕ) (c : ClientController FrameProtocol)
    → Starts le c
    → AllSent fs
    → IsTail t
    → 0 < Base.length (stream le fs t)
    → Base.length (stream le fs t) < int_sign
    → Base.length fs + 1 < fuel
    → on_read_event (frame_protocol le) fuel (stream le fs t) c
      ≡ (ok left, final le fs t (record c { protocol = some (received (stream le fs t)) }))
unfolding on_read_event Frame.add_to_reading_buffer Buffer.write
event_final le [] nothing fuel c s i j some_bytes room enough = absurd (omega arith)
event_final le [] (part h first) zero c s i j some_bytes room enough = absurd (omega arith)
event_final le [] (part h first) (suc fuel) c s i j some_bytes room enough =
    rw (s.factory, s.fresh) (loop_part le h first fuel _ j (omega arith))
event_final le (f ∷ fs) t zero c s i j some_bytes room enough = absurd (omega arith)
event_final le (f ∷ fs) t (suc fuel) c s i j some_bytes room enough =
    let n = stream_room le f (stream le fs t) in
    rw (s.factory, s.fresh) (first_turn le f fs t fuel _ i j room (omega arith))

handed_frames :
    (p : FrameProtocol) (c : ClientController FrameProtocol)
    → frames_of (handed p c).events ≡ frames_of c.events ++ (p.header, payload_view p) ∷ []
handed_frames p c =
    frames_of-append (c.events ++ got_protocol p ∷ []) (received_protocol p ∷ [])
    ∙ ap (λ l. l ++ (p.header, payload_view p) ∷ [])
        (frames_of-append c.events (got_protocol p ∷ []) ∙ rw append-nil refl)

-- What the controller has handed on is what the stream's frames were sent as.
pub final_frames :
    (le : Bool) (fs : List Sent) (t : Tail) (c : ClientController FrameProtocol)
    → AllSent fs
    → Base.length (stream le fs t) < int_sign
    → frames_of (final le fs t c).events ≡ frames_of c.events ++ map expected fs
final_frames le [] nothing c i room = rw append-nil refl
final_frames le [] (part h first) c i room = rw append-nil refl
final_frames le (f ∷ fs) t c (i, is) room =
    let rest = stream le fs t in
    let n = stream_room le f rest in
    let p = frame_read le f rest in
    let (_, head, payload, _) =
      process_read-frame le f.header f.payload rest i.words i.counts (omega arith) in
    final_frames le fs t (handed p c) is (omega arith)
    ∙ ap (λ l. l ++ map expected fs) (handed_frames p c)
    ∙ rw (head, payload) (append_assoc (frames_of c.events) (expected f ∷ []) (map expected fs))

-- A chunk of whole frames, with or without the beginning of a further one, that is not empty
-- reaches a controller whose next bytes begin a frame. What has begun is at least the whole
-- 16-byte header of the further frame, without its whole payload: a chunk that ends inside a
-- header is left out. The loop leaves, with any fuel that
-- exceeds the number of whole frames by two or more, and `onReceivedProtocol` has been called
-- with every whole frame in the chunk, once, in order, and with its header and its payload as
-- they were sent. Each header's length counts itself and its payload, and an int can count the
-- chunk and the length of the frame that has begun.
pub on_read_event-stream :
    (le : Bool) (fs : List Sent) (t : Tail) (fuel : ℕ) (c : ClientController FrameProtocol)
    → Starts le c
    → AllSent fs
    → IsTail t
    → 0 < Base.length (stream le fs t)
    → Base.length (stream le fs t) < int_sign
    → Base.length fs + 1 < fuel
    → let (r, c') = on_read_event (frame_protocol le) fuel (stream le fs t) c in
      (r ≡ ok left) × (frames_of c'.events ≡ frames_of c.events ++ map expected fs)
on_read_event-stream le fs t fuel c s i j some_bytes room enough =
    let e = event_final le fs t fuel c s i j some_bytes room enough in
    (
      ap (λ o. o.0) e,
      ap (λ o. frames_of o.1.events) e
          ∙ final_frames le fs t (record c { protocol = some (received (stream le fs t)) }) i room,
    )

-- The second chunk begins with the end of the payload that the first one cut.
pub resume_frame :
    (le : Bool) (h : FrameHeader) (first second : Bytes)
    → IsTail (part h first)
    → Base.length first + Base.length second + 16 < int_sign
    → Frame.process_read le
        (Frame.add_to_reading_buffer second (behind_header (with_header le h first) h)).1
      ≡ Frame.process_read le (with_header le h (first ++ second))
resume_frame le h first second (i, few, small) room =
    ap (λ o. and_then le second o.1) (sym (process_read-waits le h first i (omega arith) few small))
    ∙ (process_read-two_chunks le h first second i small few room).1
