-- ===== src/Client/Chunks.antt =====
-- A frame whose payload is cut by the end of a chunk, between whole ones.
use mathlib.Core.List.{map-append}
use coconut.Base
use coconut.Base.{
  ℕ, zero, suc, ◌+◌, ◌≤◌, ◌<◌, ◌≡◌, refl, sym, ap, ◌∙◌, arith, Bool, true, false, List, [], ◌∷◌,
  ◌++◌, map, append_assoc, append-nil, Option, none, some, Bytes, length-append, int_sign, Result,
  ok, M,
}
use coconut.Client.Frames.{
  Sent, AllSent, Tail, part, IsTail, stream, frame_protocol, frame_read, handed, final, turn_frames,
  frame_ok, stream_room,
}
use coconut.Client.Read.{left, read_loop, on_read_event, turn}
use coconut.Client.Stream.{Starts, frames_of, expected, event_final, final_frames, resume_frame}
use coconut.Client.{ClientController}
use coconut.Protocol.Frame
use coconut.Protocol.Frame.Delivery.{with_header}
use coconut.Protocol.Frame.Parse.{received, behind_header}
use coconut.Protocol.Frame.{FrameProtocol, FrameHeader}

-- The frame that the two chunks make up.
abbrev pub joined : FrameHeader → Bytes → Bytes → Sent
joined h first second = record { header = h; payload = first ++ second }

-- The protocol that waits for the rest of a payload.
abbrev pub waiting : Bool → FrameHeader → Bytes → FrameProtocol
waiting le h first = behind_header (with_header le h first) h

final_part :
    (le : Bool) (fs : List Sent) (h : FrameHeader) (first : Bytes)
    (c : ClientController FrameProtocol)
    → ((final le fs (part h first) c).protocol ≡ some (waiting le h first))
      × ((final le fs (part h first) c).protocol_factory ≡ c.protocol_factory)
final_part le [] h first c = (refl, refl)
final_part le (f ∷ fs) h first c =
    final_part le fs h first (handed (frame_read le f (stream le fs (part h first))) c)

-- The turn that completes the frame is the turn of a frame in one chunk.
joined_turn :
    (le : Bool) (h : FrameHeader) (first second : Bytes) (gs : List Sent) (t : Tail) (fuel : ℕ)
    (c : ClientController FrameProtocol)
    → AllSent (joined h first second ∷ gs)
    → IsTail (part h first)
    → IsTail t
    → Base.length (stream le (joined h first second ∷ gs) t) < int_sign
    → Base.length gs < fuel
    → let p = (Frame.add_to_reading_buffer (second ++ stream le gs t) (waiting le h first)).1 in
      read_loop (frame_protocol le) (suc fuel) p c
      ≡ (ok left, final le (joined h first second ∷ gs) t c)
unfolding read_loop
joined_turn le h first second gs t fuel c (i, is) k j room enough =
    let rest = stream le gs t in
    let n = stream_room le (joined h first second) rest in
    let n' = length-append first second in
    let n'' = length-append second rest in
    let e =
      resume_frame le h first (second ++ rest) k (omega arith)
      ∙ ap (λ (x : Bytes). Frame.process_read le (with_header le h x))
          (sym (append_assoc first second rest))
      ∙ frame_ok le (joined h first second) rest i (omega arith) in
    ap (λ o. turn (frame_protocol le) (read_loop (frame_protocol le) fuel) o c) e
    ∙ turn_frames le (joined h first second) gs t fuel c (i, is) j room enough

second_event :
    (le : Bool) (h : FrameHeader) (first second : Bytes) (gs : List Sent) (t : Tail) (fuel : ℕ)
    (c : ClientController FrameProtocol)
    → c.protocol_factory ≡ true
    → c.protocol ≡ some (waiting le h first)
    → AllSent (joined h first second ∷ gs)
    → IsTail (part h first)
    → IsTail t
    → 0 < Base.length second
    → Base.length (stream le (joined h first second ∷ gs) t) < int_sign
    → Base.length gs + 1 < fuel
    → let p = (Frame.add_to_reading_buffer (second ++ stream le gs t) (waiting le h first)).1 in
      on_read_event (frame_protocol le) fuel (second ++ stream le gs t) c
      ≡ (ok left, final le (joined h first second ∷ gs) t (record c { protocol = some p }))
unfolding on_read_event
second_event le h first [] gs t fuel c factory q is k j some_bytes room enough =
    absurd (omega arith)
second_event le h first (s ∷ ss) gs t zero c factory q is k j some_bytes room enough =
    absurd (omega arith)
second_event le h first (s ∷ ss) gs t (suc fuel) c factory q is k j some_bytes room enough =
    rw (factory, q) (joined_turn le h first (s ∷ ss) gs t fuel _ is k j room (omega arith))

stream_part_room :
    (le : Bool) (fs : List Sent) (h : FrameHeader) (first : Bytes)
    → 16 ≤ Base.length (stream le fs (part h first))
stream_part_room le [] h first = omega arith
stream_part_room le (f ∷ fs) h first = omega (arith, stream_room le f (stream le fs (part h first)))

-- Two chunks, the first of which ends behind the 16-byte header of a frame and before the end of its
-- payload, and the second of which has the remaining bytes, at least one, before whole frames and
-- perhaps the beginning of one, which is at least its whole header: a chunk that ends inside a
-- header is left out, be it the first or the second. The
-- controller, whose next bytes begin a frame, leaves the loop on both, with any fuel that exceeds
-- the number of the other whole frames by two or more, and `onReceivedProtocol` has then been
-- called with every whole frame of the two chunks together, once, in order, and with its header
-- and its payload as they were sent, the frame that was cut included. Each header's length counts
-- itself and its payload, and an int can count the first chunk, and the cut frame with all that
-- follows it.
pub on_read_event-two_chunks :
    (le : Bool) (fs gs : List Sent) (h : FrameHeader) (first second : Bytes) (t : Tail) (fuel : ℕ)
    (c : ClientController FrameProtocol)
    → Starts le c
    → AllSent fs
    → AllSent (joined h first second ∷ gs)
    → IsTail t
    → 0 < Base.length second
    → Base.length (stream le fs (part h first)) < int_sign
    → Base.length (stream le (joined h first second ∷ gs) t) < int_sign
    → Base.length fs + Base.length gs + 1 < fuel
    → let (r1, c1) = on_read_event (frame_protocol le) fuel (stream le fs (part h first)) c in
      let (r2, c2) = on_read_event (frame_protocol le) fuel (second ++ stream le gs t) c1 in
      (r1 ≡ ok left)
      × (r2 ≡ ok left)
      × (frames_of c2.events
          ≡ frames_of c.events ++ map expected (fs ++ joined h first second ∷ gs))
on_read_event-two_chunks le fs gs h first second t fuel c s is (g, js) j some_bytes room room'
      enough =
    let n = length-append first second in
    let k : IsTail (part h first) = (
      g.words,
      omega (arith, g.counts),
      omega (arith, stream_room le (joined h first second) (stream le gs t)),
    ) in
    let c0 = record c { protocol = some (received (stream le fs (part h first))) } in
    let c1 = final le fs (part h first) c0 in
    let next = on_read_event (frame_protocol le) fuel (second ++ stream le gs t) in
    let p = (Frame.add_to_reading_buffer (second ++ stream le gs t) (waiting le h first)).1 in
    let c2 = record c1 { protocol = some p } in
    let (q, factory) = final_part le fs h first c0 in
    let e1 =
      event_final le fs (part h first) fuel c s is k (omega (arith, stream_part_room le fs h first))
        room (omega arith) in
    let e2 =
      second_event le h first second gs t fuel c1 (factory ∙ s.factory) q (g, js) k j some_bytes
        room' (omega arith) in
    (
      ap (λ o. o.0) e1,
      ap (λ o. (next o.1).0) e1 ∙ ap (λ o. o.0) e2,
      ap (λ o. frames_of (next o.1).1.events) e1
          ∙ ap (λ o. frames_of o.1.events) e2
          ∙ final_frames le (joined h first second ∷ gs) t c2 (g, js) room'
          ∙ ap (λ l. l ++ map expected (joined h first second ∷ gs))
              (final_frames le fs (part h first) c0 is room)
          ∙ append_assoc (frames_of c.events) (map expected fs)
              (map expected (joined h first second ∷ gs))
          ∙ ap (λ l. frames_of c.events ++ l)
              (sym (map-append expected fs (joined h first second ∷ gs))),
    )
