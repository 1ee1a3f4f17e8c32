-- ===== src/Client/Tests.antt =====
-- A controller of frames at concrete chunks.

use coconut.Base.{some, ◌≡◌, refl, arith, true, false, [], ◌∷◌, ◌++◌, ok}
use coconut.Client
use coconut.Client.Chunks.{joined, on_read_event-two_chunks}
use coconut.Client.Chunks.{waiting}
use coconut.Client.Datagram.{on_read_from-after_cut}
use coconut.Client.Endless.{on_read_event-endless}
use coconut.Client.Frames.{Sent, IsSent, nothing, part, stream, frame_protocol}
use coconut.Client.Read.{left, out_of_fuel, on_read_event, on_read_from}
use coconut.Client.Rearm
use coconut.Client.Rearm.{Reachable, start, step, perform, armed}
use coconut.Client.Reconnect.{armed_lost}
use coconut.Client.Stream.{Starts, frames_of, on_read_event-stream}
use coconut.Client.{ClientController}
use coconut.Protocol.Frame.Parse.{encode}
use coconut.Protocol.Frame.{FrameProtocol, FrameHeader}

abbrev ping : Sent
ping = record {
  header = record { length = 17; checksum = 1; cmd = 1; trid = 5 };
  payload = 80 ∷ [];
}

abbrev pong_header : FrameHeader
pong_header = record { length = 19; checksum = 1; cmd = 2; trid = 6 }

abbrev client : ClientController FrameProtocol
client = Client.make true

client-Starts : Starts false client
client-Starts = record { factory = refl; fresh = refl }

ping-IsSent : IsSent ping
ping-IsSent = record { words = omega arith; counts = refl }

pong-IsSent : IsSent (joined pong_header (65 ∷ []) (66 ∷ 67 ∷ []))
pong-IsSent = record { words = omega arith; counts = refl }

-- Two frames and the beginning of a third one.
on_read_event-stream_example :
    let chunk = stream false (ping ∷ ping ∷ []) (part pong_header (65 ∷ [])) in
    let (r, c) = on_read_event (frame_protocol false) 9 chunk client in
    (r ≡ ok left)
    × (frames_of c.events ≡ (ping.header, ok (80 ∷ [])) ∷ (ping.header, ok (80 ∷ [])) ∷ [])
on_read_event-stream_example =
    on_read_event-stream false (ping ∷ ping ∷ []) (part pong_header (65 ∷ [])) 9 client
      client-Starts (ping-IsSent, (ping-IsSent, tt)) (omega arith) (omega arith) (omega arith)
      (omega arith)

on_read_event-two_chunks_example :
    let (r1, c1) =
      on_read_event
        (frame_protocol false)
        9
        (stream false (ping ∷ []) (part pong_header (65 ∷ [])))
        client in
    let (r2, c2) =
      on_read_event
        (frame_protocol false)
        9
        ((66 ∷ 67 ∷ []) ++ stream false (ping ∷ []) nothing)
        c1 in
    (r1 ≡ ok left)
    × (r2 ≡ ok left)
    × (frames_of c2.events
        ≡ (ping.header, ok (80 ∷ []))
          ∷ (pong_header, ok (65 ∷ 66 ∷ 67 ∷ []))
          ∷ (ping.header, ok (80 ∷ []))
          ∷ [])
on_read_event-two_chunks_example =
    on_read_event-two_chunks false (ping ∷ []) (ping ∷ []) pong_header (65 ∷ []) (66 ∷ 67 ∷ [])
      nothing 9 client client-Starts (ping-IsSent, tt) (pong-IsSent, (ping-IsSent, tt)) tt
      (omega arith) (omega arith) (omega arith) (omega arith)

abbrev empty_header : FrameHeader
empty_header = record { length = 0; checksum = 1; cmd = 1; trid = 5 }

on_read_event-endless_example :
    (on_read_event (frame_protocol false) 1000 (encode false empty_header ++ 80 ∷ []) client).0
    ≡ ok out_of_fuel
on_read_event-endless_example =
    on_read_event-endless false empty_header (80 ∷ []) 1000 client (omega arith) refl (omega arith)
      client-Starts

-- A connection that is lost, and found again by the reconnect timer.
abbrev lost : ClientController FrameProtocol
lost = perform Rearm.closed client

abbrev found : ClientController FrameProtocol
found = perform (Rearm.timer Client.reconnect_id true) lost

lost-Reachable : Reachable lost
lost-Reachable = step client Rearm.closed (start true)

armed-lost : armed lost ≡ true
unfolding Client.on_socket_close Client.process_reconnect
armed-lost = refl

armed-found : armed found ≡ false
unfolding Client.on_socket_close Client.process_reconnect Client.on_timer
armed-found = refl

armed_lost_example :
    (armed (perform Rearm.closed found) ≡ found.reconnectable)
    × (armed (perform (Rearm.error 111) found) ≡ found.reconnectable)
armed_lost_example =
    armed_lost found 111 (step lost (Rearm.timer Client.reconnect_id true) lost-Reachable)

-- A client that a cut datagram has left with a header.
abbrev cut_client : ClientController FrameProtocol
cut_client = record client { protocol = some (waiting false ping.header []) }

on_read_from-after_cut_example :
    frames_of
      (on_read_from
        (frame_protocol false)
        (encode false pong_header ++ 65 ∷ 66 ∷ 67 ∷ [])
        cut_client).1.events
    ≡ (ping.header, ok (encode false pong_header ++ 65 ∷ [])) ∷ []
on_read_from-after_cut_example =
    on_read_from-after_cut false ping.header [] (encode false pong_header ++ 65 ∷ 66 ∷ 67 ∷ [])
      cut_client refl refl (omega arith) (omega arith) (omega arith)
