-- ===== src/Session/Delivery.antt =====
-- Frames from one controller's `writeFrame` to the other one's `onReceivedProtocol`, through the
-- bufferevents of their sockets.
use coconut.Base
use coconut.Base.{
  ℕ, zero, suc, ◌+◌, ◌≤◌, ◌<◌, ◌≡◌, refl, sym, ap, ◌∙◌, arith, Bool, true, false, List, [], ◌∷◌,
  ◌++◌, map, append_assoc, append-nil, Option, none, some, Bytes, length-append, int_sign, take,
  drop, drop-all, resume, Result, ok, M, ◌>>=◌, ◌>>◌, pure, bind-ok, u32_mod, int_lt, u32_mod, ◌%◌,
  take-all, ltb,
}
use coconut.Client.Frames.{AllSent, nothing, frame_protocol}
use coconut.Client.Read.{left, on_read_event}
use coconut.Client.Stream.{Starts, frames_of, expected, on_read_event-stream}
use coconut.Client.{ClientController}
use coconut.Protocol.Frame.{FrameProtocol}
use coconut.Session.Writing.{
  output_of, Message, frames, Connected, write_frames, AllMessages, wire, wire_size,
  write_frames_lem,
}
use coconut.Session.{iobuf_len, on_socket_read_event, chunk_of}
use coconut.Tcp.Transfer
use coconut.Tcp.Transfer.{Received}
use coconut.Tcp.{TcpSocket, BufferEvent}

wire_some : (le : Bool) (ms : List Message) → 0 < Base.length ms → 0 < Base.length (wire le ms)
wire_some le [] h = absurd (omega arith)
wire_some le (m ∷ ms) h = omega (arith, wire_size le m ms)

frames-AllSent :
    (le : Bool) (ms : List Message)
    → AllMessages ms
    → Base.length (wire le ms) < int_sign
    → AllSent (frames ms)
frames-AllSent le [] i few = tt
frames-AllSent le (m ∷ ms) (i, is) few =
    let n = wire_size le m ms in
    (
      record { words = omega (arith, i.cmd, i.trid); counts = refl },
      frames-AllSent le ms is (omega arith),
    )

frames_size : (ms : List Message) → Base.length (frames ms) ≡ Base.length ms
frames_size [] = refl
frames_size (m ∷ ms) = omega (arith, frames_size ms)

-- A read that takes all the input.
read-all :
    (bytes : Bytes) (dns : ℕ) (answer : Received) (s : TcpSocket) (b : BufferEvent)
    → s.bev ≡ some (record b { input = bytes })
    → 0 < Base.length bytes
    → Base.length bytes ≤ iobuf_len
    → Transfer.read dns answer iobuf_len s
      ≡ (ok (Base.length bytes, bytes), record s { bev = some (record b { input = [] }) })
unfolding Transfer.read Transfer.read_buffer_event
read-all bytes dns answer s b got some_bytes few =
    let test : ltb 0 (Base.length bytes) ≡ true = ground arith in
    let n : Base.length bytes % u32_mod ≡ Base.length bytes = omega arith in
    rw got (
      rw test (
        rw (take-all iobuf_len bytes few) (
          rw (drop-all (Base.length bytes) bytes (omega arith)) (
            ap (λ (x : ℕ). (ok (x, bytes), record s { bev = some (record b { input = [] }) })) n))))

chunk_of-all :
    (bytes : Bytes)
    → 0 < Base.length bytes
    → Base.length bytes ≤ iobuf_len
    → chunk_of (Base.length bytes, bytes) ≡ bytes
chunk_of-all bytes some_bytes few = ground arith

-- A read event for input that one read takes.
on_socket_read_event_lem :
    (le : Bool) (bytes : Bytes) (fuel dns : ℕ) (answer : Received) (s : TcpSocket) (b : BufferEvent)
    (c : ClientController FrameProtocol)
    → s.bev ≡ some (record b { input = bytes })
    → 0 < Base.length bytes
    → Base.length bytes ≤ iobuf_len
    → let (r, c') = on_read_event (frame_protocol le) fuel bytes c in
      on_socket_read_event (frame_protocol le) fuel dns answer (s, c)
      ≡ (r, (record s { bev = some (record b { input = [] }) }, c'))
unfolding on_socket_read_event
on_socket_read_event_lem le bytes fuel dns answer s b c got some_bytes few =
    let e = read-all bytes dns answer s b got some_bytes few in
    let s' : TcpSocket = record s { bev = some (record b { input = [] }) } in
    ap
      (λ o.
        resume
          (λ x q.
            let (r, c') = on_read_event (frame_protocol le) fuel (chunk_of x) q.1 in (r, (q.0, c')))
          (o.0, (o.1, c)))
      e
    ∙ ap (λ x. let (r, c') = on_read_event (frame_protocol le) fuel x c in (r, (s', c')))
        (chunk_of-all bytes some_bytes few)

-- What the wire carries from a bufferevent to another one.
abbrev pub arrives : TcpSocket → BufferEvent → TcpSocket → TcpSocket
arrives sender b receiver = record receiver {
  bev = some (record b { input = output_of sender.bev });
}

-- A connected socket, whose bufferevent has no output yet, is given frames with a payload by calls
-- of `writeFrame`; their commands and transaction ids are 32-bit words, there is at least one, and
-- they fit into the chunk of a read. When the wire has carried the output to the other socket, its
-- read event hands every frame to the controller's `onReceivedProtocol`, once and in order, with the
-- command, transaction id and payload that `writeFrame` was given, checksum 1 and the length of
-- the frame, and leaves the reading loop and no input. The controller's next bytes begin a frame,
-- and the fuel exceeds the number of frames by two or more.
pub write_frames-delivered :
    (le : Bool) (ms : List Message) (dns fuel : ℕ) (answer : Received) (s receiver : TcpSocket)
    (b b' : BufferEvent) (c : ClientController FrameProtocol)
    → Connected s b
    → b.output ≡ []
    → AllMessages ms
    → 0 < Base.length ms
    → Base.length (wire le ms) ≤ iobuf_len
    → Starts le c
    → Base.length ms + 1 < fuel
    → let (r, s') = write_frames dns answer le ms s in
      let (exit, (t, c')) =
        on_socket_read_event (frame_protocol le) fuel dns answer (arrives s' b' receiver, c) in
      (r ≡ ok true)
      × (exit ≡ ok left)
      × (frames_of c'.events ≡ frames_of c.events ++ map expected (frames ms))
      × (t.bev ≡ some (record b' { input = [] }))
write_frames-delivered le ms dns fuel answer s receiver b b' c h none_yet i some_frames room starts
      enough =
    let w = wire le ms in
    let some_bytes : 0 < Base.length w = wire_some le ms some_frames in
    let sent = write_frames_lem dns answer le ms s b h (omega arith) in
    let out : output_of (write_frames dns answer le ms s).1.bev ≡ w =
      ap (λ o. output_of o.1.bev) sent ∙ ap (λ x. x ++ w) none_yet in
    let got = record receiver { bev = some (record b' { input = w }) } in
    let event =
      ap
        (λ x.
          on_socket_read_event (frame_protocol le) fuel dns answer
            (record receiver { bev = some (record b' { input = x }) }, c))
        out
      ∙ on_socket_read_event_lem le w fuel dns answer got b' c refl some_bytes room in
    let n = frames_size ms in
    let (exit, read) =
      on_read_event-stream le (frames ms) nothing fuel c starts
        (frames-AllSent le ms i (omega arith)) tt some_bytes (omega arith) (omega arith) in
    (
      ap (λ o. o.0) sent,
      ap (λ o. o.0) event ∙ exit,
      ap (λ o. frames_of o.1.1.events) event ∙ read,
      ap (λ o. o.1.0.bev) event,
    )
