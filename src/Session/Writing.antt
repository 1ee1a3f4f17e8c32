-- ===== src/Session/Writing.antt =====
-- What calls of `writeFrame` put into the output of a connected socket's bufferevent.
use coconut.Base
use coconut.Base.{
  ℕ, zero, suc, ◌+◌, ◌≤◌, ◌<◌, ◌≡◌, refl, sym, ap, ◌∙◌, arith, Bool, true, false, List, [], ◌∷◌,
  ◌++◌, map, append_assoc, append-nil, Option, none, some, Bytes, length-append, int_sign, take,
  drop, drop-all, resume, Result, ok, M, ◌>>=◌, ◌>>◌, pure, bind-ok, u32_mod, int_lt, u32_mod, ◌%◌,
  take-all, ltb,
}
use coconut.Client.Frames.{Sent, nothing, stream}
use coconut.Protocol.Frame.Parse.{encode}
use coconut.Protocol.Frame.Send.{Takes, wire_header, on_wire, send_frame_lem}
use coconut.Protocol.Frame.{FrameHeader}
use coconut.Session.{socket_transport, write_frame}
use coconut.Tcp.Transfer
use coconut.Tcp.Transfer.{Received}
use coconut.Tcp.{TcpSocket, BufferEvent, connected}

abbrev pub output_of : Option BufferEvent → Bytes
output_of none = []
output_of (some b) = b.output

-- A header and a payload that are given to `writeFrame`, and the frame that goes out for them.
abbrev pub Message : Type 0
Message = FrameHeader × Bytes

abbrev pub frame : Message → Sent
frame (h, payload) = record { header = wire_header h (Base.length payload); payload = payload }

abbrev pub frames : List Message → List Sent
frames ms = map frame ms

-- A connected socket with this bufferevent.
pub record Connected (s : TcpSocket) (b : BufferEvent) : Type 0 where
  pub state : s.state ≡ connected
  pub bev : s.bev ≡ some b

-- Calls of `writeFrame`, one after the other.
abbrev pub write_frames : ℕ → Received → Bool → List Message → M TcpSocket Bool
write_frames dns answer le [] = pure true
write_frames dns answer le ((h, payload) ∷ ms) = do
  write_frame dns answer le h payload
  write_frames dns answer le ms

abbrev pub with_output : Bytes → TcpSocket → BufferEvent → TcpSocket
with_output bytes s b = record s { bev = some (record b { output = b.output ++ bytes }) }

write-Connected :
    (c : ℕ) (cs : Bytes) (s : TcpSocket) (b : BufferEvent)
    → Connected s b
    → Base.length (c ∷ cs) < int_sign
    → Transfer.write (c ∷ cs) s ≡ (ok (Base.length (c ∷ cs)), with_output (c ∷ cs) s b)
unfolding Transfer.write Transfer.write_handle
write-Connected c cs s b h few = let t = h.state in let e = h.bev in ground (arith, t, e)

-- Each frame's words are of 32 bits.
pub record IsMessage (m : Message) : Type 0 where
  pub cmd : m.0.cmd < u32_mod
  pub trid : m.0.trid < u32_mod

abbrev pub AllMessages : List Message → Type 0
AllMessages [] = Unit
AllMessages (m ∷ ms) = IsMessage m × AllMessages ms

-- What the calls put on the wire.
abbrev pub wire : Bool → List Message → Bytes
wire le ms = stream le (frames ms) nothing

no_output : (s : TcpSocket) (b : BufferEvent) → Connected s b → s ≡ with_output [] s b
no_output s b h = rw append-nil (ap (λ x. record s { bev = x }) h.bev)

socket-Takes :
    (dns : ℕ) (answer : Received) (bytes : Bytes) (s : TcpSocket) (b : BufferEvent)
    → Connected s b
    → Base.length bytes < int_sign
    → Takes (socket_transport dns answer) bytes s (with_output bytes s b)
socket-Takes dns answer [] s b h few = no_output s b h
socket-Takes dns answer (c ∷ cs) s b h few = write-Connected c cs s b h few

-- One call of `writeFrame`.
write_frame_lem :
    (dns : ℕ) (answer : Received) (le : Bool) (m : Message) (s : TcpSocket) (b : BufferEvent)
    → Connected s b
    → Base.length m.1 + 16 < int_sign
    → write_frame dns answer le m.0 m.1 s ≡ (ok true, with_output (on_wire le m.0 m.1) s b)
unfolding write_frame
write_frame_lem dns answer le m s b h few =
    let bytes = on_wire le m.0 m.1 in
    send_frame_lem (socket_transport dns answer) le m.0 m.1 s (with_output bytes s b) few
      (socket-Takes dns answer bytes s b h (omega arith))

pub wire_size :
    (le : Bool) (m : Message) (ms : List Message)
    → Base.length (wire le (m ∷ ms)) ≡ 16 + Base.length m.1 + Base.length (wire le ms)
wire_size le m ms = omega (arith, length-append m.1 (wire le ms))

pub write_frames_lem :
    (dns : ℕ) (answer : Received) (le : Bool) (ms : List Message) (s : TcpSocket) (b : BufferEvent)
    → Connected s b
    → Base.length (wire le ms) < int_sign
    → write_frames dns answer le ms s ≡ (ok true, with_output (wire le ms) s b)
write_frames_lem dns answer le [] s b h few = ap (λ x. (ok true, x)) (no_output s b h)
write_frames_lem dns answer le (m ∷ ms) s b h few =
    let n = wire_size le m ms in
    let bytes = on_wire le m.0 m.1 in
    let b' : BufferEvent = record b { output = b.output ++ bytes } in
    let h' : Connected (with_output bytes s b) b' = record { state = h.state; bev = refl } in
    bind-ok (write_frame dns answer le m.0 m.1) (λ _. write_frames dns answer le ms)
      (write_frame_lem dns answer le m s b h (omega arith))
    ∙ write_frames_lem dns answer le ms (with_output bytes s b) b' h' (omega arith)
    ∙ ap (λ x. (ok true, record s { bev = some (record b { output = x }) }))
        (append_assoc b.output bytes (wire le ms)
          ∙ ap (λ x. b.output ++ x) (append_assoc (encode le (frame m).header) m.1 (wire le ms)))
