-- ===== src/Session.antt =====
-- A controller on its socket: `ClientController::onSocket_ReadEvent` (src/ClientController.cpp) with the
-- chunk that it takes from `TcpSocket::read`, and `FrameController::writeFrame`
-- (src/FrameController.cpp) with `TcpSocket::write` under the protocol (src/LibeventTcpSocketImpl.h).
pub mod Writing
pub mod Delivery
mod Tests
use coconut.Base.{
  ℕ, ◌*◌, Bool, true, List, [], ◌∷◌, Bytes, int_lt, if◌then◌else◌, Result, M, ◌>>=◌, ◌>>◌, pure,
}
use coconut.Client.Read.{Exit, on_read_event}
use coconut.Client.{Protocol, ClientController}
use coconut.Protocol.Frame.Send.{send_frame}
use coconut.Protocol.Frame.{FrameHeader}
use coconut.Tcp.Transfer
use coconut.Tcp.Transfer.{Received}
use coconut.Tcp.{TcpSocket}
use coconut.Wire.{Transport}

-- IOBUF_LEN
abbrev pub iobuf_len : ℕ
iobuf_len = 16 * 1024

-- The socket as the transport of a protocol, with what the system answers to a read.
abbrev pub socket_transport : ℕ → Received → Transport TcpSocket
socket_transport dns answer = record {
  read = λ size. (do (n, data_bytes) ← Transfer.read dns answer size; pure data_bytes);
  write = Transfer.write;
}

-- `writeFrame` with a payload.
unfoldable pub write_frame : ℕ → Received → Bool → FrameHeader → Bytes → M TcpSocket Bool
write_frame dns answer le h payload = send_frame (socket_transport dns answer) le h payload

-- What `read` has put into the chunk, when its int exceeds 0.
abbrev pub chunk_of : ℕ × Bytes → Bytes
chunk_of (n, data_bytes) = if int_lt 0 n then data_bytes else []

-- The socket and its controller.
unfoldable pub on_socket_read_event :
    {P : Type 0} → Protocol P → ℕ → ℕ → Received → M (TcpSocket × ClientController P) Exit
on_socket_read_event factory fuel dns answer =
    (λ q. let (r, s) = Transfer.read dns answer iobuf_len q.0 in (r, (s, q.1))) >>= λ o.
    λ q. let (r, c) = on_read_event factory fuel (chunk_of o) q.1 in (r, (q.0, c))
