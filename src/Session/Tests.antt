-- ===== src/Session/Tests.antt =====
-- A frame from one socket to the other at concrete values.
use coconut.Base.{◌≡◌, refl, arith, true, List, [], ◌∷◌, some, ok}
use coconut.Client
use coconut.Client.Frames.{frame_protocol}
use coconut.Client.Read.{left}
use coconut.Client.Stream.{frames_of}
use coconut.Client.{ClientController}
use coconut.Protocol.Frame.{FrameProtocol}
use coconut.Session.{on_socket_read_event}
use coconut.Session.Delivery.{arrives, write_frames-delivered}
use coconut.Session.Writing.{Message, write_frames}
use coconut.Tcp
use coconut.Tcp.Transfer.{eof}
use coconut.Tcp.{TcpSocket, BufferEvent, connected}

abbrev idle : BufferEvent
idle = record { input = []; output = [] }

abbrev socket : TcpSocket
socket = record (Tcp.make true) { state = connected; bev = some idle }

abbrev client : ClientController FrameProtocol
client = Client.make true

abbrev messages : List Message
messages =
    (record { length = 0; checksum = 0; cmd = 3; trid = 7 }, 65 ∷ 66 ∷ [])
    ∷ (record { length = 9; checksum = 0; cmd = 4; trid = 8 }, [])
    ∷ []

write_frames-delivered_example :
    let (r, s) = write_frames 0 eof true messages socket in
    let (exit, (t, c)) =
      on_socket_read_event (frame_protocol true) 4 0 eof (arrives s idle socket, client) in
    (r ≡ ok true)
    × (exit ≡ ok left)
    × (frames_of c.events
        ≡ (record { length = 18; checksum = 1; cmd = 3; trid = 7 }, ok (65 ∷ 66 ∷ []))
          ∷ (record { length = 16; checksum = 1; cmd = 4; trid = 8 }, ok [])
          ∷ [])
    × (t.bev ≡ some idle)
write_frames-delivered_example =
    write_frames-delivered true messages 0 4 eof socket socket idle idle client
      (record { state = refl; bev = refl }) refl
      (
        record { cmd = omega arith; trid = omega arith },
        (record { cmd = omega arith; trid = omega arith }, tt),
      )
      (omega arith) (omega arith) (record { factory = refl; fresh = refl }) (omega arith)
