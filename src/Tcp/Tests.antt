-- ===== src/Tcp/Tests.antt =====
-- Sockets at concrete values.
use coconut.Base.{◌≡◌, refl, arith, true, false, List, [], ◌∷◌, ◌++◌, some, ok}
use coconut.Kbuffer.Queue.{Queue, flatten, drain}
use coconut.Tcp
use coconut.Tcp.Connect
use coconut.Tcp.Transfer
use coconut.Tcp.{
  TcpSocket, connecting, connected, disconnected, is_some, socket_initialized, socket_error,
  socket_text, etimedout,
}
use coconut.Tcp.Connect.{bev_connected, bev_error}
use coconut.Tcp.Transfer.{took, refused, eagain}
use coconut.Tcp.History.{Inv, Reachable, start, step, run, attach, write}
use coconut.Tcp.Invariant.{Inv-Reachable}
use coconut.Tcp.Sending
use coconut.Tcp.Sending.{Sending, play, sent, writable}
use coconut.Tcp.Order.{play-Sending}
use coconut.Tcp.Pending.{started, connect_unix-write}

-- A descriptor that has been attached, and three bytes written to it.
abbrev attached : TcpSocket
attached = (run (attach 5 true) (Tcp.make true)).1

abbrev busy : TcpSocket
busy = (run (write (1 ∷ 2 ∷ 3 ∷ [])) attached).1

busy-Reachable : Reachable busy
unfolding Connect.attach_socket_handle Connect.throw_exception_if_not_init_state
    Connect.create_event Connect.install Connect.read_cb Tcp.fire Tcp.mark_read Tcp.mark_write
    Transfer.write Transfer.write_handle Transfer.add_pending
busy-Reachable =
    step attached (write (1 ∷ 2 ∷ 3 ∷ [])) refl (ground arith)
      (step (Tcp.make true) (attach 5 true) refl (ground arith) (start true))

busy-Sending : Sending false busy ((1 ∷ 2 ∷ 3 ∷ []) ∷ [])
unfolding Connect.attach_socket_handle Connect.throw_exception_if_not_init_state
    Connect.create_event Connect.install Connect.read_cb Tcp.fire Tcp.mark_read Tcp.mark_write
    Transfer.write Transfer.write_handle Transfer.add_pending
busy-Sending = record {
  state = refl;
  bev = refl;
  ev_write = refl;
  queue = refl;
  running = refl;
  expired = refl;
}

Inv-Reachable_example : Inv busy
Inv-Reachable_example = Inv-Reachable busy busy-Reachable

-- Two bytes are taken, then none, then one more is written.
abbrev ios : List Sending.Io
ios = writable (took 2) ∷ writable (refused eagain) ∷ Sending.write (4 ∷ []) ∷ []

ios-fit : Sending.fit ios busy ≡ true
unfolding Connect.attach_socket_handle Connect.throw_exception_if_not_init_state
    Connect.create_event Connect.install Connect.read_cb Tcp.fire Tcp.mark_read Tcp.mark_write
    Transfer.write Transfer.write_handle Transfer.add_pending Transfer.event_cb
    Transfer.on_write_event Transfer.after_write drain
ios-fit = refl

play-Sending_example :
    (r : Queue) × Sending false (play ios busy) r
    × (sent ios busy ++ flatten r ≡ 1 ∷ 2 ∷ 3 ∷ 4 ∷ [])
play-Sending_example =
    play-Sending ios busy ((1 ∷ 2 ∷ 3 ∷ []) ∷ []) busy-Sending ios-fit (omega arith)

-- A byte for the Unix path "u".
connect_unix-write_example :
    let s1 = (Connect.connect_unix (started 5) (117 ∷ []) 0 (Tcp.make true)).1 in
    let (r, s2) = Transfer.write (65 ∷ []) s1 in
    (r ≡ ok 1)
    × Sending false (Transfer.event_cb false true (took 0) s2).1 ((65 ∷ []) ∷ (65 ∷ []) ∷ [])
connect_unix-write_example =
    connect_unix-write (Tcp.make true) 5 0 (117 ∷ []) (65 ∷ []) (took 0) refl refl refl refl
      (omega arith) (omega arith) (omega arith)

-- A socket that has been connected before.
abbrev idle : TcpSocket
idle = record (Tcp.make true) { write_kbuffer = some [] }
