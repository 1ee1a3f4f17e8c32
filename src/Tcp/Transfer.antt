-- ===== src/Tcp/Transfer.antt =====
-- How a socket of Tcp.antt is read and written: src/LibeventTcpSocketImpl.h with its kbuffer.
use coconut.Base.{
  ℕ, ◌-◌, ◌%◌, Bool, true, false, not, ◌&&◌, ◌||◌, [], ◌∷◌, ◌++◌, Option, none, some, Bytes, length,
  take, drop, ltb, ◌==◌, if◌then◌else◌, u32_mod, int_lt, Result, ok, fault, M, ◌>>=◌, ◌>>◌, pure,
  gets, modify,
}
use coconut.Kbuffer.Queue.{Queue, flatten, drain}
use coconut.Tcp
use coconut.Tcp.{
  TcpSocket, SocketState, is_connecting, is_connected, is_some, BufferEvent, IoEvent, Call,
  socket_read_event, when, mark_read, mark_write, unless_stopped,
}

-- What `read` of the system returns: bytes, the end of the stream, or an error number.
pub data Received : Type 0 where
  bytes : Bytes → Received
  eof : Received
  failed : ℕ → Received

-- What `write` of the system returns: how many bytes it took, or an error number.
pub data Sent : Type 0 where
  took : ℕ → Sent
  refused : ℕ → Sent

-- The int -1.
abbrev pub minus_one : ℕ
minus_one = u32_mod - 1

-- EINTR and EAGAIN of Linux.
abbrev pub eintr : ℕ
eintr = 4

abbrev pub eagain : ℕ
eagain = 11

-- SOCKET_ERR_RW_RETRIABLE
abbrev pub rw_retriable : ℕ → Bool
rw_retriable e = (e == eintr) || (e == eagain)

unfoldable pub check_response_socket : ℕ → Received → M TcpSocket (Unit {0})
check_response_socket dns (bytes b) = pure tt
check_response_socket dns eof = Tcp.fire_on_socket_close
check_response_socket dns (failed e) = when (not (rw_retriable e)) (Tcp.fire_on_socket_error dns e)

-- The int that `read` of the system returns, and the bytes that it has stored.
abbrev pub outcome : Received → ℕ × Bytes
outcome (bytes b) = (length b % u32_mod, b)
outcome eof = (0, [])
outcome (failed e) = (minus_one, [])

abbrev pub input_of : Option BufferEvent → Bytes
input_of none = []
input_of (some b) = b.input

-- `_readBufferEvent`, the bytes at the pointer, or none for NULL.
unfoldable pub read_buffer_event : Bytes → ℕ → Option Bytes
read_buffer_event input size = if ltb 0 (length input) then some (take size input) else none

-- What is read from the input of a bufferevent, which is drained by as much.
abbrev pub read_pulled : BufferEvent → Option Bytes → M TcpSocket (ℕ × Bytes)
read_pulled b none = pure (minus_one, [])
read_pulled b (some data_bytes) = do
  modify (λ s. record s { bev = some (record b { input = drop (length data_bytes) b.input }) })
  pure (length data_bytes % u32_mod, data_bytes)

-- `read(void *, size_t)`
unfoldable pub read : ℕ → Received → ℕ → M TcpSocket (ℕ × Bytes)
read dns answer size = do
  b ← gets (λ s. s.bev)
  elim b [
    | none ↦ do check_response_socket dns answer; pure (outcome answer)
    | some b ↦ read_pulled b (read_buffer_event b.input size)
  ]

-- `read(std::string &, size_t)`, with whether malloc gave it a buffer for a descriptor.
unfoldable pub read_string : ℕ → Bool → Received → ℕ → M TcpSocket (ℕ × Bytes)
read_string dns allocated answer size = do
  b ← gets (λ s. s.bev)
  elim b [
    | none ↦
        if allocated
        then (do check_response_socket dns answer; pure (outcome answer))
        else pure (minus_one, [])
    | some b ↦ read_pulled b (read_buffer_event b.input size)
  ]

-- kbuffer_add on `write_kbuffer_`, which is a fault on NULL.
abbrev pub added_to : Bytes → Option Queue → Result Queue
added_to data_bytes none = fault
added_to data_bytes (some q) = ok (q ++ data_bytes ∷ [])

unfoldable pub add_pending : Bytes → M TcpSocket (Unit {0})
add_pending data_bytes s = elim (added_to data_bytes s.write_kbuffer) [
  | ok q ↦ (ok tt, record s { write_kbuffer = some q })
  | _ ↦ (fault, s)
]

-- What `write` does with the handles, after it has seen to the state.
unfoldable pub write_handle : Bytes → ℕ → M TcpSocket ℕ
write_handle data_bytes ret = do
  b ← gets (λ s. s.bev)
  w ← gets (λ s. s.ev_write)
  elim b [
    | some b ↦ do
      modify (λ s. record s { bev = some (record b { output = b.output ++ data_bytes }) })
      pure (length data_bytes % u32_mod)
    | none ↦
        if is_some w
        then (do add_pending data_bytes; mark_write true; pure (length data_bytes % u32_mod))
        else pure ret
  ]

unfoldable pub write : Bytes → M TcpSocket ℕ
write data_bytes = do
  x ← gets (λ s. s.state)
  p ← gets (λ s. s.pending_write_supported)
  if length data_bytes == 0
      then pure 0
      else (if is_connected x
          then write_handle data_bytes minus_one
          else (if p
              then (do
                add_pending data_bytes
                write_handle data_bytes (length data_bytes % u32_mod))
              else pure 0))

-- `_checkOutpuBufferAndClose`
unfoldable pub check_output : M TcpSocket (Unit {0})
check_output = do
  e ← gets (λ s. s.expired)
  b ← gets (λ s. s.bev)
  elim b [ none ↦ pure tt | some b ↦ when (e && (length b.output == 0)) Tcp.close ]

-- `write_cb` and `_onBufferEventWritten`
unfoldable pub on_buffer_event_written : M TcpSocket (Unit {0})
on_buffer_event_written = check_output

unfoldable pub close_after_all_sent : M TcpSocket (Unit {0})
close_after_all_sent = do
  modify (λ s. record s { expired = true })
  b ← gets (λ s. is_some s.bev)
  if b then check_output else (do mark_read false; mark_write true)

-- `write_kbuffer_`, which is read through.
abbrev pub pending : M TcpSocket Queue
pending s = elim s.write_kbuffer [ none ↦ (fault, s) | some q ↦ (ok q, s) ]

-- What becomes of the answer of `write` to the first chunk.
unfoldable pub after_write : Queue → Sent → M TcpSocket (Unit {0})
after_write q (took n) =
    if ltb 0 n then modify (λ s. record s { write_kbuffer = some (drain n q) }) else Tcp.close
after_write q (refused e) = if e == eagain then pure tt else Tcp.close

-- `_onWriteEvent`, with what `write` answers when it is given the bytes of the first chunk.
unfoldable pub on_write_event : Sent → M TcpSocket (Unit {0})
on_write_event answer = do
  x ← gets (λ s. s.state)
  if is_connecting x then (do mark_write false; Tcp.fire_on_socket_connected) else (do
    q ← pending
    if int_lt 0 (length (flatten q) % u32_mod)
        then after_write q answer
        else (do mark_write false; e ← gets (λ s. s.expired); when e Tcp.close))

unfoldable pub on_read_event : M TcpSocket (Unit {0})
on_read_event = Tcp.fire socket_read_event

-- `event_cb`, with the events that have come.
unfoldable pub event_cb : Bool → Bool → Sent → M TcpSocket (Unit {0})
event_cb readable writable answer =
    unless_stopped (do when readable on_read_event; when writable (on_write_event answer))
