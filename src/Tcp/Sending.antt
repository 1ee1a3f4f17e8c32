-- ===== src/Tcp/Sending.antt =====
-- What a connected socket with events sends: its writes, and the write events that empty its kbuffer.
use coconut.Base.{
  ℕ, ◌<◌, ◌%◌, ◌≡◌, arith, Bool, true, false, ◌&&◌, ◌||◌, List, [], ◌∷◌, ◌++◌, none, some, Bytes,
  length, take, ltb, leb, ◌==◌, int_sign, u32_mod, int_lt, ok,
}
use coconut.Kbuffer.Queue.{Queue, flatten, front, drain}
use coconut.Tcp
use coconut.Tcp.Transfer
use coconut.Tcp.{TcpSocket, IoEvent, connected, disconnected, is_some, socket_close}
use coconut.Tcp.Transfer.{Sent, took, refused, eagain}

-- A connected socket with events and the queue q.
pub record Sending (closing : Bool) (s : TcpSocket) (q : Queue) : Type 0 where
  pub state : s.state ≡ connected
  pub bev : s.bev ≡ none
  pub ev_write : is_some s.ev_write ≡ true
  pub queue : s.write_kbuffer ≡ some q
  pub running : s.stopped ≡ false
  pub expired : s.expired ≡ closing

-- A write of the user, and a write event with the answer of the system.
pub data Io : Type 0 where
  write : Bytes → Io
  writable : Sent → Io

abbrev pub queue_of : TcpSocket → Queue
queue_of s = elim s.write_kbuffer [ none ↦ [] | some q ↦ q ]

-- What the system takes of the first chunk.
abbrev pub on_wire : Sent → Queue → Bytes
on_wire (took n) q = take n (front q)
on_wire (refused e) q = []

-- It takes at least a byte of what it is given, or is not ready.
abbrev pub answers_well : Sent → Queue → Bool
answers_well (took n) q = (length (flatten q) == 0) || (ltb 0 n && leb n (length (front q)))
answers_well (refused e) q = e == eagain

abbrev pub after : Io → TcpSocket → TcpSocket
after (write b) s = (Transfer.write b s).1
after (writable answer) s = (Transfer.event_cb false true answer s).1

abbrev pub sent_by : Io → TcpSocket → Bytes
sent_by (write b) s = []
sent_by (writable answer) s = on_wire answer (queue_of s)

abbrev pub written_by : Io → Bytes
written_by (write b) = b
written_by (writable answer) = []

abbrev pub fits : Io → TcpSocket → Bool
fits (write b) s = true
fits (writable answer) s = answers_well answer (queue_of s)

-- What a list of these leads to, sends, writes, and takes of the system.
abbrev pub play : List Io → TcpSocket → TcpSocket
play [] s = s
play (x ∷ xs) s = play xs (after x s)

abbrev pub sent : List Io → TcpSocket → Bytes
sent [] s = []
sent (x ∷ xs) s = sent_by x s ++ sent xs (after x s)

abbrev pub written : List Io → Bytes
written [] = []
written (x ∷ xs) = written_by x ++ written xs

abbrev pub fit : List Io → TcpSocket → Bool
fit [] s = true
fit (x ∷ xs) s = fits x s && fit xs (after x s)

module _ (e : Bool) (s : TcpSocket) (q : Queue) (h : Sending e s q) where
  pub write-Sending : (b : Bytes) → 0 < length b → Sending e (Transfer.write b s).1 (q ++ b ∷ [])
  unfolding Transfer.write Transfer.write_handle Transfer.add_pending Tcp.mark_write
  write-Sending b some_bytes = record {
    state = ground (arith, h.state, h.bev, h.ev_write, h.queue);
    bev = ground (arith, h.state, h.bev, h.ev_write, h.queue);
    ev_write = ground (arith, h.state, h.bev, h.ev_write, h.queue);
    queue = ground (arith, h.state, h.bev, h.ev_write, h.queue);
    running = ground (arith, h.state, h.bev, h.ev_write, h.queue, h.running);
    expired = ground (arith, h.state, h.bev, h.ev_write, h.queue, h.expired);
  }

  pub write-nothing : (Transfer.write [] s).1 ≡ s
  unfolding Transfer.write
  write-nothing = ground arith

  module _ (few : length (flatten q) < int_sign) where
    pub writable-took :
        (n : ℕ)
        → 0 < length (flatten q)
        → 0 < n
        → Transfer.event_cb false true (took n) s
          ≡ (ok tt, record s { write_kbuffer = some (drain n q) })
    unfolding Transfer.event_cb Transfer.on_write_event Transfer.after_write
    writable-took n some_bytes some_taken =
        let t : int_lt 0 (length (flatten q) % u32_mod) ≡ true = ground arith in
        ground (arith, h.state, h.queue, h.running, t)

    pub writable-refused :
        0 < length (flatten q) → Transfer.event_cb false true (refused eagain) s ≡ (ok tt, s)
    unfolding Transfer.event_cb Transfer.on_write_event Transfer.after_write
    writable-refused some_bytes =
        let t : int_lt 0 (length (flatten q) % u32_mod) ≡ true = ground arith in
        ground (arith, h.state, h.queue, h.running, t)

    pub idle-Sending :
        (answer : Sent)
        → length (flatten q) ≡ 0
        → e ≡ false
        → Sending e (Transfer.event_cb false true answer s).1 q
    unfolding Transfer.event_cb Transfer.on_write_event Tcp.mark_write
    idle-Sending answer none_left kept =
        let t : int_lt 0 (length (flatten q) % u32_mod) ≡ false = ground arith in
        record {
          state = ground (arith, h.state, h.bev, h.ev_write, h.queue, h.expired, h.running, t);
          bev = ground (arith, h.state, h.bev, h.ev_write, h.queue, h.expired, h.running, t);
          ev_write = ground (arith, h.state, h.bev, h.ev_write, h.queue, h.expired, h.running, t);
          queue = ground (arith, h.state, h.bev, h.ev_write, h.queue, h.expired, h.running, t);
          running = ground (arith, h.state, h.bev, h.ev_write, h.queue, h.expired, h.running, t);
          expired = ground (arith, h.state, h.bev, h.ev_write, h.queue, h.expired, h.running, t);
        }
