-- ===== src/Tcp.antt =====
-- A TCP or Unix socket over libevent: src/LibeventTcpSocketImpl.h with the members and the event
-- functions of src/BaseSocket.h and src/BaseSocket.cpp that it uses. Here are the state, what reports
-- to the owner's handler, and the closing; `Connect` and `Transfer` have the other methods.
-- A handle of libevent is what the code uses of it, and its calls on NULL are a fault. The kbuffer
-- is its queue of chunks (Kbuffer/Queue). What the system answers is an argument of each method.
pub mod Connect
pub mod Transfer
pub mod History
pub mod Opening
pub mod Invariant
pub mod Sending
pub mod Order
pub mod Closing
pub mod Pending
pub mod Timeout
mod Tests
use coconut.Base.{
  ℕ, ◌%◌, Bool, true, false, not, ◌&&◌, List, [], ◌∷◌, ◌++◌, Option, none, some, Bytes, length, ltb,
  ◌==◌, if◌then◌else◌, u32_mod, int_lt, Result, ok, fault, M, ◌>>=◌, ◌>>◌, pure, gets, modify,
}
use coconut.Kbuffer.Queue.{Queue, flatten}

-- `BaseSocket::SocketState`
pub data SocketState : Type 0 where
  connecting connected disconnected : SocketState

abbrev pub is_connecting : SocketState → Bool
is_connecting connecting = true
is_connecting _ = false

abbrev pub is_connected : SocketState → Bool
is_connected connected = true
is_connected _ = false

abbrev pub is_disconnected : SocketState → Bool
is_disconnected disconnected = true
is_disconnected _ = false

-- The texts of `lastErrorString_`: none yet, or by the error numbers of the socket and of the DNS lookup.
pub data ErrorText : Type 0 where
  no_text : ErrorText
  socket_text dns_text : ℕ → ErrorText

-- The calls of the handler: `onSocket_Initialized` and the others.
pub data Call : Type 0 where
  socket_initialized socket_connected socket_read_event socket_close : Call
  socket_error : ℕ → ErrorText → Call

-- The input and output of a bufferevent.
pub record BufferEvent : Type 0 where
  pub input : Bytes
  pub output : Bytes

-- An event: its descriptor, and whether it has been added.
pub record IoEvent : Type 0 where
  pub fd : ℕ
  pub added : Bool

pub record TcpSocket : Type 0 where
  pub state : SocketState
  pub expired : Bool
  pub error_detected : Bool
  pub pending_write_supported : Bool
  pub bev : Option BufferEvent
  pub ev_read : Option IoEvent
  pub ev_write : Option IoEvent
  pub host : Bytes
  pub port : ℕ
  pub path : Bytes
  pub timeout : ℕ
  pub write_evbuffer : Bool
  pub write_kbuffer : Option Queue
  pub dnsbase : Bool
  -- NULL, or the milliseconds of the connect timer while it is set.
  pub conn_timer : Option (Option ℕ)
  pub last_error : ErrorText
  -- Whether there is a handler and whether the service is stopped.
  pub handler : Bool
  pub stopped : Bool
  -- The calls of the handler and the descriptors that were closed.
  pub calls : List Call
  pub closed : List ℕ

abbrev pub make : Bool → TcpSocket
make handler = record {
  state = disconnected;
  expired = false;
  error_detected = false;
  pending_write_supported = true;
  bev = none;
  ev_read = none;
  ev_write = none;
  host = [];
  port = 0;
  path = [];
  timeout = 0;
  write_evbuffer = false;
  write_kbuffer = none;
  dnsbase = false;
  conn_timer = none;
  last_error = no_text;
  handler = handler;
  stopped = false;
  calls = [];
  closed = [];
}

abbrev pub is_some {ℓ} : {A : Type ℓ} → Option A → Bool
is_some none = false
is_some (some a) = true

abbrev pub when : {S : Type 0} → Bool → M S (Unit {0}) → M S (Unit {0})
when b m = if b then m else pure tt

abbrev pub set_state : SocketState → M TcpSocket (Unit {0})
set_state x = modify (λ s. record s { state = x })

-- `BaseSocket::fire_onSocket_...`
unfoldable pub fire : Call → M TcpSocket (Unit {0})
fire c =
    modify
      (λ s. record s { calls = if s.handler && not s.stopped then s.calls ++ c ∷ [] else s.calls })

-- A callback of libevent, which does nothing once the service has stopped.
abbrev pub unless_stopped : M TcpSocket (Unit {0}) → M TcpSocket (Unit {0})
unless_stopped m = do b ← gets (λ s. s.stopped); if b then pure tt else m

-- event_add and event_del of the write event and of the read event.
abbrev pub mark : Bool → Option IoEvent → Result (Option IoEvent)
mark b none = fault
mark b (some e) = ok (some (record e { added = b }))

unfoldable pub mark_write : Bool → M TcpSocket (Unit {0})
mark_write b s = elim (mark b s.ev_write) [
  | ok e ↦ (ok tt, record s { ev_write = e })
  | _ ↦ (fault, s)
]

unfoldable pub mark_read : Bool → M TcpSocket (Unit {0})
mark_read b s = elim (mark b s.ev_read) [
  | ok e ↦ (ok tt, record s { ev_read = e })
  | _ ↦ (fault, s)
]

abbrev pub fd_of : Option IoEvent → List ℕ
fd_of none = []
fd_of (some e) = e.fd ∷ []

-- `_close`
unfoldable pub close_handles : M TcpSocket (Unit {0})
close_handles = modify (λ s. record s {
  dnsbase = false;
  bev = none;
  ev_read = none;
  ev_write = none;
  closed = s.closed ++ fd_of s.ev_write;
})

-- `fire_onSocket_Close`
unfoldable pub fire_on_socket_close : M TcpSocket (Unit {0})
fire_on_socket_close = do
  modify (λ s. record s { conn_timer = none })
  set_state disconnected
  close_handles
  fire socket_close

unfoldable pub close : M TcpSocket (Unit {0})
close = do close_handles; fire_on_socket_close

-- bufferevent_socket_get_dns_error, which answers dns.
abbrev pub dns_error : ℕ → Option BufferEvent → Result ℕ
dns_error dns none = fault
dns_error dns (some b) = ok dns

-- `fire_onSocket_Error`
unfoldable pub fire_on_socket_error : ℕ → ℕ → M TcpSocket (Unit {0})
fire_on_socket_error dns error = do
  modify (λ s. record s { error_detected = true; last_error = socket_text error })
  x ← gets (λ s. s.state)
  when (is_connecting x) (do
    err ← (λ s. (dns_error dns s.bev, s))
    when (not (err == 0)) (modify (λ s. record s { last_error = dns_text err })))
  set_state disconnected
  close_handles
  t ← gets (λ s. s.last_error)
  fire (socket_error error t)

-- `fire_onSocket_Connected`
unfoldable pub fire_on_socket_connected : M TcpSocket (Unit {0})
fire_on_socket_connected = do
  e ← gets (λ s. s.error_detected)
  if e then pure tt else (do
    set_state connected
    pending ← gets (λ s. elim s.write_kbuffer [ none ↦ [] | some q ↦ flatten q ])
    w ← gets (λ s. s.pending_write_supported && is_some s.ev_write)
    when (w && int_lt 0 (length pending % u32_mod)) (mark_write true)
    modify (λ s. record s { conn_timer = none })
    fire socket_connected)

-- COOKIE_ETIMEDOUT, the ETIMEDOUT of Linux.
abbrev pub etimedout : ℕ
etimedout = 110

-- `onTimer_Timer`
unfoldable pub on_timer : ℕ → M TcpSocket (Unit {0})
on_timer dns = fire_on_socket_error dns etimedout

-- The connect timer runs out: it does not repeat, and is not set any more.
unfoldable pub expire : ℕ → M TcpSocket (Unit {0})
expire dns = do modify (λ s. record s { conn_timer = some none }); on_timer dns
