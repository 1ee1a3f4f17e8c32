-- ===== src/Tcp/History.antt =====
-- The histories of a socket of Tcp.antt, and what holds in all of them.
use coconut.Base.{
  ℕ, ◌≡◌, ◌≢◌, arith, Bool, true, false, not, ◌&&◌, ◌||◌, ◌++◌, none, some, Bytes, drop,
  if◌then◌else◌, illegal_state, int_lt, u32_mod, ◌*◌, ◌%◌, throws, fault, M, ◌>>◌, pure, modify,
}
use coconut.Tcp
use coconut.Tcp.Connect
use coconut.Tcp.Transfer
use coconut.Tcp.{
  TcpSocket, fd_of, SocketState, connecting, connected, disconnected, is_connecting, is_connected,
  is_disconnected, is_some, BufferEvent, IoEvent,
}
use coconut.Tcp.Connect.{Answers, BevEvent}
use coconut.Tcp.Transfer.{Received, Sent}

abbrev pub has_handle : TcpSocket → Bool
has_handle s = is_some s.bev || is_some s.ev_write

-- What holds of the state and the handles between two calls.
pub record Inv (s : TcpSocket) : Type 0 where
  -- A socket that is disconnected has no handle, and one that is connected has one.
  pub idle : s.state ≡ disconnected → has_handle s ≡ false
  pub live : s.state ≡ connected → has_handle s ≡ true
  -- It has a bufferevent or events, and the two events only together.
  pub one : (is_some s.bev && is_some s.ev_write) ≡ false
  pub pair : is_some s.ev_read ≡ is_some s.ev_write
  -- With a handle there is a queue.
  pub queued : has_handle s ≡ true → is_some s.write_kbuffer ≡ true

-- The methods that a user calls, and what libevent calls or changes.
pub data Action : Type 0 where
  connect : Answers → Action
  connect_host : Answers → Bytes → ℕ → ℕ → Action
  connect_unix : Answers → Bytes → ℕ → Action
  attach : ℕ → Bool → Action
  install close close_after_all_sent written : Action
  write : Bytes → Action
  read : ℕ → Received → ℕ → Action
  bev_event : ℕ → BevEvent → Action
  io_event : Bool → Bool → Sent → Action
  timer : ℕ → Action
  arrive : Bytes → Action
  flush : ℕ → Action

-- A method without its result.
abbrev pub done : {A : Type 0} → M TcpSocket A → M TcpSocket (Unit {0})
done m = m >> pure tt

abbrev pub run : Action → M TcpSocket (Unit {0})
run (connect answers) = Connect.connect answers
run (connect_host answers h p t) = Connect.connect_host answers h p t
run (connect_unix answers p t) = Connect.connect_unix answers p t
run (attach fd b) = Connect.attach_socket_handle fd b
run install = Connect.install
run close = Tcp.close
run close_after_all_sent = Transfer.close_after_all_sent
run written = Transfer.on_buffer_event_written
run (write b) = done (Transfer.write b)
run (read dns answer n) = done (Transfer.read dns answer n)
run (bev_event dns e) = Connect.bufevent_cb dns e
run (io_event r w answer) = Transfer.event_cb r w answer
run (timer dns) = Tcp.expire dns
run (arrive b) = modify (λ s. record s {
  bev = elim s.bev [ none ↦ none | some e ↦ some (record e { input = e.input ++ b }) ];
})
run (flush n) = modify (λ s. record s {
  bev = elim s.bev [ none ↦ none | some e ↦ some (record e { output = drop n e.output }) ];
})

-- Events come from handles that there are.
abbrev pub enabled : Action → TcpSocket → Bool
enabled (bev_event dns e) s = is_some s.bev
enabled (io_event r w answer) s = is_some s.ev_write
enabled a s = true

-- The sockets that a history of actions leads to, none of which was a fault.
pub data Reachable : TcpSocket → Type 0 where
  start : (handler : Bool) → Reachable (Tcp.make handler)
  step :
      (s : TcpSocket) (a : Action)
      → enabled a s ≡ true
      → (run a s).0 ≢ fault
      → Reachable s
      → Reachable (run a s).1

-- The state in which the connecting begins.
abbrev pub begun : TcpSocket → TcpSocket
begun s = record s {
  conn_timer =
      if int_lt 0 s.timeout then some (some (s.timeout * 1000 % u32_mod)) else s.conn_timer;
  error_detected = false;
  state = connecting;
  dnsbase = false;
  bev = none;
  ev_read = none;
  ev_write = none;
  closed = s.closed ++ fd_of s.ev_write;
}

-- Whether the socket may be connected.
abbrev pub may_connect : TcpSocket → Bool
may_connect s =
    is_disconnected s.state && not (is_some s.ev_read || is_some s.ev_write || is_some s.bev)

pub connect-allowed :
    (answers : Answers) (s : TcpSocket)
    → may_connect s ≡ true
    → Connect.connect answers s ≡ (Connect.start answers >> Connect.install) (begun s)
unfolding Connect.connect Connect.throw_exception_if_not_init_state Tcp.close_handles
connect-allowed answers s e = ground arith

pub connect-refused :
    (answers : Answers) (s : TcpSocket)
    → may_connect s ≡ false
    → Connect.connect answers s ≡ (throws illegal_state, s)
unfolding Connect.connect Connect.throw_exception_if_not_init_state Tcp.close_handles
connect-refused answers s e = ground arith
