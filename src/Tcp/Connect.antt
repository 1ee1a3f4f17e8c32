-- ===== src/Tcp/Connect.antt =====
-- How a socket of Tcp.antt is connected: src/LibeventTcpSocketImpl.h.
use coconut.Base.{
  ℕ, ◌*◌, ◌%◌, Bool, true, false, not, ◌||◌, List, [], Option, none, some, Bytes, length, ltb,
  if◌then◌else◌, u32_mod, int_lt, ok, fault, M, ◌>>=◌, ◌>>◌, pure, throw, throw_if, gets, modify,
  illegal_state, socket_exception,
}
use coconut.Tcp
use coconut.Tcp.{
  TcpSocket, SocketState, connecting, connected, disconnected, is_connecting, is_disconnected,
  is_some, BufferEvent, IoEvent, Call, socket_initialized, socket_read_event, socket_connected,
  when, set_state, mark_read, mark_write, unless_stopped, etimedout,
}

-- What the system answers: whether the lookup of the host has been started, the new descriptor of a
-- Unix socket, and whether connecting it is under way.
pub record Answers : Type 0 where
  pub hostname_started : Bool
  pub new_socket : Option ℕ
  pub unix_started : Bool

unfoldable pub throw_exception_if_not_init_state : M TcpSocket (Unit {0})
throw_exception_if_not_init_state = do
  x ← gets (λ s. s.state)
  throw_if (not (is_disconnected x)) illegal_state
  h ← gets (λ s. is_some s.ev_read || is_some s.ev_write || is_some s.bev)
  throw_if h illegal_state

-- An event that is made unless there is one.
abbrev pub new_event : ℕ → Option IoEvent → Option IoEvent
new_event fd none = some (record { fd = fd; added = false })
new_event fd (some e) = some e

abbrev pub new_queue : Option (List Bytes) → Option (List Bytes)
new_queue none = some []
new_queue (some q) = some q

unfoldable pub create_event : ℕ → M TcpSocket (Unit {0})
create_event fd = do
  modify (λ s. record s { ev_read = new_event fd s.ev_read; ev_write = new_event fd s.ev_write })
  modify (λ s. record s { write_evbuffer = true; write_kbuffer = new_queue s.write_kbuffer })
  Tcp.fire socket_initialized

abbrev pub new_bufferevent : Option BufferEvent → Option BufferEvent
new_bufferevent none = some (record { input = []; output = [] })
new_bufferevent (some b) = some b

unfoldable pub create_buffer_event : M TcpSocket (Unit {0})
create_buffer_event = do
  modify (λ s. record s { bev = new_bufferevent s.bev })
  modify (λ s. record s { write_evbuffer = true; write_kbuffer = new_queue s.write_kbuffer })
  Tcp.fire socket_initialized

-- `read_cb` under READ_MODE_3
unfoldable pub read_cb : M TcpSocket (Unit {0})
read_cb = unless_stopped (Tcp.fire socket_read_event)

abbrev pub has_input : Option BufferEvent → Bool
has_input none = false
has_input (some b) = ltb 0 (length b.input)

unfoldable pub install : M TcpSocket (Unit {0})
install = do
  i ← gets (λ s. has_input s.bev)
  when i read_cb
  r ← gets (λ s. is_some s.ev_read)
  when r (mark_read true)
  w ← gets (λ s. is_some s.ev_write)
  when w (mark_write true)

unfoldable pub attach_socket_handle : ℕ → Bool → M TcpSocket (Unit {0})
attach_socket_handle fd do_install_flag = do
  throw_exception_if_not_init_state
  create_event fd
  set_state connected
  when do_install_flag install

unfoldable pub connect_tcp : Answers → M TcpSocket (Unit {0})
connect_tcp answers = do
  create_buffer_event
  modify (λ s. record s { dnsbase = true })
  if answers.hostname_started then pure tt else (do Tcp.close_handles; throw socket_exception)

-- The bytes of `sun_path` on Linux.
abbrev pub sun_path_size : ℕ
sun_path_size = 108

-- `strcpy` of a path, with its final zero.
abbrev pub copy_path : M TcpSocket (Unit {0})
copy_path s = if ltb (length s.path) sun_path_size then (ok tt, s) else (fault, s)

unfoldable pub connect_unix_socket : Answers → ℕ → M TcpSocket (Unit {0})
connect_unix_socket answers sock = do
  create_event sock
  copy_path
  if answers.unix_started
      then pure tt
      else (do Tcp.close_handles; set_state disconnected; throw socket_exception)

-- `_connectUnix`
unfoldable pub start_unix : Answers → Option ℕ → M TcpSocket (Unit {0})
start_unix answers none = throw socket_exception
start_unix answers (some sock) = connect_unix_socket answers sock

-- `_connect`
unfoldable pub start : Answers → M TcpSocket (Unit {0})
start answers = do
  p ← gets (λ s. s.path)
  if ltb 0 (length p) then start_unix answers answers.new_socket else connect_tcp answers

-- `connect()`
unfoldable pub connect : Answers → M TcpSocket (Unit {0})
connect answers = do
  throw_exception_if_not_init_state
  t ← gets (λ s. s.timeout)
  when (int_lt 0 t) (modify (λ s. record s { conn_timer = some (some (t * 1000 % u32_mod)) }))
  modify (λ s. record s { error_detected = false })
  set_state connecting
  Tcp.close_handles
  start answers
  install

-- `connect(host, port, timeout)`
unfoldable pub connect_host : Answers → Bytes → ℕ → ℕ → M TcpSocket (Unit {0})
connect_host answers host port timeout = do
  modify (λ s. record s { host = host; port = port; timeout = timeout; path = [] })
  connect answers

unfoldable pub connect_unix : Answers → Bytes → ℕ → M TcpSocket (Unit {0})
connect_unix answers path timeout = do
  modify (λ s. record s { path = path; timeout = timeout })
  connect answers

-- The events that libevent reports to `bufevent_cb`.
pub data BevEvent : Type 0 where
  bev_connected bev_eof : BevEvent
  bev_error : ℕ → BevEvent

unfoldable pub bufevent_cb : ℕ → BevEvent → M TcpSocket (Unit {0})
bufevent_cb dns bev_connected = unless_stopped Tcp.fire_on_socket_connected
bufevent_cb dns (bev_error e) = unless_stopped (Tcp.fire_on_socket_error dns e)
bufevent_cb dns bev_eof = unless_stopped Tcp.fire_on_socket_close
