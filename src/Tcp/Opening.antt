-- ===== src/Tcp/Opening.antt =====
-- Connecting, attaching, installing and closing keep the invariant of a socket.
use coconut.Base.{
  ℕ, ◌≡◌, ◌≢◌, refl, sym, ap, ◌∙◌, arith, Bool, true, false, not, ◌&&◌, [], ◌∷◌, ◌++◌, Option, none,
  some, Bytes, length, ltb, if◌then◌else◌, Bool-cases, inl, inr, illegal_state, Result, ok, throws,
  fault, M, resume, ◌>>◌,
}
use coconut.Tcp
use coconut.Tcp.Connect
use coconut.Tcp.{
  TcpSocket, socket_initialized, socket_read_event, when, fd_of, SocketState, connecting, connected,
  disconnected, is_connecting, is_connected, is_disconnected, is_some, BufferEvent, IoEvent,
}
use coconut.Tcp.Connect.{Answers, BevEvent}
use coconut.Tcp.History.{
  Inv, Action, run, enabled, begun, may_connect, connect-allowed, connect-refused, connect_host,
  connect_unix, attach, close, timer,
}

-- What an action keeps.
abbrev pub Keeps : Action → TcpSocket → Type 0
Keeps a s = Inv s → enabled a s ≡ true → (run a s).0 ≢ fault → Inv (run a s).1

pub close_lem : (s : TcpSocket) → Keeps close s
unfolding Tcp.close Tcp.fire_on_socket_close Tcp.close_handles Tcp.fire
close_lem s i on nf = record {
  idle = λ _. refl;
  live = λ e. ground arith;
  one = refl;
  pair = refl;
  queued = λ e. ground arith;
}

pub timer_lem : (dns : ℕ) (s : TcpSocket) → Keeps (timer dns) s
unfolding Tcp.expire Tcp.on_timer Tcp.fire_on_socket_error Tcp.close_handles Tcp.fire
timer_lem dns s i on nf = record {
  idle = λ _. ground arith;
  live = λ e. ground arith;
  one = ground arith;
  pair = ground arith;
  queued = λ e. ground arith;
}

-- A method that leaves the invariant where it ends without a fault.
abbrev pub Leaves : M TcpSocket (Unit {0}) → TcpSocket → Type 0
Leaves m s = (m s).0 ≢ fault → Inv (m s).1

next-Leaves :
    (m k : M TcpSocket (Unit {0})) (s : TcpSocket)
    → Leaves m s
    → ((t : TcpSocket) → Inv t → Leaves k t)
    → Leaves (m >> k) s
next-Leaves m k s first next = go (m s) first
  where
    go :
        (o : Result (Unit {0}) × TcpSocket)
        → (o.0 ≢ fault → Inv o.1)
        → (resume (λ _. k) o).0 ≢ fault
        → Inv (resume (λ _. k) o).1
    go (ok a, t) h nf = next t (h λ e. ground arith) nf
    go (throws e, t) h nf = h nf
    go (fault, t) h nf = absurd (nf refl)

-- A socket in the same state, with the same handles.
pub record Same (s t : TcpSocket) : Type 0 where
  pub state : t.state ≡ s.state
  pub bev : is_some t.bev ≡ is_some s.bev
  pub ev_read : is_some t.ev_read ≡ is_some s.ev_read
  pub ev_write : is_some t.ev_write ≡ is_some s.ev_write
  pub queue : is_some t.write_kbuffer ≡ is_some s.write_kbuffer

pub Same-Inv : (s t : TcpSocket) → Same s t → Inv s → Inv t
Same-Inv s t e i = record {
  idle = λ h. ground (arith, i.idle (sym e.state ∙ h), e.bev, e.ev_write);
  live = λ h. ground (arith, i.live (sym e.state ∙ h), e.bev, e.ev_write);
  one = ground (arith, i.one, e.bev, e.ev_write);
  pair = ground (arith, i.pair, e.ev_read, e.ev_write);
  queued = λ h. ground (arith, i.queued, e.bev, e.ev_write, e.queue);
}

install-Same : (s : TcpSocket) → ((Connect.install s).0 ≡ ok tt) × Same s (Connect.install s).1
unfolding Connect.install Connect.read_cb Tcp.fire Tcp.mark_read Tcp.mark_write
install-Same s = (
  ground arith,
  record {
    state = ground arith;
    bev = ground arith;
    ev_read = ground arith;
    ev_write = ground arith;
    queue = ground arith;
  },
)

pub install-Leaves : (s : TcpSocket) → Inv s → Leaves Connect.install s
install-Leaves s i nf = Same-Inv s (Connect.install s).1 (install-Same s).1 i

-- A socket about to be connected.
record Bare (s : TcpSocket) : Type 0 where
  pub state : s.state ≡ connecting
  pub bev : s.bev ≡ none
  pub ev_read : s.ev_read ≡ none
  pub ev_write : s.ev_write ≡ none

connect_tcp-Leaves :
    (answers : Answers) (s : TcpSocket) → Bare s → Leaves (Connect.connect_tcp answers) s
unfolding Connect.connect_tcp Connect.create_buffer_event Tcp.close_handles Tcp.fire
connect_tcp-Leaves answers s b nf = record {
  idle = λ e. ground (arith, b.state);
  live = λ e. ground (arith, b.state);
  one = ground (arith, b.bev, b.ev_write);
  pair = ground (arith, b.ev_read, b.ev_write);
  queued = λ e. ground (arith, b.bev, b.ev_write);
}

connect_unix-Leaves :
    (answers : Answers) (sock : ℕ) (s : TcpSocket)
    → Bare s
    → Leaves (Connect.connect_unix_socket answers sock) s
unfolding Connect.connect_unix_socket Connect.create_event Tcp.close_handles Tcp.fire
connect_unix-Leaves answers sock s b nf = record {
  idle = λ e. ground (arith, b.state);
  live = λ e. ground (arith, b.state);
  one = ground (arith, b.bev, b.ev_write);
  pair = ground (arith, b.ev_read, b.ev_write);
  queued = λ e. ground (arith, b.bev, b.ev_write);
}

Bare-Inv : (s : TcpSocket) → Bare s → Inv s
Bare-Inv s b = record {
  idle = λ e. ground (arith, b.state);
  live = λ e. ground (arith, b.state);
  one = ground (arith, b.bev, b.ev_write);
  pair = ground (arith, b.ev_read, b.ev_write);
  queued = λ e. ground (arith, b.bev, b.ev_write);
}

start-Leaves : (answers : Answers) (s : TcpSocket) → Bare s → Leaves (Connect.start answers) s
unfolding Connect.start Connect.start_unix
start-Leaves answers s b = go (ltb 0 (length s.path)) answers.new_socket
  where
    go :
        (is_unix : Bool) (sock : Option ℕ)
        → Leaves
            (if is_unix then Connect.start_unix answers sock else Connect.connect_tcp answers)
            s
    go false sock = connect_tcp-Leaves answers s b
    go true none = λ nf. Bare-Inv s b
    go true (some fd) = connect_unix-Leaves answers fd s b

pub connect_lem : (answers : Answers) (s : TcpSocket) → Inv s → Leaves (Connect.connect answers) s
connect_lem answers s i nf = elim (Bool-cases (may_connect s)) [
  | inl e ↦ rw (connect-allowed answers s e) (
      next-Leaves (Connect.start answers) Connect.install (begun s)
        (start-Leaves answers (begun s)
          (record { state = refl; bev = refl; ev_read = refl; ev_write = refl }))
        install-Leaves (λ z. nf (ap (λ o. o.0) (connect-allowed answers s e) ∙ z)))
  | inr e ↦ rw (connect-refused answers s e) i
]

pub connect_host_lem :
    (answers : Answers) (h : Bytes) (p t : ℕ) (s : TcpSocket) → Keeps (connect_host answers h p t) s
unfolding Connect.connect_host
connect_host_lem answers h p t s i on nf =
    connect_lem answers (record s { host = h; port = p; timeout = t; path = [] })
      (record { idle = i.idle; live = i.live; one = i.one; pair = i.pair; queued = i.queued }) nf

pub connect_unix_lem :
    (answers : Answers) (p : Bytes) (t : ℕ) (s : TcpSocket) → Keeps (connect_unix answers p t) s
unfolding Connect.connect_unix
connect_unix_lem answers p t s i on nf =
    connect_lem answers (record s { path = p; timeout = t })
      (record { idle = i.idle; live = i.live; one = i.one; pair = i.pair; queued = i.queued }) nf

-- The state in which an attached descriptor is installed.
abbrev attached : ℕ → TcpSocket → TcpSocket
attached fd s = record s {
  ev_read = some (record { fd = fd; added = false });
  ev_write = some (record { fd = fd; added = false });
  write_evbuffer = true;
  write_kbuffer = Connect.new_queue s.write_kbuffer;
  calls = if s.handler && not s.stopped then s.calls ++ socket_initialized ∷ [] else s.calls;
  state = connected;
}

attach-run :
    (fd : ℕ) (b : Bool) (s : TcpSocket)
    → (may_connect s ≡ true
        → Connect.attach_socket_handle fd b s ≡ when b Connect.install (attached fd s))
      × (may_connect s ≡ false → Connect.attach_socket_handle fd b s ≡ (throws illegal_state, s))
unfolding Connect.attach_socket_handle Connect.throw_exception_if_not_init_state
    Connect.create_event Tcp.fire
attach-run fd b s = (λ e. ground arith, λ e. ground arith)

attached-Inv : (fd : ℕ) (s : TcpSocket) → may_connect s ≡ true → Inv (attached fd s)
attached-Inv fd s e = record {
  idle = λ h. ground arith;
  live = λ h. ground arith;
  one = ground arith;
  pair = refl;
  queued = λ h. ground arith;
}

pub attach_lem : (fd : ℕ) (b : Bool) (s : TcpSocket) → Keeps (attach fd b) s
attach_lem fd b s i on nf = elim (Bool-cases (may_connect s)) [
  | inl e ↦ rw ((attach-run fd b s).0 e) (go b (attached-Inv fd s e))
  | inr e ↦ rw ((attach-run fd b s).1 e) i
]
  where
    go : (c : Bool) → Inv (attached fd s) → Inv (when c Connect.install (attached fd s)).1
    go false j = j
    go true j =
        Same-Inv (attached fd s) (Connect.install (attached fd s)).1
          (install-Same (attached fd s)).1 j
