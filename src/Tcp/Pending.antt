-- ===== src/Tcp/Pending.antt =====
-- What is written while a socket of Tcp.antt is not connected yet.
use mathlib.Core.Path.{subst}
use coconut.Base.{
  ℕ, ◌<◌, ◌%◌, ◌≡◌, refl, sym, ap, ◌∙◌, arith, true, false, not, ◌&&◌, [], ◌∷◌, ◌++◌, none, some,
  Bytes, length, if◌then◌else◌, append_assoc, u32_mod, ok, throws, socket_exception, ◌>>◌,
}
use coconut.Kbuffer.Queue.{Queue}
use coconut.Tcp
use coconut.Tcp.Connect
use coconut.Tcp.Transfer
use coconut.Tcp.{
  TcpSocket, SocketState, connecting, connected, disconnected, is_some, is_disconnected,
  BufferEvent, IoEvent, Call, socket_initialized, socket_connected, socket_error, socket_text,
  dns_text, etimedout, fd_of,
}
use coconut.Tcp.Connect.{Answers, BevEvent, bev_connected, bev_error}
use coconut.Tcp.Transfer.{Sent}
use coconut.Tcp.History.{begun, may_connect, connect-allowed}
use coconut.Tcp.Sending.{Sending, queue_of}

-- What the system answers when everything is started.
abbrev pub started : ℕ → Answers
started fd = record { hostname_started = true; new_socket = some fd; unix_started = true }

abbrev pub refused_host : Answers
refused_host = record { hostname_started = false; new_socket = none; unix_started = false }

-- A Unix socket that is connecting, with its events and the queue q.
record Connecting (s : TcpSocket) (q : Queue) : Type 0 where
  pub state : s.state ≡ connecting
  pub bev : s.bev ≡ none
  pub ev_write : is_some s.ev_write ≡ true
  pub queue : s.write_kbuffer ≡ some q
  pub running : s.stopped ≡ false
  pub quiet : s.error_detected ≡ false
  pub unasked : s.expired ≡ false
  pub supported : s.pending_write_supported ≡ true

module _ (s : TcpSocket) (q : Queue) (h : Connecting s q) where
  write-Connecting :
      (b : Bytes)
      → 0 < length b
      → ((Transfer.write b s).0 ≡ ok (length b % u32_mod))
        × Connecting (Transfer.write b s).1 (q ++ b ∷ b ∷ [])
  unfolding Transfer.write Transfer.write_handle Transfer.add_pending Tcp.mark_write
  write-Connecting b some_bytes = (
    ground (arith, h.state, h.bev, h.ev_write, h.queue, h.supported),
    record {
      state = ground (arith, h.state, h.bev, h.ev_write, h.queue, h.supported);
      bev = ground (arith, h.state, h.bev, h.ev_write, h.queue, h.supported);
      ev_write = ground (arith, h.state, h.bev, h.ev_write, h.queue, h.supported);
      queue = ground (
        arith,
        h.state,
        h.bev,
        h.ev_write,
        h.queue,
        h.supported,
        append_assoc q (b ∷ []) (b ∷ []),
      );
      running = ground (arith, h.state, h.bev, h.ev_write, h.queue, h.supported, h.running);
      quiet = ground (arith, h.state, h.bev, h.ev_write, h.queue, h.supported, h.quiet);
      unasked = ground (arith, h.state, h.bev, h.ev_write, h.queue, h.supported, h.unasked);
      supported = ground (arith, h.state, h.bev, h.ev_write, h.queue, h.supported);
    },
  )

  event-Connecting : (answer : Sent) → Sending false (Transfer.event_cb false true answer s).1 q
  unfolding Transfer.event_cb Transfer.on_write_event Tcp.fire_on_socket_connected Tcp.mark_write
      Tcp.fire
  event-Connecting answer = record {
    state = ground (arith, h.state, h.bev, h.ev_write, h.queue, h.quiet, h.running);
    bev = ground (arith, h.state, h.bev, h.ev_write, h.queue, h.quiet, h.running);
    ev_write = ground (arith, h.state, h.bev, h.ev_write, h.queue, h.quiet, h.running);
    queue = ground (arith, h.state, h.bev, h.ev_write, h.queue, h.quiet, h.running);
    running = ground (arith, h.state, h.bev, h.ev_write, h.queue, h.quiet, h.running);
    expired = ground (arith, h.state, h.bev, h.ev_write, h.queue, h.quiet, h.running, h.unasked);
  }

-- The state that connecting a Unix socket leads to.
abbrev opened : ℕ → TcpSocket → TcpSocket
opened fd s = record (begun s) {
  ev_read = some (record { fd = fd; added = true });
  ev_write = some (record { fd = fd; added = true });
  write_evbuffer = true;
  write_kbuffer = some (queue_of s);
  calls = if s.handler && not s.stopped then s.calls ++ socket_initialized ∷ [] else s.calls;
}

opened-run :
    (fd : ℕ) (s : TcpSocket)
    → 0 < length s.path
    → length s.path < Connect.sun_path_size
    → (Connect.start (started fd) >> Connect.install) (begun s) ≡ (ok tt, opened fd s)
unfolding Connect.start Connect.start_unix Connect.connect_unix_socket Connect.create_event
    Connect.install Tcp.fire Tcp.mark_read Tcp.mark_write
opened-run fd s some_path short =
    let n : Connect.new_queue s.write_kbuffer ≡ some (queue_of s) = ground arith in
    ground (arith, n)

-- When a free socket that is not asked to close connects to a Unix path of at most 107 bytes, and
-- then, before its first event, one writes some bytes, `write` returns how many they are, but the
-- first event leaves a connected socket whose kbuffer holds them twice.
pub connect_unix-write :
    (s : TcpSocket) (fd t : ℕ) (p b : Bytes) (answer : Sent)
    → may_connect s ≡ true
    → s.stopped ≡ false
    → s.expired ≡ false
    → s.pending_write_supported ≡ true
    → 0 < length p
    → length p < Connect.sun_path_size
    → 0 < length b
    → let s1 = (Connect.connect_unix (started fd) p t s).1 in
      let (r, s2) = Transfer.write b s1 in
      (r ≡ ok (length b % u32_mod))
      × Sending false (Transfer.event_cb false true answer s2).1 (queue_of s ++ b ∷ b ∷ [])
unfolding Connect.connect_unix
connect_unix-write s fd t p b answer free running unasked supported some_path short some_bytes =
    let s0 = record s { path = p; timeout = t } in
    let e = connect-allowed (started fd) s0 free ∙ opened-run fd s0 some_path short in
    let c : Connecting (opened fd s0) (queue_of s) = record {
      state = refl;
      bev = refl;
      ev_write = refl;
      queue = refl;
      running = running;
      quiet = refl;
      unasked = unasked;
      supported = supported;
    } in
    let c1 = subst (λ o. Connecting o.1 (queue_of s)) (sym e) c in
    let s1 = (Connect.connect (started fd) s0).1 in
    let (r, c2) = write-Connecting s1 (queue_of s) c1 b some_bytes in
    (r, event-Connecting (Transfer.write b s1).1 (queue_of s ++ b ∷ b ∷ []) c2 answer)

-- The state that starting to connect a TCP socket leads to.
abbrev pub looked_up : TcpSocket → TcpSocket
looked_up s = record (begun s) {
  bev = some (record { input = []; output = [] });
  dnsbase = true;
  write_evbuffer = true;
  write_kbuffer = some (queue_of s);
  calls = if s.handler && not s.stopped then s.calls ++ socket_initialized ∷ [] else s.calls;
}

pub looked_up-run :
    (fd : ℕ) (s : TcpSocket)
    → s.path ≡ []
    → (Connect.start (started fd) >> Connect.install) (begun s) ≡ (ok tt, looked_up s)
unfolding Connect.start Connect.connect_tcp Connect.create_buffer_event Connect.install Tcp.fire
looked_up-run fd s no_path =
    let n : Connect.new_queue s.write_kbuffer ≡ some (queue_of s) = ground arith in
    ground (arith, n)

pub failed-run :
    (s : TcpSocket)
    → s.path ≡ []
    → (Connect.start refused_host >> Connect.install) (begun s) ≡ (
      throws socket_exception,
      record (looked_up s) { bev = none; dnsbase = false; closed = (begun s).closed ++ [] },
    )
unfolding Connect.start Connect.connect_tcp Connect.create_buffer_event Tcp.close_handles Tcp.fire
failed-run s no_path =
    let n : Connect.new_queue s.write_kbuffer ≡ some (queue_of s) = ground arith in
    ground (arith, n)

-- When some bytes are written to a free socket that has a kbuffer, as after an earlier connection,
-- and it then connects to a host without a failure, the bytes are in the kbuffer when the connection
-- is up, behind what was there, and none are in the output of the bufferevent, which is all that is
-- sent.
pub connect_host-write :
    (s : TcpSocket) (q : Queue) (fd dns : ℕ) (b host : Bytes) (port t : ℕ)
    → may_connect s ≡ true
    → s.stopped ≡ false
    → s.pending_write_supported ≡ true
    → s.write_kbuffer ≡ some q
    → 0 < length b
    → let (r, s1) = Transfer.write b s in
      let (r', s2) = Connect.connect_host (started fd) host port t s1 in
      let s3 = (Connect.bufevent_cb dns bev_connected s2).1 in
      (r ≡ ok (length b % u32_mod))
      × (r' ≡ ok tt)
      × (s3.state ≡ connected)
      × (s3.bev ≡ some (record { input = []; output = [] }))
      × (s3.write_kbuffer ≡ some (q ++ b ∷ []))
unfolding Connect.connect_host Transfer.write Transfer.write_handle Transfer.add_pending
    Connect.bufevent_cb Tcp.fire_on_socket_connected Tcp.fire
connect_host-write s q fd dns b host port t free running supported queue some_bytes =
    let w : Transfer.write b s
        ≡ (ok (length b % u32_mod), record s { write_kbuffer = some (q ++ b ∷ []) }) =
      ground arith in
    let s0 = record s {
      write_kbuffer = some (q ++ b ∷ []);
      host = host;
      port = port;
      timeout = t;
      path = [];
    } in
    let e : Connect.connect_host (started fd) host port t (Transfer.write b s).1
        ≡ (ok tt, looked_up s0) =
      ap (λ o. Connect.connect_host (started fd) host port t o.1) w
      ∙ connect-allowed (started fd) s0 free
      ∙ looked_up-run fd s0 refl in
    let c = ap (λ o. (Connect.bufevent_cb dns bev_connected o.1).1) e in
    (
      ap (λ o. o.0) w,
      ap (λ o. o.0) e,
      ap (λ o. o.state) c ∙ ground arith,
      ap (λ o. o.bev) c ∙ ground arith,
      ap (λ o. o.write_kbuffer) c ∙ ground arith,
    )
