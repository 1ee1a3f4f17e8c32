-- ===== src/Tcp/Invariant.antt =====
-- Every action keeps the invariant of a socket.
use coconut.Base.{
  ℕ, ◌≡◌, ◌≢◌, refl, ap, ◌∙◌, arith, Bool, true, false, not, ◌&&◌, [], ◌∷◌, ◌++◌, Bytes,
  if◌then◌else◌, ok, fault,
}
use coconut.Tcp
use coconut.Tcp.Connect
use coconut.Tcp.Transfer
use coconut.Tcp.{
  TcpSocket, socket_initialized, socket_read_event, when, fd_of, SocketState, connecting, connected,
  disconnected, is_connecting, is_connected, is_disconnected, is_some, BufferEvent, IoEvent,
}
use coconut.Tcp.Connect.{Answers, BevEvent}
use coconut.Tcp.Transfer.{Received, Sent}
use coconut.Tcp.History.{
  Inv, Action, has_handle, run, Reachable, start, step, connect, connect_host, connect_unix, attach,
  install, close, close_after_all_sent, written, write, read, bev_event, io_event, timer, arrive,
  flush,
}
use coconut.Tcp.Opening.{
  Keeps, close_lem, timer_lem, Leaves, Same-Inv, install-Leaves, connect_lem, connect_host_lem,
  connect_unix_lem, attach_lem,
}

written_lem : (s : TcpSocket) → Keeps written s
unfolding Transfer.on_buffer_event_written Transfer.check_output Tcp.close Tcp.fire_on_socket_close
    Tcp.close_handles Tcp.fire
written_lem s i on nf = record {
  idle = λ e. ground (arith, i.idle);
  live = λ e. ground (arith, i.live);
  one = ground (arith, i.one);
  pair = ground (arith, i.pair);
  queued = λ e. ground (arith, i.queued);
}

close_after_all_sent_lem : (s : TcpSocket) → Keeps close_after_all_sent s
unfolding Transfer.close_after_all_sent Transfer.check_output Tcp.close Tcp.fire_on_socket_close
    Tcp.close_handles Tcp.fire Tcp.mark_write Tcp.mark_read
close_after_all_sent_lem s i on nf = record {
  idle = λ e. ground (arith, i.idle);
  live = λ e. ground (arith, i.live);
  one = ground (arith, i.one);
  pair = ground (arith, i.pair);
  queued = λ e. ground (arith, i.queued);
}

write_lem : (b : Bytes) (s : TcpSocket) → Keeps (write b) s
unfolding Transfer.write Transfer.write_handle Transfer.add_pending Tcp.mark_write
write_lem b s i on nf = record {
  idle = λ e. ground (arith, i.idle);
  live = λ e. ground (arith, i.live);
  one = ground (arith, i.one);
  pair = ground (arith, i.pair);
  queued = λ e. ground (arith, i.queued);
}

read_lem : (dns : ℕ) (answer : Received) (n : ℕ) (s : TcpSocket) → Keeps (read dns answer n) s
unfolding Transfer.read Transfer.read_buffer_event Transfer.check_response_socket
    Tcp.fire_on_socket_error Tcp.close Tcp.fire_on_socket_close Tcp.close_handles Tcp.fire
read_lem dns answer n s i on nf = record {
  idle = λ e. ground (arith, i.idle);
  live = λ e. ground (arith, i.live);
  one = ground (arith, i.one);
  pair = ground (arith, i.pair);
  queued = λ e. ground (arith, i.queued);
}

bev_event_lem : (dns : ℕ) (x : BevEvent) (s : TcpSocket) → Keeps (bev_event dns x) s
unfolding Connect.bufevent_cb Tcp.fire_on_socket_connected Tcp.fire_on_socket_error Tcp.mark_write
    Tcp.close Tcp.fire_on_socket_close Tcp.close_handles Tcp.fire
bev_event_lem dns x s i on nf = record {
  idle = λ e. ground (arith, i.idle);
  live = λ e. ground (arith, i.live);
  one = ground (arith, i.one);
  pair = ground (arith, i.pair);
  queued = λ e. ground (arith, i.queued);
}

-- The write event of a socket with events.
write_event_lem :
    (answer : Sent) (s : TcpSocket)
    → Inv s
    → is_some s.ev_write ≡ true
    → Leaves (Transfer.on_write_event answer) s
unfolding Transfer.on_write_event Transfer.after_write Tcp.fire_on_socket_connected Tcp.mark_write
    Tcp.close Tcp.fire_on_socket_close Tcp.close_handles Tcp.fire
write_event_lem answer s i on nf = record {
  idle = λ e. ground (arith, i.idle);
  live = λ e. ground (arith, i.live);
  one = ground (arith, i.one);
  pair = ground (arith, i.pair);
  queued = λ e. ground (arith, i.queued);
}

-- The state behind the read event of a descriptor.
abbrev noted : Bool → TcpSocket → TcpSocket
noted r s = record s {
  calls = if r && s.handler && not s.stopped then s.calls ++ socket_read_event ∷ [] else s.calls;
}

event-run :
    (r w : Bool) (answer : Sent) (s : TcpSocket)
    → Transfer.event_cb r w answer s
      ≡ (if s.stopped then (ok tt, s) else when w (Transfer.on_write_event answer) (noted r s))
unfolding Transfer.event_cb Transfer.on_read_event Tcp.fire
event-run r w answer s = ground arith

noted-Inv : (r : Bool) (s : TcpSocket) → Inv s → Inv (noted r s)
noted-Inv r s i = record {
  idle = i.idle;
  live = i.live;
  one = i.one;
  pair = i.pair;
  queued = i.queued;
}

io_event_lem : (r w : Bool) (answer : Sent) (s : TcpSocket) → Keeps (io_event r w answer) s
io_event_lem r w answer s i on nf =
    let e = event-run r w answer s in rw e (go s.stopped w λ z. nf (ap (λ o. o.0) e ∙ z))
  where
    go :
        (stop v : Bool)
        → (if stop then (ok tt, s) else when v (Transfer.on_write_event answer) (noted r s)).0
          ≢ fault
        → Inv (if stop then (ok tt, s) else when v (Transfer.on_write_event answer) (noted r s)).1
    go true v n = i
    go false false n = noted-Inv r s i
    go false true n = write_event_lem answer (noted r s) (noted-Inv r s i) on n

arrive_lem : (b : Bytes) (s : TcpSocket) → Keeps (arrive b) s
arrive_lem b s i on nf =
    Same-Inv s (run (arrive b) s).1
      (record { state = refl; bev = ground arith; ev_read = refl; ev_write = refl; queue = refl }) i

flush_lem : (n : ℕ) (s : TcpSocket) → Keeps (flush n) s
flush_lem n s i on nf =
    Same-Inv s (run (flush n) s).1
      (record { state = refl; bev = ground arith; ev_read = refl; ev_write = refl; queue = refl }) i

keeps : (a : Action) (s : TcpSocket) → Keeps a s
keeps (connect answers) s = λ i on. connect_lem answers s i
keeps (connect_host answers h p t) s = connect_host_lem answers h p t s
keeps (connect_unix answers p t) s = connect_unix_lem answers p t s
keeps (attach fd b) s = attach_lem fd b s
keeps install s = λ i on. install-Leaves s i
keeps close s = close_lem s
keeps close_after_all_sent s = close_after_all_sent_lem s
keeps written s = written_lem s
keeps (write b) s = write_lem b s
keeps (read dns answer n) s = read_lem dns answer n s
keeps (bev_event dns x) s = bev_event_lem dns x s
keeps (io_event r w answer) s = io_event_lem r w answer s
keeps (timer dns) s = timer_lem dns s
keeps (arrive b) s = arrive_lem b s
keeps (flush n) s = flush_lem n s

-- After any history of connecting, attaching, transfers, closing and events, in which nothing was a
-- fault, a disconnected socket has neither a bufferevent nor events, a connected one has one or the
-- other, no socket has both, the two events come together, and a socket with a handle has a kbuffer.
pub Inv-Reachable : (s : TcpSocket) → Reachable s → Inv s
Inv-Reachable _ (start handler) = record {
  idle = λ e. refl;
  live = λ e. ground arith;
  one = refl;
  pair = refl;
  queued = λ e. ground arith;
}
Inv-Reachable _ (step s a on nf r) = keeps a s (Inv-Reachable s r) on nf

io_event-ok :
    (r w : Bool) (answer : Sent) (s : TcpSocket)
    → Inv s
    → is_some s.ev_write ≡ true
    → (Transfer.event_cb r w answer s).0 ≡ ok tt
unfolding Transfer.event_cb Transfer.on_read_event Transfer.on_write_event Transfer.after_write
    Tcp.fire_on_socket_connected Tcp.mark_write Tcp.close Tcp.fire_on_socket_close Tcp.close_handles
    Tcp.fire
io_event-ok r w answer s i on = ground (arith, i.queued)

-- After any such history an event on the descriptor of a socket that has events is handled without a
-- fault, whatever `write` answers, and so is `close` after it, behind which the socket is
-- disconnected and has no handle.
pub io_event-Reachable :
    (r w : Bool) (answer : Sent) (s : TcpSocket)
    → Reachable s
    → is_some s.ev_write ≡ true
    → let (o, t) = run (io_event r w answer) s in
      let (o', u) = run close t in
      (o ≡ ok tt) × (o' ≡ ok tt) × (u.state ≡ disconnected) × (has_handle u ≡ false)
unfolding Tcp.close Tcp.fire_on_socket_close Tcp.close_handles Tcp.fire
io_event-Reachable r w answer s h on =
    (io_event-ok r w answer s (Inv-Reachable s h) on, refl, refl, refl)
