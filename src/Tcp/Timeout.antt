-- ===== src/Tcp/Timeout.antt =====
-- The connect timer of a socket of Tcp.antt, where connecting fails.
use coconut.Base.{
  ℕ, ◌*◌, ◌%◌, ◌≡◌, refl, ap, ◌∙◌, arith, true, false, [], ◌∷◌, ◌++◌, none, some, Bytes, u32_mod,
  int_lt, Result, ok, throws, fault, illegal_state, socket_exception,
}
use coconut.Tcp
use coconut.Tcp.Connect
use coconut.Tcp.{
  TcpSocket, connecting, disconnected, socket_error, socket_text, dns_text, etimedout,
}
use coconut.Tcp.Connect.{Answers, bev_error}
use coconut.Tcp.History.{may_connect, connect-allowed, connect-refused}
use coconut.Tcp.Pending.{started, refused_host, looked_up-run, failed-run}

-- When the lookup of a free socket's host cannot be started, `connect` with a positive timeout throws
-- a SocketException and leaves the socket connecting, without a handle and with its timer set: every
-- later `connect` throws an IllegalStateException, and when the timer runs out the handler of the
-- error reads through a bufferevent that is NULL.
pub connect_host-failed :
    (s : TcpSocket) (host h : Bytes) (port t p u dns : ℕ) (answers : Answers)
    → may_connect s ≡ true
    → int_lt 0 t ≡ true
    → let (r, s1) = Connect.connect_host refused_host host port t s in
      (r ≡ throws socket_exception)
      × (s1.state ≡ connecting)
      × (s1.bev ≡ none)
      × (s1.conn_timer ≡ some (some (t * 1000 % u32_mod)))
      × ((Connect.connect_host answers h p u s1).0 ≡ throws illegal_state)
      × ((Tcp.expire dns s1).0 ≡ fault)
unfolding Connect.connect_host Tcp.expire Tcp.on_timer Tcp.fire_on_socket_error
connect_host-failed s host h port t p u dns answers free positive =
    let s0 = record s { host = host; port = port; timeout = t; path = [] } in
    let e = connect-allowed refused_host s0 free ∙ failed-run s0 refl in
    (
      ap (λ o. o.0) e,
      ap (λ o. o.1.state) e,
      ap (λ o. o.1.bev) e,
      ap (λ o. o.1.conn_timer) e ∙ ground arith,
      ap (λ o. (Connect.connect_host answers h p u o.1).0) e
          ∙ ap (λ o. o.0) (connect-refused answers _ refl),
      ap (λ o. (Tcp.expire dns o.1).0) e ∙ refl,
    )

-- When a free socket, with a handler and a running service, connects to a host with a positive
-- timeout and then gets an error event, it is disconnected and its handler is told, but the timer
-- stays set: when it runs out, the handler is told of a second error, a timeout.
pub connect_host-error :
    (s : TcpSocket) (fd e dns dns' : ℕ) (host : Bytes) (port t : ℕ)
    → may_connect s ≡ true
    → s.stopped ≡ false
    → s.handler ≡ true
    → int_lt 0 t ≡ true
    → let s1 = (Connect.connect_host (started fd) host port t s).1 in
      let s2 = (Connect.bufevent_cb dns (bev_error e) s1).1 in
      let (r, s3) = Tcp.expire dns' s2 in
      (s2.state ≡ disconnected)
      × (s2.calls ≡ s1.calls ++ socket_error e s2.last_error ∷ [])
      × (s2.conn_timer ≡ some (some (t * 1000 % u32_mod)))
      × (r ≡ ok tt)
      × (s3.calls ≡ s2.calls ++ socket_error etimedout (socket_text etimedout) ∷ [])
unfolding Connect.connect_host Connect.bufevent_cb Tcp.expire Tcp.on_timer Tcp.fire_on_socket_error
    Tcp.close_handles Tcp.fire
connect_host-error s fd e dns dns' host port t free running handled positive =
    let s0 = record s { host = host; port = port; timeout = t; path = [] } in
    let run = connect-allowed (started fd) s0 free ∙ looked_up-run fd s0 refl in
    let s2 = λ (o : Result (Unit {0}) × TcpSocket). (Connect.bufevent_cb dns (bev_error e) o.1).1 in
    (
      ap (λ o. (s2 o).state) run ∙ ground arith,
      rw run (ground arith),
      ap (λ o. (s2 o).conn_timer) run ∙ ground arith,
      ap (λ o. (Tcp.expire dns' (s2 o)).0) run ∙ ground arith,
      rw run (ground arith),
    )
