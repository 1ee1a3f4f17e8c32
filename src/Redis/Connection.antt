-- ===== src/Redis/Connection.antt =====
-- The connection and the timers of src/RedisRequest.cpp.
use coconut.Base.{
  ℕ, ◌-◌, Bool, true, false, ◌||◌, List, [], ◌∷◌, none, some, Bytes, leb, ◌==◌, if◌then◌else◌,
  int_lt, ok, fault, M, ◌>>=◌, ◌>>◌, pure, throw, gets, modify, illegal_state,
}
use coconut.Redis
use coconut.Redis.{
  RedisRequest, RequestContext, RequestState, connecting, connected, connectfailed, closed,
  reconectready, Call, freed, disconnected, log,
}

-- `close`. The replies that hiredis gives while it frees its context are steps of their own.
unfoldable pub close : M RedisRequest (Unit {0})
close = do
  c ← gets (λ s. s.redis_context)
  elim c [ none ↦ pure tt | some e ↦ do log freed; modify (λ s. record s { redis_context = none }) ]
  modify (λ s. record s { state = closed })

unfoldable pub reconnect : M RedisRequest (Unit {0})
reconnect = do
  b ← gets (λ s. s.stopped)
  if b then pure tt else modify (λ s. record s { state = reconectready; timer_reconnect = true })

-- `connect`, with the error number of the context that redisAsyncConnect makes.
unfoldable pub connect : ℕ → M RedisRequest (Unit {0})
connect err = do
  c ← gets (λ s. s.redis_context)
  elim c [
    | some e ↦ throw illegal_state
    | none ↦ modify (λ s. record s {
      redis_context = some err;
      state = if err == 0 then connecting else connectfailed;
      timer_connection_timeout = true;
    })
  ]

-- `fire_onRedisRequest_Connected`
unfoldable pub fire_connected : (ℕ → List Bytes → Bool) → M RedisRequest (Unit {0})
fire_connected accepts = do
  modify (λ s. record s { state = connected; timer_connection_timeout = false })
  cs ← gets (λ s. s.reserved_commands)
  Redis.call_reserved accepts cs

-- `redisContext_->err`
abbrev pub context_err : M RedisRequest ℕ
context_err s = elim s.redis_context [ none ↦ (fault, s) | some e ↦ (ok e, s) ]

-- `fire_onRedisRequest_ConnectFailed`
unfoldable pub fire_connect_failed : M RedisRequest (Unit {0})
fire_connect_failed = do
  modify (λ s. record s { state = connectfailed; timer_connection_timeout = false })
  e ← context_err
  Redis.fire_error e 0
  modify (λ s. record s { redis_context = none })
  reconnect

-- `fire_onRedisRequest_Closed`
unfoldable pub fire_closed : M RedisRequest (Unit {0})
fire_closed = do modify (λ s. record s { state = closed; redis_context = none }); reconnect

unfoldable pub connect_callback : (ℕ → List Bytes → Bool) → Bool → M RedisRequest (Unit {0})
connect_callback accepts status_ok =
    if status_ok then fire_connected accepts else fire_connect_failed

-- TIMER_ID_CONNECTION_TIMEOUT, of a timer that does not repeat.
unfoldable pub on_connection_timeout : M RedisRequest (Unit {0})
on_connection_timeout = do
  modify (λ s. record s { timer_connection_timeout = false })
  c ← gets (λ s. s.redis_context)
  elim c [
    | none ↦ reconnect
    | some e ↦ do
      log disconnected
      modify (λ s. record s { redis_context = none; state = closed })
      reconnect
  ]

abbrev pub assert_no_context : M RedisRequest (Unit {0})
assert_no_context s = elim s.redis_context [ none ↦ (ok tt, s) | some e ↦ (fault, s) ]

-- TIMER_ID_RECONNECT, with its assertion, of a timer that does not repeat.
unfoldable pub on_reconnect : ℕ → M RedisRequest (Unit {0})
on_reconnect err = do
  modify (λ s. record s { timer_reconnect = false })
  assert_no_context
  connect err

-- The contexts behind a second, and the tickets whose time has run out.
abbrev pub tick : List RequestContext → List RequestContext
tick [] = []
tick (c ∷ cs) = (if int_lt 0 c.ttl then record c { ttl = c.ttl - 1 } else c) ∷ tick cs

abbrev pub cancel_list : List RequestContext → List ℕ
cancel_list [] = []
cancel_list (c ∷ cs) =
    if int_lt 0 c.ttl
    then (if leb c.ttl 1 then c.ticket ∷ cancel_list cs else cancel_list cs)
    else cancel_list cs

abbrev pub need_this_timer : List RequestContext → Bool
need_this_timer [] = false
need_this_timer (c ∷ cs) = int_lt 0 c.ttl || need_this_timer cs

-- REDIS_ERR_OTHER of hiredis.
abbrev pub redis_err_other : ℕ
redis_err_other = 2

unfoldable pub cancel_all : List ℕ → M RedisRequest (Unit {0})
cancel_all [] = pure tt
cancel_all (t ∷ ts) = do Redis.fire_error redis_err_other t; Redis.cancel t; cancel_all ts

-- TIMER_ID_COMMAND_TTL
unfoldable pub on_command_ttl : M RedisRequest (Unit {0})
on_command_ttl = do
  cs ← gets (λ s. s.map_callback)
  modify (λ s. record s {
    map_callback = tick cs;
    timer_command_ttl = if need_this_timer cs then s.timer_command_ttl else false;
  })
  cancel_all (cancel_list cs)
