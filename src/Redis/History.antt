-- ===== src/Redis/History.antt =====
-- The histories of the client of Redis.antt.
use coconut.Base.{
  ℕ, ◌+◌, ◌-◌, ◌≤◌, ◌<◌, ◌%◌, ◌≡◌, refl, arith, Bool, true, false, List, Option, Bytes, ◌==◌,
  if◌then◌else◌, u32_mod, int_lt, M, ◌>>◌, pure,
}
use coconut.Redis
use coconut.Redis.Connection
use coconut.Redis.{
  RedisRequest, RequestContext, Call, Command, sent, is_connected, connected, insert,
}
use coconut.Redis.Once.{
  Less, Lessens, next-Lessens, total, waiting, called, waiting-insert, run_command-Lessens,
  run_deferred-Lessens, connect_callback-Lessens, close-Lessens, connect-Lessens,
  fire_closed-Lessens, on_connection_timeout-Lessens, on_reconnect-Lessens, on_command_ttl-Lessens,
  get_callback-Lessens, remove_context-Lessens,
}

-- The methods that a user calls, and what hiredis, the timers and the deferred caller call.
pub data Action : Type 0 where
  command : Bool → List Bytes → ℕ → Action
  connect : ℕ → Action
  cancel : ℕ → Action
  close deferred disconnect connection_timeout command_ttl : Action
  reconnect_timer : ℕ → Action
  reply : Option ℕ → ℕ → Action
  connect_callback : Bool → Action

abbrev pub done : {A : Type 0} → M RedisRequest A → M RedisRequest (Unit {0})
done m = m >> pure tt

module _ (accepts : ℕ → List Bytes → Bool) where
  abbrev pub run : Action → M RedisRequest (Unit {0})
  run (command mounted args timeout) = done (Redis.command accepts mounted args timeout)
  run (connect e) = Connection.connect e
  run (cancel t) = Redis.cancel t
  run close = Connection.close
  run deferred = λ s. Redis.run_deferred accepts s.deferred s
  run disconnect = Connection.fire_closed
  run connection_timeout = Connection.on_connection_timeout
  run command_ttl = Connection.on_command_ttl
  run (reconnect_timer e) = Connection.on_reconnect e
  run (reply r t) = Redis.get_callback r t
  run (connect_callback b) = Connection.connect_callback accepts b

  -- The clients that a history of fewer than 2 ^ 32 commands leads to, with any results of the calls.
  pub data Reachable : RedisRequest → Type 0 where
    start : Reachable Redis.make
    step :
        (s : RedisRequest) (a : Action)
        → s.s_ticket + 1 < u32_mod
        → Reachable s
        → Reachable (run a s).1

  record Inv (s : RedisRequest) : Type 0 where
    pub once : (t : ℕ) → total t s ≤ 1
    pub fresh : (t : ℕ) → s.s_ticket < t → total t s ≡ 0

  Less-Inv : (s s' : RedisRequest) → Less s s' → Inv s → Inv s'
  Less-Inv s s' l i = record {
    once = λ t. let x = l.less t in let y = i.once t in omega arith;
    fresh = λ t h. let x = l.less t in let y = i.fresh t (omega (arith, l.same)) in omega arith;
  }

  -- A client that has entered a command and not run it yet.
  abbrev entered : List Bytes → ℕ → RedisRequest → RedisRequest
  entered args timeout s = record s {
    s_ticket = (s.s_ticket + 1) % u32_mod;
    timer_command_ttl = if int_lt 0 timeout then true else s.timer_command_ttl;
    map_callback =
        insert
          (record {
            ticket = (s.s_ticket + 1) % u32_mod;
            args = args;
            ttl = if int_lt 0 timeout then timeout else u32_mod - 1;
          })
          s.map_callback;
  }

  entered-Inv :
      (args : List Bytes) (timeout : ℕ) (s : RedisRequest)
      → s.s_ticket + 1 < u32_mod
      → Inv s
      → Inv (entered args timeout s)
  entered-Inv args timeout s few i = record {
    once = λ u. omega (arith, waiting-insert u x s.map_callback, i.once u, new u);
    fresh =
        λ u h. omega (arith, waiting-insert u x s.map_callback, i.fresh u (omega arith), other u h);
  }
    where
      x : RequestContext
      x = record {
        ticket = (s.s_ticket + 1) % u32_mod;
        args = args;
        ttl = if int_lt 0 timeout then timeout else u32_mod - 1;
      }

      new : (u : ℕ) → total u s + (if u == (s.s_ticket + 1) % u32_mod then 1 else 0) ≤ 1
      new u = ground (arith, i.once u, i.fresh u)

      other :
          (u : ℕ)
          → (s.s_ticket + 1) % u32_mod < u
          → ◌≡◌ {A = ℕ} (if u == (s.s_ticket + 1) % u32_mod then 1 else 0) 0
      other u h = ground arith

  command-Inv :
      (mounted : Bool) (args : List Bytes) (timeout : ℕ) (s : RedisRequest)
      → s.s_ticket + 1 < u32_mod
      → Inv s
      → Inv (run (command mounted args timeout) s).1
  unfolding Redis.command Redis.issue_ticket
  command-Inv mounted args timeout s few i = go mounted
    where
      t : ℕ
      t = (s.s_ticket + 1) % u32_mod

      r : RedisRequest
      r = entered args timeout s

      j : Inv r
      j = entered-Inv args timeout s few i

      still : {A : Type 0} (a : A) → Lessens (pure a)
      still a z = record { same = refl; less = λ u. omega arith }

      go : (b : Bool) → Inv (run (command b args timeout) s).1
      go true =
          Less-Inv r (run (command true args timeout) s).1
            (next-Lessens (Redis.run_command accepts (t, args) >> pure t) (λ _. pure tt)
              (next-Lessens (Redis.run_command accepts (t, args)) (λ _. pure t)
                (run_command-Lessens accepts (t, args)) still)
              still r)
            j
      go false = record { once = j.once; fresh = j.fresh }

  keeps : (a : Action) (s : RedisRequest) → s.s_ticket + 1 < u32_mod → Inv s → Inv (run a s).1
  unfolding Redis.cancel
  keeps (command mounted args timeout) s few = command-Inv mounted args timeout s few
  keeps (connect e) s few = Less-Inv s (run (connect e) s).1 (connect-Lessens e s)
  keeps (cancel t) s few = Less-Inv s (run (cancel t) s).1 (remove_context-Lessens t s)
  keeps close s few = Less-Inv s (run close s).1 (close-Lessens s)
  keeps deferred s few = Less-Inv s (run deferred s).1 (run_deferred-Lessens accepts s.deferred s)
  keeps disconnect s few = Less-Inv s (run disconnect s).1 (fire_closed-Lessens s)
  keeps connection_timeout s few =
      Less-Inv s (run connection_timeout s).1 (on_connection_timeout-Lessens s)
  keeps command_ttl s few = Less-Inv s (run command_ttl s).1 (on_command_ttl-Lessens s)
  keeps (reconnect_timer e) s few =
      Less-Inv s (run (reconnect_timer e) s).1 (on_reconnect-Lessens e s)
  keeps (reply r t) s few = Less-Inv s (run (reply r t) s).1 (get_callback-Lessens r t s)
  keeps (connect_callback b) s few =
      Less-Inv s (run (connect_callback b) s).1 (connect_callback-Lessens accepts b s)

  Inv-Reachable : (s : RedisRequest) → Reachable s → Inv s
  Inv-Reachable _ start = record { once = λ t. omega arith; fresh = λ t h. refl }
  Inv-Reachable _ (step s a few r) = keeps a s few (Inv-Reachable s r)

  -- After any history of commands, cancellations, replies, timers and connections, with fewer than
  -- 2 ^ 32 commands, the times that the handler of a ticket has been called and the contexts that
  -- still wait for it are one at most: no handler is called twice, and none that waits has been called.
  pub called-Reachable :
      (s : RedisRequest) (t : ℕ) → Reachable s → waiting t s.map_callback + called t s.calls ≤ 1
  called-Reachable s t r = (Inv-Reachable s r).once t
