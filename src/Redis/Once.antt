-- ===== src/Redis/Once.antt =====
-- The steps of the client of Redis.antt, and how often they call the handler of a ticket.
use coconut.Base.{
  ℕ, ◌+◌, ◌≤◌, ◌≡◌, refl, ◌∙◌, arith, Bool, true, false, List, [], ◌∷◌, ◌++◌, Option, none, some,
  Bytes, ◌==◌, if◌then◌else◌, Result, ok, throws, fault, M, ◌>>=◌, ◌>>◌, pure, resume,
}
use coconut.Redis
use coconut.Redis.Connection
use coconut.Redis.{
  RedisRequest, RequestContext, Call, Command, sent, answered, failed, freed, disconnected, find,
  insert, erase, unreserve,
}
use coconut.Redis.Connection.{tick}

-- How often a ticket waits for its handler, and how often the handler has been called for it.
abbrev pub waiting : ℕ → List RequestContext → ℕ
waiting t [] = 0
waiting t (c ∷ cs) = (if t == c.ticket then 1 else 0) + waiting t cs

abbrev pub calls_for : ℕ → Call → ℕ
calls_for t (answered u) = if t == u then 1 else 0
calls_for t (failed u e) = if t == u then 1 else 0
calls_for t (sent u args) = 0
calls_for t freed = 0
calls_for t disconnected = 0

abbrev pub called : ℕ → List Call → ℕ
called t [] = 0
called t (c ∷ cs) = calls_for t c + called t cs

abbrev pub total : ℕ → RedisRequest → ℕ
total t s = waiting t s.map_callback + called t s.calls

pub called-append :
    (t : ℕ) (cs : List Call) (c : Call) → called t (cs ++ c ∷ []) ≡ called t cs + calls_for t c
called-append t [] c = omega arith
called-append t (d ∷ cs) c = omega (arith, called-append t cs c)

pub waiting-insert :
    (t : ℕ) (x : RequestContext) (cs : List RequestContext)
    → waiting t (insert x cs) ≤ waiting t cs + (if t == x.ticket then 1 else 0)
waiting-insert t x [] = ground arith
waiting-insert t x (c ∷ cs) = ground (arith, waiting-insert t x cs)

pub waiting-erase : (t u : ℕ) (cs : List RequestContext) → waiting t (erase u cs) ≤ waiting t cs
waiting-erase t u [] = omega arith
waiting-erase t u (c ∷ cs) = ground (arith, waiting-erase t u cs)

erase-found :
    (t u : ℕ) (c : RequestContext) (cs : List RequestContext)
    → find u cs ≡ some c
    → waiting t (erase u cs) + (if t == u then 1 else 0) ≤ waiting t cs
erase-found t u c [] h = ground arith
erase-found t u c (d ∷ cs) h = ground (arith, erase-found t u c cs)

pub waiting-tick : (t : ℕ) (cs : List RequestContext) → waiting t (tick cs) ≡ waiting t cs
waiting-tick t [] = refl
waiting-tick t (c ∷ cs) = ground (arith, waiting-tick t cs)

-- A step that issues no ticket and no more calls than there were contexts.
pub record Less (s s' : RedisRequest) : Type 0 where
  pub same : s'.s_ticket ≡ s.s_ticket
  pub less : (t : ℕ) → total t s' ≤ total t s

abbrev pub Lessens : {A : Type 0} → M RedisRequest A → Type 0
Lessens m = (s : RedisRequest) → Less s (m s).1

pub next-Lessens :
    {A B : Type 0} (m : M RedisRequest A) (k : A → M RedisRequest B)
    → Lessens m
    → ((a : A) → Lessens (k a))
    → Lessens (m >>= k)
next-Lessens {A} {B} m k first rest s = go (m s) (first s)
  where
    go : (o : Result A × RedisRequest) → Less s o.1 → Less s (resume k o).1
    go (ok a, t) l = record {
      same = (rest a t).same ∙ l.same;
      less = λ u. let x = l.less u in let y = (rest a t).less u in omega arith;
    }
    go (throws e, t) l = l
    go (fault, t) l = l

pub remove_context-Lessens : (t : ℕ) → Lessens (Redis.remove_context t)
unfolding Redis.remove_context
remove_context-Lessens t s = record {
  same = refl;
  less = λ u. omega (arith, waiting-erase u t s.map_callback);
}

handle-Lessens :
    (t : ℕ) (c : Call)
    → ((u : ℕ) → calls_for u c ≡ (if u == t then 1 else 0))
    → Lessens (Redis.handle t c)
unfolding Redis.handle Redis.remove_context
handle-Lessens t c one s = record {
  same = ground arith;
  less = λ u. go u (find t s.map_callback) refl;
}
  where
    go :
        (u : ℕ) (f : Option RequestContext)
        → find t s.map_callback ≡ f
        → total u (Redis.handle t c s).1 ≤ total u s
    go u none e = rw e (omega arith)
    go u (some x) e =
        rw e (omega (arith, erase-found u t x s.map_callback e, called-append u s.calls c, one u))

fire_error-Lessens : (e t : ℕ) → Lessens (Redis.fire_error e t)
unfolding Redis.fire_error
fire_error-Lessens e t s = go (t == 0) (handle-Lessens t (failed t e) (λ u. refl) s)
  where
    go :
        (b : Bool)
        → Less s (Redis.handle t (failed t e) s).1
        → Less s ((if b then pure tt else Redis.handle t (failed t e)) s).1
    go true l = record { same = refl; less = λ u. omega arith }
    go false l = l

pub get_callback-Lessens : (r : Option ℕ) (t : ℕ) → Lessens (Redis.get_callback r t)
unfolding Redis.get_callback Redis.fire_response
get_callback-Lessens none t = handle-Lessens t (answered t) (λ u. refl)
get_callback-Lessens (some e) t = fire_error-Lessens e t

module _ (accepts : ℕ → List Bytes → Bool) where
  pub run_command-Lessens : (c : Command) → Lessens (Redis.run_command accepts c)
  unfolding Redis.run_command Redis.do_command Redis.cancel Redis.remove_context
  run_command-Lessens (t, args) s = record {
    same = ground arith;
    less = λ u.
        ground (arith, waiting-erase u t s.map_callback, called-append u s.calls (sent t args));
  }

  pub run_deferred-Lessens : (cs : List Command) → Lessens (Redis.run_deferred accepts cs)
  unfolding Redis.run_deferred
  run_deferred-Lessens [] s = record { same = refl; less = λ u. omega arith }
  run_deferred-Lessens (c ∷ cs) s =
      let l = run_command-Lessens c (record s { deferred = cs }) in
      record { same = l.same; less = l.less }

  call_reserved-Lessens : (cs : List Command) → Lessens (Redis.call_reserved accepts cs)
  unfolding Redis.call_reserved
  call_reserved-Lessens [] = λ s. record { same = refl; less = λ u. omega arith }
  call_reserved-Lessens (c ∷ cs) =
      next-Lessens (Redis.run_command accepts c) (λ _. Redis.call_reserved accepts cs)
        (run_command-Lessens c) (λ _. call_reserved-Lessens cs)

  pub connect_callback-Lessens : (b : Bool) → Lessens (Connection.connect_callback accepts b)
  unfolding Connection.connect_callback Connection.fire_connected Connection.fire_connect_failed
      Connection.reconnect Redis.fire_error
  connect_callback-Lessens true s =
      let l =
        call_reserved-Lessens s.reserved_commands
          (record s { state = Redis.connected; timer_connection_timeout = false }) in
      record { same = l.same; less = l.less }
  connect_callback-Lessens false s = record { same = ground arith; less = λ u. ground arith }

-- The steps that leave the contexts and the calls of handlers alone.
pub close-Lessens : Lessens Connection.close
unfolding Connection.close
close-Lessens s = record {
  same = ground arith;
  less = λ u. ground (arith, called-append u s.calls freed);
}

pub connect-Lessens : (e : ℕ) → Lessens (Connection.connect e)
unfolding Connection.connect
connect-Lessens e s = record { same = ground arith; less = λ u. ground arith }

pub fire_closed-Lessens : Lessens Connection.fire_closed
unfolding Connection.fire_closed Connection.reconnect
fire_closed-Lessens s = record { same = ground arith; less = λ u. ground arith }

pub on_connection_timeout-Lessens : Lessens Connection.on_connection_timeout
unfolding Connection.on_connection_timeout Connection.reconnect
on_connection_timeout-Lessens s = record {
  same = ground arith;
  less = λ u. ground (arith, called-append u s.calls disconnected);
}

pub on_reconnect-Lessens : (e : ℕ) → Lessens (Connection.on_reconnect e)
unfolding Connection.on_reconnect Connection.connect
on_reconnect-Lessens e s = record { same = ground arith; less = λ u. ground arith }

cancel_all-Lessens : (ts : List ℕ) → Lessens (Connection.cancel_all ts)
unfolding Connection.cancel_all Redis.cancel
cancel_all-Lessens [] = λ s. record { same = refl; less = λ u. omega arith }
cancel_all-Lessens (t ∷ ts) =
    next-Lessens (Redis.fire_error Connection.redis_err_other t)
      (λ _. Redis.cancel t >> Connection.cancel_all ts)
      (fire_error-Lessens Connection.redis_err_other t)
      (λ _.
        next-Lessens (Redis.cancel t) (λ _. Connection.cancel_all ts) (remove_context-Lessens t)
          (λ _. cancel_all-Lessens ts))

pub on_command_ttl-Lessens : Lessens Connection.on_command_ttl
unfolding Connection.on_command_ttl
on_command_ttl-Lessens s =
    let t = record s {
      map_callback = tick s.map_callback;
      timer_command_ttl =
          if Connection.need_this_timer s.map_callback then s.timer_command_ttl else false;
    } in
    let l = cancel_all-Lessens (Connection.cancel_list s.map_callback) t in
    record {
      same = l.same;
      less = λ u. let x = l.less u in omega (arith, waiting-tick u s.map_callback);
    }
