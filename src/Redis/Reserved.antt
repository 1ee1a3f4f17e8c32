-- ===== src/Redis/Reserved.antt =====
-- Commands that are given to the client of Redis.antt before it is connected.
use coconut.Base.{
  ℕ, ◌+◌, ◌%◌, ◌≡◌, refl, sym, ap, ◌∙◌, arith, Bool, true, false, List, [], ◌∷◌, ◌++◌, some, Bytes,
  u32_mod, ok, bind-ok, append-nil, append_assoc,
}
use coconut.Redis
use coconut.Redis.Connection
use coconut.Redis.{
  RedisRequest, RequestContext, Call, Command, sent, is_connected, connected, insert,
}

-- The commands for these arguments and timeouts, with their tickets behind t.
abbrev pub numbered : ℕ → List (List Bytes × ℕ) → List Command
numbered t [] = []
numbered t ((a, timeout) ∷ requests) =
    ((t + 1) % u32_mod, a) ∷ numbered ((t + 1) % u32_mod) requests

abbrev pub sends : List Command → List Call
sends [] = []
sends ((t, a) ∷ cs) = sent t a ∷ sends cs

module _ (accepts : ℕ → List Bytes → Bool) where
  -- They are given one after the other in the thread of the service, each with its timeout.
  abbrev pub command_all : List (List Bytes × ℕ) → RedisRequest → RedisRequest
  command_all [] s = s
  command_all ((a, timeout) ∷ requests) s =
      command_all requests (Redis.command accepts true a timeout s).1

  record Waits (s s' : RedisRequest) (requests : List (List Bytes × ℕ)) : Type 0 where
    pub state : is_connected s'.state ≡ false
    pub context : s'.redis_context ≡ s.redis_context
    pub reserved : s'.reserved_commands ≡ s.reserved_commands ++ numbered s.s_ticket requests
    pub calls : s'.calls ≡ s.calls

  command_all-Waits :
      (requests : List (List Bytes × ℕ)) (s : RedisRequest)
      → is_connected s.state ≡ false
      → Waits s (command_all requests s) requests
  unfolding Redis.command Redis.issue_ticket Redis.run_command
  command_all-Waits [] s off = record {
    state = off;
    context = refl;
    reserved = sym (append-nil s.reserved_commands);
    calls = refl;
  }
  command_all-Waits ((a, timeout) ∷ requests) s off =
      let s1 = (Redis.command accepts true a timeout s).1 in
      let w = command_all-Waits requests s1 (ground arith) in
      let t = (s.s_ticket + 1) % u32_mod in
      let r : s1.reserved_commands ≡ s.reserved_commands ++ (t, a) ∷ [] = ground arith in
      let k : s1.s_ticket ≡ t = ground arith in
      let c : s1.redis_context ≡ s.redis_context = ground arith in
      let l : s1.calls ≡ s.calls = ground arith in
      record {
        state = w.state;
        context = w.context ∙ c;
        reserved =
            w.reserved
            ∙ ap (λ x. x ++ numbered s1.s_ticket requests) r
            ∙ ap (λ x. (s.reserved_commands ++ (t, a) ∷ []) ++ numbered x requests) k
            ∙ append_assoc s.reserved_commands ((t, a) ∷ []) (numbered t requests);
        calls = w.calls ∙ l;
      }

  call_reserved_lem :
      (cs : List Command) (s : RedisRequest) (e : ℕ)
      → ((t : ℕ) (a : List Bytes) → accepts t a ≡ true)
      → is_connected s.state ≡ true
      → s.redis_context ≡ some e
      → Redis.call_reserved accepts cs s ≡ (ok tt, record s { calls = s.calls ++ sends cs })
  unfolding Redis.call_reserved Redis.run_command Redis.do_command
  call_reserved_lem [] s e all on up =
      ap (λ x. (ok tt, record s { calls = x })) (sym (append-nil s.calls))
  call_reserved_lem ((t, a) ∷ cs) s e all on up =
      let s1 = record s { calls = s.calls ++ sent t a ∷ [] } in
      let one : Redis.run_command accepts (t, a) s ≡ (ok tt, s1) = ground (arith, all t a) in
      bind-ok (Redis.run_command accepts (t, a)) (λ _. Redis.call_reserved accepts cs) one
      ∙ call_reserved_lem cs s1 e all on up
      ∙ ap (λ x. (ok tt, record s { calls = x })) (append_assoc s.calls (sent t a ∷ []) (sends cs))

  -- The commands that are given in the thread of the client's service, with any timeouts, to a client
  -- with a context before it is connected are kept, and none is sent; when the connection is up, and
  -- hiredis accepts every command, those that were kept before and these are sent in the order in
  -- which they were given, each once and under its own ticket. A command of another thread,
  -- which is deferred, is not among these.
  pub fire_connected_lem :
      (requests : List (List Bytes × ℕ)) (s : RedisRequest) (e : ℕ)
      → ((t : ℕ) (a : List Bytes) → accepts t a ≡ true)
      → is_connected s.state ≡ false
      → s.redis_context ≡ some e
      → let s1 = command_all requests s in
        let (r, s2) = Connection.connect_callback accepts true s1 in
        (s1.calls ≡ s.calls)
        × (r ≡ ok tt)
        × (s2.state ≡ connected)
        × (s2.calls ≡ s.calls ++ sends (s.reserved_commands ++ numbered s.s_ticket requests))
  unfolding Connection.connect_callback Connection.fire_connected
  fire_connected_lem requests s e all off up =
      let s1 = command_all requests s in
      let w = command_all-Waits requests s off in
      let go =
        call_reserved_lem s1.reserved_commands
          (record s1 { state = connected; timer_connection_timeout = false }) e all refl
          (w.context ∙ up) in
      (
        w.calls,
        ap (λ o. o.0) go,
        ap (λ o. o.1.state) go,
        ap (λ o. o.1.calls) go
            ∙ ap (λ x. x ++ sends s1.reserved_commands) w.calls
            ∙ ap (λ x. s.calls ++ sends x) w.reserved,
      )
