-- ===== src/Redis/Ttl.antt =====
-- The timeouts of the commands of the client of Redis.antt.
use coconut.Base.{
  ℕ, zero, suc, ◌+◌, ◌-◌, ◌≤◌, ◌<◌, ◌≡◌, ◌≢◌, refl, ap, ◌∙◌, arith, true, false, none, some,
  int_sign,
}
use coconut.Redis.Connection
use coconut.Redis.{RedisRequest, RequestContext, find}
use coconut.Redis.Connection.{tick, cancel_list, redis_err_other}
use coconut.Redis.Once.{waiting, called, waiting-tick, on_command_ttl-Lessens}
use coconut.Redis.Cancel.{
  mem, ticked, find-tick, mem-cancel_list, Quiet, Expired, cancel_all_away, cancel_all_due,
}

-- The command timer, n times.
abbrev pub ticks : ℕ → RedisRequest → RedisRequest
ticks zero s = s
ticks (suc n) s = ticks n (Connection.on_command_ttl s).1

module _ (t : ℕ) (c : RequestContext) (s : RedisRequest) (z : t ≢ 0)
    (h : find t s.map_callback ≡ some c) (one : waiting t s.map_callback ≤ 1) where
  -- A second of a command that has more than one left, and of one that has one.
  tick_early :
      1 < c.ttl
      → c.ttl < int_sign
      → let s' = (Connection.on_command_ttl s).1 in
        (find t s'.map_callback ≡ some (record c { ttl = c.ttl - 1 }))
        × (called t s'.calls ≡ called t s.calls)
  unfolding Connection.on_command_ttl Quiet
  tick_early more small =
      let away : mem t (cancel_list s.map_callback) ≡ false =
        mem-cancel_list t c s.map_callback h one ∙ ground arith in
      let e : ticked c ≡ record c { ttl = c.ttl - 1 } = ground arith in
      let (f, k) = cancel_all_away (cancel_list s.map_callback) t _ away in
      (f ∙ find-tick t c s.map_callback h ∙ ap (λ x. some x) e, k)

  tick_due :
      c.ttl ≡ 1
      → let s' = (Connection.on_command_ttl s).1 in
        (find t s'.map_callback ≡ none) × (called t s'.calls ≡ called t s.calls + 1)
  unfolding Connection.on_command_ttl Expired
  tick_due last =
      let due : mem t (cancel_list s.map_callback) ≡ true =
        mem-cancel_list t c s.map_callback h one ∙ ground arith in
      cancel_all_due (cancel_list s.map_callback) t (ticked c) _ due z
        (find-tick t c s.map_callback h) (omega (arith, waiting-tick t s.map_callback, one))

-- When a ticket, other than 0, waits once and its context has n + 1 seconds left, fewer than 2 ^ 31,
-- then without a reply its handler is not called during the first n ticks of the command timer, and
-- the next tick calls it once and removes its context.
pub ticks-on_command_ttl :
    (n t : ℕ) (c : RequestContext) (s : RedisRequest)
    → t ≢ 0
    → find t s.map_callback ≡ some c
    → waiting t s.map_callback ≤ 1
    → c.ttl ≡ suc n
    → suc n < int_sign
    → let s1 = ticks n s in
      let s2 = (Connection.on_command_ttl s1).1 in
      (find t s1.map_callback ≡ some (record c { ttl = 1 }))
      × (called t s1.calls ≡ called t s.calls)
      × (find t s2.map_callback ≡ none)
      × (called t s2.calls ≡ called t s.calls + 1)
ticks-on_command_ttl zero t c s z h one left small =
    let (f, k) = tick_due t c s z h one left in
    (h ∙ ap (λ (i : ℕ). some (record c { ttl = i })) left, refl, f, k)
ticks-on_command_ttl (suc n) t c s z h one left small =
    let (f, k) = tick_early t c s z h one (omega arith) (omega arith) in
    let s' = (Connection.on_command_ttl s).1 in
    let less = (on_command_ttl-Lessens s).less t in
    let w : waiting t s'.map_callback ≤ 1 = omega (arith, less, k, one) in
    let (a, b, d, e) =
      ticks-on_command_ttl n t (record c { ttl = c.ttl - 1 }) s' z f w (omega arith)
        (omega arith) in
    (a, b ∙ k, d, e ∙ ap (λ (i : ℕ). i + 1) k)
