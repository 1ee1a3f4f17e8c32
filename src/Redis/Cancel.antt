-- ===== src/Redis/Cancel.antt =====
-- What `cancel_all` of Redis/Connection.antt does to a ticket.
use native.Mathlib.Decide.{ℕ_discrete}
use mathlib.Core.Option.{none-ne-some}
use coconut.Base.{
  ℕ, ◌+◌, ◌-◌, ◌≤◌, ◌≡◌, ◌≢◌, refl, sym, ap, ◌∙◌, arith, Bool, true, false, ◌||◌, ◌&&◌, List, [],
  ◌∷◌, none, some, leb, ◌==◌, if◌then◌else◌, int_lt, ◌>>◌,
}
use coconut.Redis
use coconut.Redis.Connection
use coconut.Redis.{RedisRequest, RequestContext, Call, failed, find, erase}
use coconut.Redis.Connection.{tick, cancel_list, redis_err_other}
use coconut.Redis.Once.{waiting, called, called-append, waiting-erase}

abbrev pub mem : ℕ → List ℕ → Bool
mem t [] = false
mem t (u ∷ us) = (t == u) || mem t us

find-erase_ne : (t u : ℕ) (cs : List RequestContext) → t ≢ u → find t (erase u cs) ≡ find t cs
find-erase_ne t u [] n = refl
find-erase_ne t u (c ∷ cs) n = ground (arith, find-erase_ne t u cs n)

find-erase-none :
    (t u : ℕ) (cs : List RequestContext) → find t cs ≡ none → find t (erase u cs) ≡ none
find-erase-none t u [] h = refl
find-erase-none t u (c ∷ cs) h = ground (arith, find-erase-none t u cs)

find-waiting : (t : ℕ) (cs : List RequestContext) → waiting t cs ≡ 0 → find t cs ≡ none
find-waiting t [] h = refl
find-waiting t (c ∷ cs) h = ground (arith, find-waiting t cs)

find-erase_same : (t : ℕ) (cs : List RequestContext) → waiting t cs ≤ 1 → find t (erase t cs) ≡ none
find-erase_same t [] h = refl
find-erase_same t (c ∷ cs) h = ground (arith, find-erase_same t cs, find-waiting t cs)

-- A context behind a second.
abbrev pub ticked : RequestContext → RequestContext
ticked c = if int_lt 0 c.ttl then record c { ttl = c.ttl - 1 } else c

pub find-tick :
    (t : ℕ) (c : RequestContext) (cs : List RequestContext)
    → find t cs ≡ some c
    → find t (tick cs) ≡ some (ticked c)
find-tick t c [] h = absurd (none-ne-some c h)
find-tick t c (d ∷ cs) h = ground (arith, find-tick t c cs)

mem-cancel_list_none :
    (t : ℕ) (cs : List RequestContext) → waiting t cs ≡ 0 → mem t (cancel_list cs) ≡ false
mem-cancel_list_none t [] h = refl
mem-cancel_list_none t (c ∷ cs) h = ground (arith, mem-cancel_list_none t cs)

pub mem-cancel_list :
    (t : ℕ) (c : RequestContext) (cs : List RequestContext)
    → find t cs ≡ some c
    → waiting t cs ≤ 1
    → mem t (cancel_list cs) ≡ (int_lt 0 c.ttl && leb c.ttl 1)
mem-cancel_list t c [] h one = absurd (none-ne-some c h)
mem-cancel_list t c (d ∷ cs) h one =
    ground (arith, mem-cancel_list t c cs, mem-cancel_list_none t cs)

-- The state behind the cancellation of one ticket.
canceled : ℕ → RedisRequest → RedisRequest
canceled u s = ((Redis.fire_error redis_err_other u >> Redis.cancel u) s).1

module _ (u : ℕ) (s : RedisRequest) where
  canceled_other :
      (t : ℕ)
      → t ≢ u
      → (find t (canceled u s).map_callback ≡ find t s.map_callback)
        × (called t (canceled u s).calls ≡ called t s.calls)
  unfolding canceled Redis.fire_error Redis.handle Redis.cancel Redis.remove_context
  canceled_other t n = (
    ground
        (arith, find-erase_ne t u s.map_callback n, find-erase_ne t u (erase u s.map_callback) n),
    ground (arith, called-append t s.calls (failed u redis_err_other)),
  )

  canceled-none :
      find u s.map_callback ≡ none
      → (find u (canceled u s).map_callback ≡ none)
        × (called u (canceled u s).calls ≡ called u s.calls)
  unfolding canceled Redis.fire_error Redis.handle Redis.cancel Redis.remove_context
  canceled-none h = (ground (arith, find-erase-none u u s.map_callback h), ground arith)

  canceled-some :
      (c : RequestContext)
      → u ≢ 0
      → find u s.map_callback ≡ some c
      → waiting u s.map_callback ≤ 1
      → (find u (canceled u s).map_callback ≡ none)
        × (called u (canceled u s).calls ≡ called u s.calls + 1)
  unfolding canceled Redis.fire_error Redis.handle Redis.cancel Redis.remove_context
  canceled-some c n h one =
      let e = find-erase_same u s.map_callback one in
      (
        ground (arith, e, find-erase-none u u (erase u s.map_callback) e),
        ground (arith, called-append u s.calls (failed u redis_err_other)),
      )

cancel_all-run :
    (u : ℕ) (us : List ℕ) (s : RedisRequest)
    → Connection.cancel_all (u ∷ us) s ≡ Connection.cancel_all us (canceled u s)
unfolding Connection.cancel_all canceled Redis.fire_error Redis.handle Redis.cancel
    Redis.remove_context
cancel_all-run u us s = ground arith

-- What a tick does to a ticket that no longer waits, one that is not due, and one that is.
unfoldable pub Quiet : List ℕ → ℕ → RedisRequest → Type 0
Quiet us t s =
    let s' = (Connection.cancel_all us s).1 in
    (find t s'.map_callback ≡ find t s.map_callback) × (called t s'.calls ≡ called t s.calls)

canceled_absent :
    (u t : ℕ) (s : RedisRequest)
    → find t s.map_callback ≡ none
    → (find t (canceled u s).map_callback ≡ find t s.map_callback)
      × (called t (canceled u s).calls ≡ called t s.calls)
canceled_absent u t s h = elim (ℕ_discrete t u) [
  | yes q ↦
      let (f, k) = canceled-none t s h in
      let e = ap (λ w. canceled w s) (sym q) in
      (ap (λ w. find t w.map_callback) e ∙ f ∙ sym h, ap (λ w. called t w.calls) e ∙ k)
  | no n ↦ canceled_other u s t n
]

cancel_all_none :
    (us : List ℕ) (t : ℕ) (s : RedisRequest) → find t s.map_callback ≡ none → Quiet us t s
unfolding Quiet Connection.cancel_all
cancel_all_none [] t s h = (refl, refl)
cancel_all_none (u ∷ us) t s h =
    let (f, k) = canceled_absent u t s h in
    let (g, l) = cancel_all_none us t (canceled u s) (f ∙ h) in
    let e = cancel_all-run u us s in
    (ap (λ o. find t o.1.map_callback) e ∙ g ∙ f, ap (λ o. called t o.1.calls) e ∙ l ∙ k)

pub cancel_all_away : (us : List ℕ) (t : ℕ) (s : RedisRequest) → mem t us ≡ false → Quiet us t s
unfolding Quiet Connection.cancel_all
cancel_all_away [] t s h = (refl, refl)
cancel_all_away (u ∷ us) t s h =
    let n : t ≢ u = ground arith in
    let (f, k) = canceled_other u s t n in
    let (g, l) = cancel_all_away us t (canceled u s) (ground arith) in
    let e = cancel_all-run u us s in
    (ap (λ o. find t o.1.map_callback) e ∙ g ∙ f, ap (λ o. called t o.1.calls) e ∙ l ∙ k)

unfoldable pub Expired : List ℕ → ℕ → RedisRequest → Type 0
Expired us t s =
    let s' = (Connection.cancel_all us s).1 in
    (find t s'.map_callback ≡ none) × (called t s'.calls ≡ called t s.calls + 1)

waiting-canceled :
    (u t : ℕ) (s : RedisRequest) → waiting t (canceled u s).map_callback ≤ waiting t s.map_callback
unfolding canceled Redis.fire_error Redis.handle Redis.cancel Redis.remove_context
waiting-canceled u t s =
    ground (arith, waiting-erase t u s.map_callback, waiting-erase t u (erase u s.map_callback))

pub cancel_all_due :
    (us : List ℕ) (t : ℕ) (c : RequestContext) (s : RedisRequest)
    → mem t us ≡ true
    → t ≢ 0
    → find t s.map_callback ≡ some c
    → waiting t s.map_callback ≤ 1
    → Expired us t s
unfolding Expired Quiet
cancel_all_due [] t c s m z h one = absurd (ground arith)
cancel_all_due (u ∷ us) t c s m z h one = elim (ℕ_discrete u t) [
  | yes q ↦
      let (f, k) = canceled-some t s c z h one in
      let (g, l) = cancel_all_none us t (canceled t s) f in
      let e = ap (λ w. Connection.cancel_all (w ∷ us) s) q ∙ cancel_all-run t us s in
      (ap (λ o. find t o.1.map_callback) e ∙ g ∙ f, ap (λ o. called t o.1.calls) e ∙ l ∙ k)
  | no n ↦
      let (f, k) = canceled_other u s t (λ q. n (sym q)) in
      let w = waiting-canceled u t s in
      let (g, l) = cancel_all_due us t c (canceled u s) (ground arith) z (f ∙ h) (omega arith) in
      let e = cancel_all-run u us s in
      (
        ap (λ o. find t o.1.map_callback) e ∙ g,
        ap (λ o. called t o.1.calls) e ∙ l ∙ ap (λ (i : ℕ). i + 1) k,
      )
]
