-- ===== src/Client/Rearm.antt =====
-- The reconnect timer of a `ClientController`, read off the log of its calls, and what each call does
-- to it.
use mathlib.Core.Bool.{false≢true}
use mathlib.Core.Path.{subst}
use coconut.Base.{
  ℕ, ◌+◌, ◌/◌, ◌%◌, ◌≡◌, refl, sym, ◌∙◌, Bool, true, false, List, [], ◌∷◌, ◌++◌, ◌==◌,
  if◌then◌else◌, ok, Bool-cases, inl, inr,
}
use coconut.Client
use coconut.Client.{ClientController, Event, set_reconnect_timer, kill_reconnect_timer}

-- The entry points that the socket, the timer and the user call.
pub data Call : Type 0 where
  initialized connected closed : Call
  error : ℕ → Call
  set_reconnectable : Bool → Call
  timer : ℕ → Bool → Call

module _ {P : Type 0} where
  -- Whether the timer is armed behind one more call. It repeats until it is killed.
  abbrev pub after_event : Bool → Event P → Bool
  after_event b set_reconnect_timer = true
  after_event b kill_reconnect_timer = false
  after_event b _ = b

  abbrev pub armed_from : Bool → List (Event P) → Bool
  armed_from b [] = b
  armed_from b (e ∷ es) = armed_from (after_event b e) es

  -- Whether a reconnect is pending.
  abbrev pub armed : ClientController P → Bool
  armed c = armed_from false c.events

  abbrev pub perform : Call → ClientController P → ClientController P
  perform initialized c = (Client.on_socket_initialized c).1
  perform connected c = (Client.on_socket_connected c).1
  perform closed c = (Client.on_socket_close c).1
  perform (error n) c = (Client.on_socket_error n c).1
  perform (set_reconnectable b) c = (Client.set_reconnectable b c).1
  perform (timer id connects) c = (Client.on_timer id connects c).1

  -- The controllers that a history of calls leads to.
  pub data Reachable : ClientController P → Type 0 where
    start : (factory : Bool) → Reachable (Client.make factory)
    step : (c : ClientController P) (call : Call) → Reachable c → Reachable (perform call c)

  pub record Inv (c : ClientController P) : Type 0 where
    pub enabled : armed c ≡ true → c.reconnectable ≡ true
    pub made : armed c ≡ true → c.timer_obj ≡ true

  pub armed_append :
      (b : Bool) (xs : List (Event P)) (e : Event P)
      → armed_from b (xs ++ e ∷ []) ≡ after_event (armed_from b xs) e
  armed_append b [] e = refl
  armed_append b (x ∷ xs) e = armed_append (after_event b x) xs e

  -- One more call that is not about the timer, and the two that are.
  pub quiet-Inv :
      (c : ClientController P) (e : Event P)
      → ((b : Bool) → after_event b e ≡ b)
      → Inv c
      → Inv (record c { events = c.events ++ e ∷ [] })
  quiet-Inv c e q v =
      let same = sym (q (armed c)) ∙ sym (armed_append false c.events e) in
      record { enabled = λ h. v.enabled (same ∙ h); made = λ h. v.made (same ∙ h) }

  set-Inv :
      (c : ClientController P)
      → c.reconnectable ≡ true
      → Inv (record c { timer_obj = true; events = c.events ++ set_reconnect_timer ∷ [] })
  set-Inv c on = record { enabled = λ h. on; made = λ h. refl }

  kill-Inv :
      (c : ClientController P) → Inv (record c { events = c.events ++ kill_reconnect_timer ∷ [] })
  kill-Inv c =
      let off = sym (armed_append false c.events kill_reconnect_timer) in
      record {
        enabled = λ h. absurd (false≢true (off ∙ h));
        made = λ h. absurd (false≢true (off ∙ h));
      }

  -- What `processReconnect` leaves.
  abbrev pub reconnected : ClientController P → ClientController P
  reconnected c =
      if c.reconnectable
      then record c { timer_obj = true; events = c.events ++ set_reconnect_timer ∷ [] }
      else c

  abbrev pub around : Event P → Event P → ClientController P → ClientController P
  around first last c =
      let c' = reconnected (record c { events = c.events ++ first ∷ [] }) in
      record c' { events = c'.events ++ last ∷ [] }

  process_reconnect_lem :
      (c : ClientController P) → Client.process_reconnect c ≡ (ok tt, reconnected c)
  unfolding Client.process_reconnect
  process_reconnect_lem c = elim (Bool-cases c.reconnectable) [
    | inl h ↦ rw h refl
    | inr h ↦ rw h refl
  ]

  reconnected-Inv : (c : ClientController P) → Inv c → Inv (reconnected c)
  reconnected-Inv c v = elim (Bool-cases c.reconnectable) [
    | inl h ↦
        subst
          (λ (b : Bool). Inv (
            if b
            then record c { timer_obj = true; events = c.events ++ set_reconnect_timer ∷ [] }
            else c))
          (sym h) (set-Inv c h)
    | inr h ↦
        subst
          (λ (b : Bool). Inv (
            if b
            then record c { timer_obj = true; events = c.events ++ set_reconnect_timer ∷ [] }
            else c))
          (sym h) v
  ]

  pub set_reconnectable-Inv :
      (c : ClientController P) (b : Bool) → Inv c → Inv (Client.set_reconnectable b c).1
  unfolding Client.set_reconnectable
  set_reconnectable-Inv c true v = record { enabled = λ h. refl; made = v.made }
  set_reconnectable-Inv c false v = elim (Bool-cases c.timer_obj) [
    | inl h ↦ rw h (kill-Inv (record c { reconnectable = false; timer_obj = true }))
    | inr h ↦
        let off : ¬ (armed c ≡ true) = λ k. false≢true (sym h ∙ v.made k) in
        rw h (record { enabled = λ k. absurd (off k); made = λ k. absurd (off k) })
  ]

  reconnect-Inv :
      (c : ClientController P) (connects : Bool) → Inv c → Inv (Client.reconnect connects c).1
  reconnect-Inv c true v = kill-Inv (record c {
    retry_connect_cnt = c.retry_connect_cnt + 1;
    events = c.events ++ Client.socket_connect ∷ [];
  })
  reconnect-Inv c false v =
      quiet-Inv (record c { retry_connect_cnt = c.retry_connect_cnt + 1 }) Client.socket_connect
        (λ b. refl) (record { enabled = v.enabled; made = v.made })

  pub on_timer-Inv :
      (c : ClientController P) (id : ℕ) (connects : Bool)
      → Inv c
      → Inv (Client.on_timer id connects c).1
  unfolding Client.on_timer
  on_timer-Inv c id connects v = elim (Bool-cases (id == Client.reconnect_id)) [
    | inl h ↦ rw h (reconnect-Inv c connects v)
    | inr h ↦ rw h (elim (Bool-cases ((id / Client.internal_timer_bit) % 2 == 0)) [
      | inl k ↦ rw k (quiet-Inv c (Client.timer id) (λ b. refl) v)
      | inr k ↦ rw k v
    ])
  ]

  pub initialized-Inv : (c : ClientController P) → Inv c → Inv (Client.on_socket_initialized c).1
  unfolding Client.on_socket_initialized
  initialized-Inv c v = elim (Bool-cases c.init_flag) [
    | inl h ↦ rw h (record { enabled = v.enabled; made = v.made })
    | inr h ↦ rw h (
        quiet-Inv (record c { init_flag = true }) Client.initialized (λ b. refl)
          (record { enabled = v.enabled; made = v.made }))
  ]

  -- Two calls around `processReconnect`.
  pub around-Inv :
      (c : ClientController P) (first last : Event P)
      → ((b : Bool) → after_event b first ≡ b)
      → ((b : Bool) → after_event b last ≡ b)
      → Inv c
      → Inv (around first last c)
  around-Inv c first last q q' v =
      quiet-Inv (reconnected (record c { events = c.events ++ first ∷ [] })) last q'
        (reconnected-Inv (record c { events = c.events ++ first ∷ [] }) (quiet-Inv c first q v))

  pub on_socket_close_lem :
      (c : ClientController P)
      → (Client.on_socket_close c).1 ≡ around Client.deferred_closed (Client.closed_connection 0) c
  unfolding Client.on_socket_close
  on_socket_close_lem c =
      rw (process_reconnect_lem (record c { events = c.events ++ Client.deferred_closed ∷ [] }))
        refl

  pub on_socket_error_lem :
      (n : ℕ) (c : ClientController P)
      → (Client.on_socket_error n c).1
        ≡ around (Client.deferred_error n) (Client.closed_connection n) c
  unfolding Client.on_socket_error
  on_socket_error_lem n c =
      rw (process_reconnect_lem (record c { events = c.events ++ Client.deferred_error n ∷ [] }))
        refl
