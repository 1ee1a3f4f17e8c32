-- ===== src/Client/Reconnect.antt =====
-- When a reconnect of a `ClientController` is pending, in every history of its calls.
use mathlib.Core.Bool.{false≢true}
use coconut.Base.{
  ℕ, ◌≡◌, refl, sym, ap, ◌∙◌, Bool, true, false, [], ◌∷◌, ◌++◌, Bool-cases, inl, inr,
}
use coconut.Client
use coconut.Client.{ClientController, Event, set_reconnect_timer, kill_reconnect_timer}
use coconut.Client.Rearm.{
  Call, initialized, connected, closed, error, set_reconnectable, timer, after_event, armed,
  perform, Reachable, start, step, Inv, quiet-Inv, reconnected, around, initialized-Inv, around-Inv,
  on_socket_close_lem, on_socket_error_lem, set_reconnectable-Inv, on_timer-Inv, armed_append,
}

module _ {P : Type 0} where
  perform-Inv : (c : ClientController P) (call : Call) → Inv c → Inv (perform call c)
  unfolding Client.on_socket_connected
  perform-Inv c initialized v = initialized-Inv c v
  perform-Inv c connected v = quiet-Inv c Client.connected (λ b. refl) v
  perform-Inv c closed v =
      rw (on_socket_close_lem c)
        (around-Inv c Client.deferred_closed (Client.closed_connection 0) (λ b. refl) (λ b. refl) v)
  perform-Inv c (error n) v = rw (on_socket_error_lem n c) (
      around-Inv c (Client.deferred_error n) (Client.closed_connection n) (λ b. refl) (λ b. refl) v)
  perform-Inv c (set_reconnectable b) v = set_reconnectable-Inv c b v
  perform-Inv c (timer id connects) v = on_timer-Inv c id connects v

  Reachable-Inv : (c : ClientController P) → Reachable c → Inv c
  Reachable-Inv _ (start factory) = record {
    enabled = λ h. absurd (false≢true h);
    made = λ h. absurd (false≢true h);
  }
  Reachable-Inv _ (step c call r) = perform-Inv c call (Reachable-Inv c r)

  armed-reconnected : (c : ClientController P) → Inv c → armed (reconnected c) ≡ c.reconnectable
  armed-reconnected c v = elim (Bool-cases c.reconnectable) [
    | inl h ↦ rw h (armed_append false c.events set_reconnect_timer)
    | inr h ↦ elim (Bool-cases (armed c)) [
      | inl k ↦ absurd (false≢true (sym h ∙ v.enabled k))
      | inr k ↦ rw h k
    ]
  ]

  armed-around :
      (c : ClientController P) (first last : Event P)
      → ((b : Bool) → after_event b first ≡ b)
      → ((b : Bool) → after_event b last ≡ b)
      → Inv c
      → armed (around first last c) ≡ c.reconnectable
  armed-around c first last q q' v =
      let c1 = record c { events = c.events ++ first ∷ [] } in
      armed_append false (reconnected c1).events last
      ∙ q' (armed (reconnected c1))
      ∙ armed-reconnected c1 (quiet-Inv c first q v)

  -- In every history of calls a reconnect is only pending while reconnecting is enabled: switching it
  -- off kills the timer, and nothing but a lost connection arms it.
  pub armed-Reachable :
      (c : ClientController P) → Reachable c → armed c ≡ true → c.reconnectable ≡ true
  armed-Reachable c r h = (Reachable-Inv c r).enabled h

  -- After any history of calls, a connection that is closed or fails leaves a reconnect pending
  -- exactly when reconnecting is enabled.
  pub armed_lost :
      (c : ClientController P) (n : ℕ)
      → Reachable c
      → (armed (perform closed c) ≡ c.reconnectable)
        × (armed (perform (error n) c) ≡ c.reconnectable)
  armed_lost c n r =
      let v = Reachable-Inv c r in
      (
        ap armed (on_socket_close_lem c)
            ∙ armed-around c Client.deferred_closed (Client.closed_connection 0) (λ b. refl)
                (λ b. refl) v,
        ap armed (on_socket_error_lem n c)
            ∙ armed-around c (Client.deferred_error n) (Client.closed_connection n) (λ b. refl)
                (λ b. refl) v,
      )
