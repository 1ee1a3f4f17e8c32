-- ===== src/Deferred/Tests.antt =====
-- The deferred calls and the observers at concrete values.
use coconut.Base.{
  ℕ, ◌+◌, ◌≡◌, refl, arith, Bool, true, false, not, List, [], ◌∷◌, ok, M, modify, ◌==◌, ◌≤◌, ◌<◌,
  ◌⊎◌, fault,
}
use coconut.Deferred
use coconut.Deferred.{DeferredCaller, left}
use coconut.Deferred.Observers
use coconut.Deferred.Observers.{ControllerEvent, erase}
use coconut.Deferred.Pass.{sum}
use coconut.Deferred.Order.{Counts, Completed, fire_deferred_event_lem}
use coconut.Deferred.Tickets.{
  TicketObservers, register_ticket, unregister_ticket, clear_ticket, at_ticket, tickets_lem,
}
use coconut.Deferred.Told.{Keeps, fire_observers_lem}

-- One method defers the other twice while it runs.
abbrev defers : Bool → List Bool
defers true = false ∷ false ∷ []
defers false = []

abbrev calls : Bool → ℕ
calls true = 3
calls false = 1

calls-Counts : Counts defers calls
calls-Counts = record { counts = number }
  where
    number : (f : Bool) → calls f ≡ 1 + sum calls (defers f)
    number true = refl
    number false = refl

-- A vector with room for two more elements.
abbrev queued : DeferredCaller Bool
queued = record Deferred.make { deferred_methods = true ∷ false ∷ []; capacity = 4 }

twice : ℕ → ℕ
twice n = n + n

fire_deferred_event_lem_example :
    ((4 ≤ 4) × Completed twice defers calls calls-Counts 9 queued)
    ⊎ ((4 < 4) × ((Deferred.fire_deferred_event twice defers 9 queued).0 ≡ fault))
fire_deferred_event_lem_example =
    fire_deferred_event_lem twice defers calls calls-Counts 9 queued (omega arith) (omega arith)

-- Without room for the second of them, the vector moves the method that is running.
abbrev tight : DeferredCaller Bool
tight = record queued { capacity = 3 }

tight_faults : (Deferred.fire_deferred_event twice defers 9 tight).0 ≡ fault
unfolding Deferred.fire_deferred_event Deferred.fire_loop Deferred.call_method
    Deferred.deferred_call
tight_faults = refl

-- An observer that takes itself out of the set when it is called.
abbrev leaves : ℕ → M ControllerEvent (Unit {0})
leaves x = modify (λ s. record s { observers = erase x s.observers })

leaves-Keeps : Keeps leaves
leaves-Keeps = record {
  returns = λ x s. refl;
  called = λ x s. refl;
  deferred = λ x s. refl;
  locked = λ x s. refl;
}

abbrev watched : ControllerEvent
watched = record Observers.make { observers = 1 ∷ 2 ∷ 3 ∷ [] }

fire_observers_lem_example :
    let (r, s) = Observers.fire_observers (λ x. not (x == 2)) (λ x. x == 2) leaves watched in
    (r ≡ ok tt) × (s.locked ≡ false) × (s.called ≡ 1 ∷ 3 ∷ []) × (s.deferred ≡ 2 ∷ [])
fire_observers_lem_example =
    fire_observers_lem (λ x. not (x == 2)) (λ x. x == 2) leaves leaves-Keeps watched refl

abbrev tickets : TicketObservers
tickets = (1, 4 ∷ []) ∷ (2, 5 ∷ 6 ∷ []) ∷ []

tickets_lem_example :
    (at_ticket 2 (register_ticket 2 3 tickets) ≡ 3 ∷ 5 ∷ 6 ∷ [])
    × (at_ticket 2 (unregister_ticket 2 3 tickets) ≡ 5 ∷ 6 ∷ [])
    × (at_ticket 2 (clear_ticket 2 tickets) ≡ [])
tickets_lem_example = tickets_lem 2 2 3 tickets
