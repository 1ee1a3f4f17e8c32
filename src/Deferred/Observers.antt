-- ===== src/Deferred/Observers.antt =====
-- The observers of a controller's event (src/BaseControllerEvent.h and .cpp): the set, and
-- `fireObservers`, which is the same code for got protocols, errors, closed connections and, by
-- ticket, responses.
use coconut.Base.{
  ℕ, Bool, true, false, List, [], ◌∷◌, ◌++◌, ◌==◌, ltb, if◌then◌else◌, length, fault, M, ◌>>=◌,
  ◌>>◌, pure, gets, modify,
}

-- The observers, in the order of their addresses, the lock, the observers that have been called
-- directly, and those for which a call has been deferred.
pub record ControllerEvent : Type 0 where
  pub observers : List ℕ
  pub locked : Bool
  pub called : List ℕ
  pub deferred : List ℕ

abbrev pub make : ControllerEvent
make = record { observers = []; locked = false; called = []; deferred = [] }

-- `insert` and `erase` of the set.
abbrev pub insert : ℕ → List ℕ → List ℕ
insert x [] = x ∷ []
insert x (y ∷ ys) =
    let rest = insert x ys in if ltb x y then x ∷ y ∷ ys else (if x == y then y ∷ ys else y ∷ rest)

abbrev pub erase : ℕ → List ℕ → List ℕ
erase x [] = []
erase x (y ∷ ys) = let rest = erase x ys in if x == y then ys else y ∷ rest

abbrev pub lock : Bool → M ControllerEvent (Unit {0})
lock b = modify (λ s. record s { locked = b })

unfoldable pub register_observer : ℕ → M ControllerEvent (Unit {0})
register_observer x = do
  lock true
  modify (λ s. record s { observers = insert x s.observers })
  lock false

unfoldable pub unregister_observer : ℕ → M ControllerEvent (Unit {0})
unregister_observer x = do
  lock true
  modify (λ s. record s { observers = erase x s.observers })
  lock false

-- Whether the firing thread is that of an observer's service, whether an observer has been initialized
-- and so has a deferred caller, which is NULL until then, and what an observer that is called directly
-- does with the event in turn.
module _ (mounted initialized : ℕ → Bool) (handler : ℕ → M ControllerEvent (Unit {0})) where
  abbrev pub tell : ℕ → M ControllerEvent (Unit {0})
  tell x s =
      if mounted x
      then (modify (λ q. record q { called = q.called ++ x ∷ [] }) >> handler x) s
      else (if initialized x
          then modify (λ q. record q { deferred = q.deferred ++ x ∷ [] }) s
          else (fault, s))

  unfoldable pub tell_all : List ℕ → M ControllerEvent (Unit {0})
  tell_all [] = pure tt
  tell_all (x ∷ xs) = tell x >> tell_all xs

  -- `fireObservers` tells a copy of the set, without the lock.
  unfoldable pub fire_observers : M ControllerEvent (Unit {0})
  fire_observers = do
    lock true
    observers ← gets (λ s. s.observers)
    if ltb 0 (length observers) then (do lock false; tell_all observers) else lock false
