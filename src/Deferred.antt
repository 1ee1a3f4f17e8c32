-- ===== src/Deferred.antt =====
-- The queue of deferred calls: `DeferredCallerImpl` (src/DeferredCallerImpl.h) and the same methods of
-- `IOServiceImpl` (src/IOServiceImpl.h). `Observers` has the events of a controller
-- (src/BaseControllerEvent.h and .cpp), which are told directly or by a deferred call.
-- A deferred method is a user's code, and `defers` says which methods it defers while it runs. The
-- lock is recursive, so that it may do so. The vector calls the method in place: when a call that is
-- deferred meanwhile makes it move its elements, the one that runs is destroyed, which is a `fault`.
mod Pass
pub mod Order
pub mod Observers
pub mod Told
pub mod Tickets
mod Tests
use coconut.Base.{
  ℕ, zero, suc, ◌+◌, Bool, true, false, List, [], ◌∷◌, ◌++◌, none, some, length, get_elem?, ltb,
  if◌then◌else◌, fault, M, ◌>>=◌, ◌>>◌, pure, gets, modify,
}

-- The queue with the vector's capacity, whether one of its elements is being called, the methods
-- that have been called, and how often the event has been triggered.
pub record DeferredCaller (F : Type 0) : Type 0 where
  pub deferred_methods : List F
  pub capacity : ℕ
  pub calling : Bool
  pub called : List F
  pub triggered : ℕ

abbrev pub make : {F : Type 0} → DeferredCaller F
make = record { deferred_methods = []; capacity = 0; calling = false; called = []; triggered = 0 }

-- Whether the loop has ended by its condition.
pub data Exit : Type 0 where
  left out_of_fuel : Exit

-- The library's choice of the capacity behind a number of elements that no longer fits.
module _ {F : Type 0} (grown : ℕ → ℕ) (defers : F → List F) where
  -- `push_back`, which moves the elements when there is no more capacity.
  abbrev pub push_back : F → M (DeferredCaller F) (Unit {0})
  push_back f s =
      if ltb (length s.deferred_methods) s.capacity
      then modify (λ q. record q { deferred_methods = q.deferred_methods ++ f ∷ [] }) s
      else (if s.calling
          then (fault, s)
          else modify
              (λ q. record q {
                deferred_methods = q.deferred_methods ++ f ∷ [];
                capacity = grown (length q.deferred_methods);
              })
              s)

  unfoldable pub deferred_call : F → M (DeferredCaller F) (Unit {0})
  deferred_call f = do push_back f; modify (λ s. record s { triggered = s.triggered + 1 })

  abbrev pub defer_all : List F → M (DeferredCaller F) (Unit {0})
  defer_all [] = pure tt
  defer_all (f ∷ fs) = deferred_call f >> defer_all fs

  -- A deferred method is called in place, and defers further ones.
  unfoldable pub call_method : F → M (DeferredCaller F) (Unit {0})
  call_method f = do
    modify (λ s. record s { called = s.called ++ f ∷ []; calling = true })
    defer_all (defers f)
    modify (λ s. record s { calling = false })

  unfoldable pub fire_loop : ℕ → ℕ → M (DeferredCaller F) Exit
  fire_loop zero i = pure out_of_fuel
  fire_loop (suc fuel) i = do
    fs ← gets (λ s. s.deferred_methods)
    elim (get_elem? fs i) [ none ↦ pure left | some f ↦ do call_method f; fire_loop fuel (i + 1) ]

  -- `fireDeferredEvent`; `clear` leaves the capacity as it is.
  unfoldable pub fire_deferred_event : ℕ → M (DeferredCaller F) Exit
  fire_deferred_event fuel = do
    exit ← fire_loop fuel 0
    modify (λ s. record s { deferred_methods = [] })
    pure exit
