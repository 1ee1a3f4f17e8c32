-- ===== src/Deferred/Told.antt =====
-- Who is told of an event of Observers.antt.
use coconut.Base.{
  ℕ, ◌≡◌, refl, sym, ap, ◌∙◌, arith, Bool, true, false, not, ◌&&◌, ◌||◌, and_true, List, [], ◌∷◌,
  ◌++◌, ltb, if◌then◌else◌, append_assoc, append-nil, length, ok, M, ◌>>◌, bind-ok,
}
use coconut.Deferred.Observers
use coconut.Deferred.Observers.{ControllerEvent, tell, tell_all}

-- The observers in the firing thread, and the others.
abbrev pub filter : (ℕ → Bool) → List ℕ → List ℕ
filter p [] = []
filter p (x ∷ xs) = let rest = filter p xs in if p x then x ∷ rest else rest

-- A test that holds for every element.
abbrev pub all : (ℕ → Bool) → List ℕ → Bool
all p [] = true
all p (x ∷ xs) = p x && all p xs

-- A handler that returns, and tells nobody itself; it may register and unregister observers.
pub record Keeps (handler : ℕ → M ControllerEvent (Unit {0})) : Type 0 where
  pub returns : (x : ℕ) (s : ControllerEvent) → (handler x s).0 ≡ ok tt
  pub called : (x : ℕ) (s : ControllerEvent) → (handler x s).1.called ≡ s.called
  pub deferred : (x : ℕ) (s : ControllerEvent) → (handler x s).1.deferred ≡ s.deferred
  pub locked : (x : ℕ) (s : ControllerEvent) → (handler x s).1.locked ≡ s.locked

module _ (mounted initialized : ℕ → Bool) (handler : ℕ → M ControllerEvent (Unit {0}))
    (k : Keeps handler) where
  -- An observer that can be told.
  abbrev pub can_tell : ℕ → Bool
  can_tell x = mounted x || initialized x

  -- What telling these observers has done.
  record Told (xs : List ℕ) (s s' : ControllerEvent) : Type 0 where
    pub called : s'.called ≡ s.called ++ filter mounted xs
    pub deferred : s'.deferred ≡ s.deferred ++ filter (λ x. not (mounted x)) xs
    pub locked : s'.locked ≡ s.locked

  tell_lem :
      (x : ℕ) (s : ControllerEvent)
      → can_tell x ≡ true
      → ((tell mounted initialized handler x s).0 ≡ ok tt)
        × Told (x ∷ []) s (tell mounted initialized handler x s).1
  tell_lem x s can = go (mounted x) refl
    where
      direct : ControllerEvent
      direct = record s { called = s.called ++ x ∷ [] }

      go :
          (b : Bool)
          → mounted x ≡ b
          → ((tell mounted initialized handler x s).0 ≡ ok tt)
            × Told (x ∷ []) s (tell mounted initialized handler x s).1
      go true h = rw h (
        k.returns x direct,
        record {
          called = rw h (k.called x direct);
          deferred = rw h (k.deferred x direct ∙ sym (append-nil s.deferred));
          locked = k.locked x direct;
        },
      )
      go false h = rw h (
          rw (ap (λ b. b || initialized x) (sym h) ∙ can) (
            refl,
            record {
              called = rw h (sym (append-nil s.called));
              deferred = rw h refl;
              locked = refl;
            },
          ))

  filter-cons :
      (p : ℕ → Bool) (x : ℕ) (xs : List ℕ) → filter p (x ∷ xs) ≡ filter p (x ∷ []) ++ filter p xs
  filter-cons p x xs = go (p x)
    where
      go :
          (b : Bool)
          → (if b then x ∷ filter p xs else filter p xs) ≡ (if b then x ∷ [] else []) ++ filter p xs
      go true = refl
      go false = refl

  tell_all_lem :
      (xs : List ℕ) (s : ControllerEvent)
      → all can_tell xs ≡ true
      → ((tell_all mounted initialized handler xs s).0 ≡ ok tt)
        × Told xs s (tell_all mounted initialized handler xs s).1
  unfolding tell_all
  tell_all_lem [] s can = (
    refl,
    record {
      called = sym (append-nil s.called);
      deferred = sym (append-nil s.deferred);
      locked = refl;
    },
  )
  tell_all_lem (x ∷ xs) s can =
      let (here, others_can) = and_true (can_tell x) (all can_tell xs) can in
      let (r, t) = tell_lem x s here in
      let s1 = (tell mounted initialized handler x s).1 in
      let (r', t') = tell_all_lem xs s1 others_can in
      let e =
        bind-ok (tell mounted initialized handler x) (λ _. tell_all mounted initialized handler xs)
          (ap (λ o. (o, s1)) r) in
      let others = λ (y : ℕ). not (mounted y) in
      (
        ap (λ o. o.0) e ∙ r',
        record {
          called =
              ap (λ o. o.1.called) e
              ∙ t'.called
              ∙ ap (λ l. l ++ filter mounted xs) t.called
              ∙ append_assoc s.called (filter mounted (x ∷ [])) (filter mounted xs)
              ∙ ap (λ l. s.called ++ l) (sym (filter-cons mounted x xs));
          deferred =
              ap (λ o. o.1.deferred) e
              ∙ t'.deferred
              ∙ ap (λ l. l ++ filter others xs) t.deferred
              ∙ append_assoc s.deferred (filter others (x ∷ [])) (filter others xs)
              ∙ ap (λ l. s.deferred ++ l) (sym (filter-cons others x xs));
          locked = ap (λ o. o.1.locked) e ∙ t'.locked ∙ t.locked;
        },
      )

  -- `fireObservers` returns and leaves the lock free. Of the observers that were registered when it
  -- was called, those whose service runs in the firing thread are called, in the order of the set,
  -- and for each of the others a call is deferred, whatever an observer that is called registers
  -- or unregisters. The handlers return, and tell nobody themselves, and the observers for which a call
  -- is deferred have been initialized, since they have no deferred caller before.
  pub fire_observers_lem :
      (s : ControllerEvent)
      → all can_tell s.observers ≡ true
      → let (r, s') = Observers.fire_observers mounted initialized handler s in
        (r ≡ ok tt)
        × (s'.locked ≡ false)
        × (s'.called ≡ s.called ++ filter mounted s.observers)
        × (s'.deferred ≡ s.deferred ++ filter (λ x. not (mounted x)) s.observers)
  unfolding Observers.fire_observers
  fire_observers_lem s can = go s.observers can
    where
      go :
          (xs : List ℕ)
          → all can_tell xs ≡ true
          → let s0 : ControllerEvent = record s { locked = false } in
            let (r, s') =
              (if ltb 0 (length xs)
                  then (Observers.lock false >> tell_all mounted initialized handler xs)
                  else Observers.lock false)
                (record s { locked = true }) in
            (r ≡ ok tt)
            × (s'.locked ≡ false)
            × (s'.called ≡ s.called ++ filter mounted xs)
            × (s'.deferred ≡ s.deferred ++ filter (λ x. not (mounted x)) xs)
      go [] t = (refl, refl, sym (append-nil s.called), sym (append-nil s.deferred))
      go (x ∷ xs) can_all =
          let test : ltb 0 (length (x ∷ xs)) ≡ true = ground arith in
          let (r, t) = tell_all_lem (x ∷ xs) (record s { locked = false }) can_all in
          rw test (r, t.locked, t.called, t.deferred)
