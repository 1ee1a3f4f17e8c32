-- ===== src/Deferred/Order.antt =====
-- A pass over the queue of Deferred.antt calls the methods as a queue gives them out, as long as the
-- vector need not move its elements meanwhile.
use coconut.Base.{
  ℕ, zero, suc, ◌+◌, ◌≤◌, ◌<◌, ◌≡◌, refl, sym, ap, ◌∙◌, arith, List, [], ◌∷◌, ◌++◌, append_assoc,
  append-nil, length, length-append, get_elem?, none, ok, fault, ◌>>◌, pure, bind-ok, bind-fault,
  modify, M, ◌⊎◌, inl, inr, lt-cases,
}
use coconut.Deferred
use coconut.Deferred.{DeferredCaller, Exit, left}
use coconut.Deferred.Pass.{
  sum, sum-append, get_elem?-end, after, fire_loop_lem, next-fits, next-full,
}

module _ {F : Type 0} (defers : F → List F) where
  -- A queue: the first one is taken out and called, and what it defers goes to the end.
  abbrev pub in_order : ℕ → List F → List F
  in_order zero queue = []
  in_order (suc n) [] = []
  in_order (suc n) (f ∷ queue) = f ∷ in_order n (queue ++ defers f)

  -- The number of calls that a method brings about, itself included.
  pub record Counts (calls : F → ℕ) : Type 0 where
    pub counts : (f : F) → calls f ≡ 1 + sum calls (defers f)

  length-le-sum : (calls : F → ℕ) → Counts calls → (fs : List F) → length fs ≤ sum calls fs
  length-le-sum calls c [] = omega arith
  length-le-sum calls c (f ∷ fs) = omega (arith, length-le-sum calls c fs, c.counts f)

  -- With a queue of enough steps, every method that is queued or deferred comes out of it.
  length-in_order :
      (calls : F → ℕ) (fuel : ℕ) (queue : List F)
      → Counts calls
      → sum calls queue < fuel
      → length (in_order fuel queue) ≡ sum calls queue
  length-in_order calls zero queue c enough = absurd (omega arith)
  length-in_order calls (suc fuel) [] c enough = refl
  length-in_order calls (suc fuel) (f ∷ queue) c enough =
      let n = sum-append calls queue (defers f) in
      let m = c.counts f in
      let rest = length-in_order calls fuel (queue ++ defers f) c (omega arith) in omega arith

module _ {F : Type 0} (grown : ℕ → ℕ) (defers : F → List F) (calls : F → ℕ)
    (c : Counts defers calls) where
  queue_lem :
      (done rest : List F) (f : F) (s : DeferredCaller F)
      → s.deferred_methods ≡ done ++ f ∷ rest
      → (after grown defers f s).deferred_methods ≡ (done ++ f ∷ []) ++ (rest ++ defers f)
  queue_lem done rest f s h =
      ap (λ l. l ++ defers f) h
      ∙ append_assoc done (f ∷ rest) (defers f)
      ∙ sym (append_assoc done (f ∷ []) (rest ++ defers f))

  -- The loop at an index, whose methods are called and those behind it not yet, where the vector has
  -- room for all that will be deferred.
  loop-fits :
      (fuel : ℕ) (done rest : List F) (s : DeferredCaller F)
      → s.deferred_methods ≡ done ++ rest
      → sum calls rest < fuel
      → length done + sum calls rest ≤ s.capacity
      → let (exit, s') = Deferred.fire_loop grown defers fuel (length done) s in
        (exit ≡ ok left) × (s'.called ≡ s.called ++ in_order defers fuel rest)
  loop-fits zero done rest s h enough room = absurd (omega arith)
  loop-fits (suc fuel) done [] s h enough room =
      let e =
        fire_loop_lem grown defers fuel (length done) none s
          (ap (λ l. get_elem? l (length done)) (h ∙ append-nil done) ∙ get_elem?-end done) in
      (ap (λ o. o.0) e, ap (λ o. o.1.called) e ∙ sym (append-nil s.called))
  loop-fits (suc fuel) done (f ∷ rest) s h enough room =
      let l = ap length h ∙ length-append done (f ∷ rest) in
      let r = length-le-sum defers calls c rest in
      let d = length-le-sum defers calls c (defers f) in
      let n = c.counts f in
      let m = sum-append calls rest (defers f) in
      let k = length-append done (f ∷ []) in
      let e = next-fits grown defers fuel done rest f s h (omega arith) in
      let (exit, called) =
        loop-fits fuel (done ++ f ∷ []) (rest ++ defers f) (after grown defers f s)
          (queue_lem done rest f s h) (omega arith) (omega arith) in
      (
        ap (λ o. o.0) e ∙ exit,
        ap (λ o. o.1.called) e
            ∙ called
            ∙ append_assoc s.called (f ∷ []) (in_order defers fuel (rest ++ defers f)),
      )

  -- The same where it has not.
  loop-full :
      (fuel : ℕ) (done rest : List F) (s : DeferredCaller F)
      → s.deferred_methods ≡ done ++ rest
      → sum calls rest < fuel
      → length s.deferred_methods ≤ s.capacity
      → s.capacity < length done + sum calls rest
      → (Deferred.fire_loop grown defers fuel (length done) s).0 ≡ fault
  loop-full zero done rest s h enough valid full = absurd (omega arith)
  loop-full (suc fuel) done [] s h enough valid full =
      absurd (let l = ap length h ∙ length-append done [] in omega arith)
  loop-full (suc fuel) done (f ∷ rest) s h enough valid full =
      elim (lt-cases s.capacity (length s.deferred_methods + length (defers f))) [
        | inl more ↦ next-full grown defers fuel done rest f s h valid more
        | inr room ↦
            let n = c.counts f in
            let m = sum-append calls rest (defers f) in
            let k = length-append done (f ∷ []) in
            let a = length-append s.deferred_methods (defers f) in
            ap (λ o. o.0) (next-fits grown defers fuel done rest f s h room)
            ∙ loop-full fuel (done ++ f ∷ []) (rest ++ defers f) (after grown defers f s)
                (queue_lem done rest f s h) (omega arith) (omega arith) (omega arith)
      ]

  -- What a pass has done when the vector had room for every method.
  abbrev pub Completed : ℕ → DeferredCaller F → Type 0
  Completed fuel s =
      let (exit, s') = Deferred.fire_deferred_event grown defers fuel s in
      (exit ≡ ok left)
      × (s'.called ≡ s.called ++ in_order defers fuel s.deferred_methods)
      × (length (in_order defers fuel s.deferred_methods) ≡ sum calls s.deferred_methods)
      × (s'.deferred_methods ≡ [])

  abbrev last : Exit → M (DeferredCaller F) Exit
  last x = modify (λ (q : DeferredCaller F). record q { deferred_methods = [] }) >> pure x

  -- A pass over the queue, where each method brings about a finite number of calls and the vector's
  -- capacity is at least its size, with any fuel that exceeds the number of the calls by one or more.
  -- If the capacity is at least that number, the loop ends, the methods have been called as a queue
  -- gives them out, with those that they have deferred meanwhile behind the others, each queued or
  -- deferred method once, and the queue is empty. If it is less, a running method's deferred call makes
  -- the vector move its elements, the running one included, which is undefined behaviour (`fault`).
  pub fire_deferred_event_lem :
      (fuel : ℕ) (s : DeferredCaller F)
      → sum calls s.deferred_methods < fuel
      → length s.deferred_methods ≤ s.capacity
      → ((sum calls s.deferred_methods ≤ s.capacity) × Completed fuel s)
        ⊎ ((s.capacity < sum calls s.deferred_methods)
            × ((Deferred.fire_deferred_event grown defers fuel s).0 ≡ fault))
  unfolding Deferred.fire_deferred_event
  fire_deferred_event_lem fuel s enough valid =
      elim (lt-cases s.capacity (sum calls s.deferred_methods)) [
        | inl full ↦
            let f = loop-full fuel [] s.deferred_methods s refl enough valid (omega arith) in
            let s1 = (Deferred.fire_loop grown defers fuel 0 s).1 in
            inr (
              full,
              ap (λ o. o.0)
                  (bind-fault (Deferred.fire_loop grown defers fuel 0) last (ap (λ o. (o, s1)) f)),
            )
        | inr room ↦
            let (exit, called) = loop-fits fuel [] s.deferred_methods s refl enough (omega arith) in
            let s1 = (Deferred.fire_loop grown defers fuel 0 s).1 in
            let e =
              bind-ok (Deferred.fire_loop grown defers fuel 0) last (ap (λ o. (o, s1)) exit) in
            inl (
              room,
              (
                ap (λ o. o.0) e,
                ap (λ o. o.1.called) e ∙ called,
                length-in_order defers calls fuel s.deferred_methods c enough,
                ap (λ o. o.1.deferred_methods) e,
              ),
            )
      ]
