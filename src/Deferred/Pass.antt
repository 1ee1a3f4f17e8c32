-- ===== src/Deferred/Pass.antt =====
-- One turn of the loop of Deferred.antt, as long as the vector has room, and when it has none.
use coconut.Base.{
  ℕ, suc, ◌+◌, ◌≤◌, ◌<◌, ◌≡◌, refl, ap, ◌∙◌, arith, true, false, List, [], ◌∷◌, ◌++◌, append_assoc,
  append-nil, length, length-append, get_elem?, Option, none, some, ok, fault, M, ◌>>◌, pure,
  bind-ok, bind-fault, modify, ltb, lt-cases, inl, inr,
}
use coconut.Deferred
use coconut.Deferred.{DeferredCaller, Exit, left, defer_all, push_back}

abbrev pub sum : {F : Type 0} → (F → ℕ) → List F → ℕ
sum w [] = 0
sum w (f ∷ fs) = w f + sum w fs

pub sum-append : {F : Type 0} (w : F → ℕ) (xs ys : List F) → sum w (xs ++ ys) ≡ sum w xs + sum w ys
sum-append w [] ys = omega arith
sum-append w (x ∷ xs) ys = omega (arith, sum-append w xs ys)

pub get_elem?-length :
    {F : Type 0} (f : F) (done rest : List F) → get_elem? (done ++ f ∷ rest) (length done) ≡ some f
get_elem?-length f [] rest = refl
get_elem?-length f (d ∷ done) rest = get_elem?-length f done rest

pub get_elem?-end : {F : Type 0} (done : List F) → get_elem? done (length done) ≡ none
get_elem?-end [] = refl
get_elem?-end (d ∷ done) = get_elem?-end done

module _ {F : Type 0} (grown : ℕ → ℕ) (defers : F → List F) where
  abbrev deferred : F → DeferredCaller F → DeferredCaller F
  deferred f s = record s {
    deferred_methods = s.deferred_methods ++ f ∷ [];
    triggered = s.triggered + 1;
  }

  deferred_call_lem :
      (f : F) (s : DeferredCaller F)
      → length s.deferred_methods < s.capacity
      → Deferred.deferred_call grown defers f s ≡ (ok tt, deferred f s)
  unfolding Deferred.deferred_call
  deferred_call_lem f s room =
      let test : ltb (length s.deferred_methods) s.capacity ≡ true = ground arith in rw test refl

  defer_all_lem :
      (fs : List F) (s : DeferredCaller F)
      → length s.deferred_methods + length fs ≤ s.capacity
      → defer_all grown defers fs s ≡ (
        ok tt,
        record s {
          deferred_methods = s.deferred_methods ++ fs;
          triggered = s.triggered + length fs;
        },
      )
  defer_all_lem [] s room =
      let n : s.triggered + 0 ≡ s.triggered = omega arith in rw append-nil (rw n refl)
  defer_all_lem (f ∷ fs) s room =
      let s' : DeferredCaller F = deferred f s in
      let n : s.triggered + 1 + length fs ≡ s.triggered + length (f ∷ fs) = omega arith in
      let l = length-append s.deferred_methods (f ∷ []) in
      bind-ok (Deferred.deferred_call grown defers f) (λ _. defer_all grown defers fs)
        (deferred_call_lem f s (omega arith))
      ∙ defer_all_lem fs s' (omega arith)
      ∙ ap
          (λ (k : ℕ). (
            ok tt,
            record s' { deferred_methods = (s.deferred_methods ++ f ∷ []) ++ fs; triggered = k },
          ))
          n
      ∙ ap
          (λ l.
            (ok tt, record s { deferred_methods = l; triggered = s.triggered + length (f ∷ fs) }))
          (append_assoc s.deferred_methods (f ∷ []) fs)

  -- A call that is deferred by a running method when the vector is full.
  deferred_call-full :
      (f : F) (s : DeferredCaller F)
      → s.calling ≡ true
      → s.capacity ≤ length s.deferred_methods
      → Deferred.deferred_call grown defers f s ≡ (fault, s)
  unfolding Deferred.deferred_call
  deferred_call-full f s running full =
      let test : ltb (length s.deferred_methods) s.capacity ≡ false = ground arith in
      rw test (rw running refl)

  defer_all-full :
      (fs : List F) (s : DeferredCaller F)
      → s.calling ≡ true
      → length s.deferred_methods ≤ s.capacity
      → s.capacity < length s.deferred_methods + length fs
      → (s' : DeferredCaller F) × (defer_all grown defers fs s ≡ (fault, s'))
  defer_all-full [] s running valid full = absurd (omega arith)
  defer_all-full (f ∷ fs) s running valid full =
      elim (lt-cases (length s.deferred_methods) s.capacity) [
        | inl room ↦
            let l = length-append s.deferred_methods (f ∷ []) in
            let (s', e) = defer_all-full fs (deferred f s) running (omega arith) (omega arith) in
            (
              s',
              bind-ok (Deferred.deferred_call grown defers f) (λ _. defer_all grown defers fs)
                    (deferred_call_lem f s room)
                  ∙ e,
            )
        | inr none_left ↦ (
          s,
          bind-fault (Deferred.deferred_call grown defers f) (λ _. defer_all grown defers fs)
              (deferred_call-full f s running none_left),
        )
      ]

  -- The caller when a method is called, and behind its call.
  abbrev pub within : F → DeferredCaller F → DeferredCaller F
  within f s = record s { called = s.called ++ f ∷ []; calling = true }

  abbrev pub after : F → DeferredCaller F → DeferredCaller F
  after f s = record s {
    deferred_methods = s.deferred_methods ++ defers f;
    calling = false;
    called = s.called ++ f ∷ [];
    triggered = s.triggered + length (defers f);
  }

  pub call_method_lem :
      (f : F) (s : DeferredCaller F)
      → length s.deferred_methods + length (defers f) ≤ s.capacity
      → Deferred.call_method grown defers f s ≡ (ok tt, after f s)
  unfolding Deferred.call_method
  call_method_lem f s room =
      bind-ok (defer_all grown defers (defers f)) (λ _. modify (λ s. record s { calling = false }))
        (defer_all_lem (defers f) (within f s) room)

  pub call_method-full :
      (f : F) (s : DeferredCaller F)
      → length s.deferred_methods ≤ s.capacity
      → s.capacity < length s.deferred_methods + length (defers f)
      → (s' : DeferredCaller F) × (Deferred.call_method grown defers f s ≡ (fault, s'))
  unfolding Deferred.call_method
  call_method-full f s valid full =
      let (s', e) = defer_all-full (defers f) (within f s) refl valid full in
      (
        s',
        bind-fault (defer_all grown defers (defers f))
            (λ _. modify (λ (s : DeferredCaller F). record s { calling = false })) e,
      )

  -- One turn of the loop, with the element that is at the index.
  abbrev pub turn : ℕ → ℕ → Option F → M (DeferredCaller F) Exit
  turn fuel i none = pure left
  turn fuel i (some f) =
      Deferred.call_method grown defers f >> Deferred.fire_loop grown defers fuel (i + 1)

  pub fire_loop_lem :
      (fuel i : ℕ) (o : Option F) (s : DeferredCaller F)
      → get_elem? s.deferred_methods i ≡ o
      → Deferred.fire_loop grown defers (suc fuel) i s ≡ turn fuel i o s
  unfolding Deferred.fire_loop
  fire_loop_lem fuel i o s h =
      ap
        (λ (x : Option F).
          (elim x as (λ y. M (DeferredCaller F) Exit) [
            | none ↦ pure left
            | some f ↦
                (Deferred.call_method grown defers f
                  >> Deferred.fire_loop grown defers fuel (i + 1))
          ])
            s)
        h
      ∙ go o
    where
      go :
          (x : Option F)
          → (elim x as (λ y. M (DeferredCaller F) Exit) [
            | none ↦ pure left
            | some f ↦
                (Deferred.call_method grown defers f
                  >> Deferred.fire_loop grown defers fuel (i + 1))
          ])
              s
            ≡ turn fuel i x s
      go none = refl
      go (some f) = refl

  next_lem :
      (fuel : ℕ) (done rest : List F) (f : F) (s : DeferredCaller F)
      → s.deferred_methods ≡ done ++ f ∷ rest
      → Deferred.fire_loop grown defers (suc fuel) (length done) s
        ≡ turn fuel (length done) (some f) s
  next_lem fuel done rest f s h =
      fire_loop_lem fuel (length done) (some f) s
        (ap (λ l. get_elem? l (length done)) h ∙ get_elem?-length f done rest)

  -- A turn that fits into the vector, and one that does not.
  pub next-fits :
      (fuel : ℕ) (done rest : List F) (f : F) (s : DeferredCaller F)
      → s.deferred_methods ≡ done ++ f ∷ rest
      → length s.deferred_methods + length (defers f) ≤ s.capacity
      → Deferred.fire_loop grown defers (suc fuel) (length done) s
        ≡ Deferred.fire_loop grown defers fuel (length (done ++ f ∷ [])) (after f s)
  next-fits fuel done rest f s h room =
      let n : length done + 1 ≡ length (done ++ f ∷ []) =
        omega (arith, length-append done (f ∷ [])) in
      next_lem fuel done rest f s h
      ∙ bind-ok (Deferred.call_method grown defers f)
          (λ _. Deferred.fire_loop grown defers fuel (length done + 1)) (call_method_lem f s room)
      ∙ ap (λ (i : ℕ). Deferred.fire_loop grown defers fuel i (after f s)) n

  pub next-full :
      (fuel : ℕ) (done rest : List F) (f : F) (s : DeferredCaller F)
      → s.deferred_methods ≡ done ++ f ∷ rest
      → length s.deferred_methods ≤ s.capacity
      → s.capacity < length s.deferred_methods + length (defers f)
      → (Deferred.fire_loop grown defers (suc fuel) (length done) s).0 ≡ fault
  next-full fuel done rest f s h valid full =
      let (s', e) = call_method-full f s valid full in
      ap (λ o. o.0)
        (next_lem fuel done rest f s h
          ∙ bind-fault (Deferred.call_method grown defers f)
              (λ _. Deferred.fire_loop grown defers fuel (length done + 1)) e)
