-- ===== src/Deferred/Tickets.antt =====
-- The observers of `GotResponseControllerEvent` (src/BaseControllerEvent.h), by ticket. The map is a
-- list of its entries, which have different tickets.
use mathlib.Core.Bool.{false≢true}
use coconut.Base.{
  ℕ, ◌≡◌, refl, sym, ap, ◌∙◌, arith, Bool, true, false, List, [], ◌∷◌, ◌++◌, Option, none, some,
  ◌==◌, if◌then◌else◌, Bool-cases, ◌⊎◌, inl, inr,
}
use coconut.Deferred.Observers.{insert, erase}

abbrev pub TicketObservers : Type 0
TicketObservers = List (ℕ × List ℕ)

abbrev pub find : ℕ → TicketObservers → Option (List ℕ)
find t [] = none
find t ((u, s) ∷ m) = if t == u then some s else find t m

-- Whether a ticket has an entry.
abbrev pub is_found : Option (List ℕ) → Bool
is_found none = false
is_found (some s) = true

-- The set at a ticket that is found is replaced.
abbrev pub put : ℕ → List ℕ → TicketObservers → TicketObservers
put t s [] = []
put t s ((u, r) ∷ m) = let rest = put t s m in if t == u then (u, s) ∷ rest else (u, r) ∷ rest

abbrev pub remove : ℕ → TicketObservers → TicketObservers
remove t [] = []
remove t ((u, s) ∷ m) = let rest = remove t m in if t == u then rest else (u, s) ∷ rest

-- `registerObserver`, `unregisterObserver` and `clearObserver`
unfoldable pub register_ticket : ℕ → ℕ → TicketObservers → TicketObservers
register_ticket t x m = elim (find t m) [
  | some s ↦ put t (insert x s) m
  | none ↦ m ++ (t, insert x []) ∷ []
]

-- The set without an observer, and no entry when it is empty.
abbrev pub without : ℕ → List ℕ → TicketObservers → TicketObservers
without t [] m = remove t m
without t (x ∷ xs) m = put t (x ∷ xs) m

unfoldable pub unregister_ticket : ℕ → ℕ → TicketObservers → TicketObservers
unregister_ticket t x m = elim (find t m) [ some s ↦ without t (erase x s) m | none ↦ m ]

unfoldable pub clear_ticket : ℕ → TicketObservers → TicketObservers
clear_ticket t m = elim (find t m) [ some s ↦ remove t m | none ↦ m ]

-- The observers of a ticket, none without an entry.
abbrev pub observers_of : Option (List ℕ) → List ℕ
observers_of none = []
observers_of (some s) = s

-- The set at a ticket that has an entry is this one.
abbrev pub if_found : Option (List ℕ) → List ℕ → List ℕ
if_found none s = []
if_found (some r) s = s

find-put :
    (t u : ℕ) (s : List ℕ) (m : TicketObservers)
    → observers_of (find u (put t s m))
      ≡ (if t == u then if_found (find t m) s else observers_of (find u m))
find-put t u s [] = ground arith
find-put t u s ((v, q) ∷ m) = go (Bool-cases (t == v)) (find-put t u s m)
  where
    go :
        ((t == v) ≡ true) ⊎ ((t == v) ≡ false)
        → observers_of (find u (put t s m))
          ≡ (if t == u then if_found (find t m) s else observers_of (find u m))
        → observers_of (find u (put t s ((v, q) ∷ m))) ≡ (
            if t == u then if_found (find t ((v, q) ∷ m)) s else observers_of (find u ((v, q) ∷ m)))
    go (inl e) rest = rw e (ground (arith, e, rest))
    go (inr e) rest = rw e (ground (arith, e, rest))

find-remove :
    (t u : ℕ) (m : TicketObservers)
    → observers_of (find u (remove t m)) ≡ (if t == u then [] else observers_of (find u m))
find-remove t u [] = ground arith
find-remove t u ((v, q) ∷ m) = go (Bool-cases (t == v)) (find-remove t u m)
  where
    other :
        (t == v) ≡ true
        → (if t == u then [] else observers_of (find u m))
          ≡ (if t == u then [] else observers_of (find u ((v, q) ∷ m)))
    other e = ground (arith, e)

    split :
        (t == v) ≡ false
        → (o : Option (List ℕ)) → observers_of o ≡ (if t == u then [] else observers_of (find u m))
        → (b : Bool) → (u == v) ≡ b
        → observers_of (if b then some q else o)
          ≡ (if t == u then [] else observers_of (if b then some q else find u m))
    split e o rest true h = let n : (t == u) ≡ false = ground (arith, e, h) in rw n refl
    split e o rest false h = rest

    go :
        ((t == v) ≡ true) ⊎ ((t == v) ≡ false)
        → observers_of (find u (remove t m)) ≡ (if t == u then [] else observers_of (find u m))
        → observers_of (find u (remove t ((v, q) ∷ m)))
          ≡ (if t == u then [] else observers_of (find u ((v, q) ∷ m)))
    go (inl e) rest = rw e (rest ∙ other e)
    go (inr e) rest = rw e (split e (find u (remove t m)) rest (u == v) refl)

find-append :
    (t u : ℕ) (s : List ℕ) (m : TicketObservers)
    → is_found (find t m) ≡ false
    → observers_of (find u (m ++ (t, s) ∷ [])) ≡ (if t == u then s else observers_of (find u m))
find-append t u s [] h = ground arith
find-append t u s ((v, q) ∷ m) h = go (Bool-cases (t == v)) (find-append t u s m)
  where
    go :
        ((t == v) ≡ true) ⊎ ((t == v) ≡ false)
        → (is_found (find t m) ≡ false
            → observers_of (find u (m ++ (t, s) ∷ []))
              ≡ (if t == u then s else observers_of (find u m)))
        → observers_of (find u ((v, q) ∷ (m ++ (t, s) ∷ [])))
          ≡ (if t == u then s else observers_of (find u ((v, q) ∷ m)))
    go (inl e) rest =
        absurd (false≢true (sym h ∙ ap (λ (b : Bool). is_found (if b then some q else find t m)) e))
    go (inr e) rest =
        let r = rest (ap (λ (b : Bool). is_found (if b then some q else find t m)) (sym e) ∙ h) in
        ground (arith, e, r)

-- The observers of a ticket in a map.
abbrev pub at_ticket : ℕ → TicketObservers → List ℕ
at_ticket t m = observers_of (find t m)

same_ticket :
    (t u : ℕ) (s : List ℕ) (m : TicketObservers)
    → at_ticket t m ≡ s
    → at_ticket u m ≡ (if t == u then s else at_ticket u m)
same_ticket t u s m h = elim (Bool-cases (t == u)) [
  | inl e ↦ let n : t ≡ u = ground (arith, e) in rw e (ap (λ (x : ℕ). at_ticket x m) (sym n) ∙ h)
  | inr e ↦ rw e refl
]

register_lem :
    (t u x : ℕ) (m : TicketObservers)
    → at_ticket u (register_ticket t x m)
      ≡ (if t == u then insert x (at_ticket t m) else at_ticket u m)
unfolding register_ticket
register_lem t u x m = go (find t m) refl
  where
    go :
        (o : Option (List ℕ))
        → find t m ≡ o
        → at_ticket u (elim o [ some s ↦ put t (insert x s) m | none ↦ m ++ (t, insert x []) ∷ [] ])
          ≡ (if t == u then insert x (observers_of o) else at_ticket u m)
    go none h = find-append t u (insert x []) m (ap is_found h)
    go (some s) h =
        find-put t u (insert x s) m
        ∙ ap (λ (o : Option (List ℕ)). if t == u then if_found o (insert x s) else at_ticket u m) h

unregister_lem :
    (t u x : ℕ) (m : TicketObservers)
    → at_ticket u (unregister_ticket t x m)
      ≡ (if t == u then erase x (at_ticket t m) else at_ticket u m)
unfolding unregister_ticket
unregister_lem t u x m = go (find t m) refl
  where
    kept :
        (s r : List ℕ)
        → find t m ≡ some s
        → at_ticket u (without t r m) ≡ (if t == u then r else at_ticket u m)
    kept s [] h = find-remove t u m
    kept s (y ∷ ys) h =
        find-put t u (y ∷ ys) m
        ∙ ap (λ (o : Option (List ℕ)). if t == u then if_found o (y ∷ ys) else at_ticket u m) h

    go :
        (o : Option (List ℕ))
        → find t m ≡ o
        → at_ticket u (elim o [ some s ↦ without t (erase x s) m | none ↦ m ])
          ≡ (if t == u then erase x (observers_of o) else at_ticket u m)
    go none h = same_ticket t u [] m (ap observers_of h)
    go (some s) h = kept s (erase x s) h

-- For the observers of any ticket, `registerObserver`, `unregisterObserver` and `clearObserver` of a
-- ticket are the insertion into its set, the removal from its set and an empty set, and leave the
-- observers of every other ticket as they are.
pub tickets_lem :
    (t u x : ℕ) (m : TicketObservers)
    → (at_ticket u (register_ticket t x m)
        ≡ (if t == u then insert x (at_ticket t m) else at_ticket u m))
      × (at_ticket u (unregister_ticket t x m)
          ≡ (if t == u then erase x (at_ticket t m) else at_ticket u m))
      × (at_ticket u (clear_ticket t m) ≡ (if t == u then [] else at_ticket u m))
unfolding clear_ticket
tickets_lem t u x m = (register_lem t u x m, unregister_lem t u x m, go (find t m) refl)
  where
    go :
        (o : Option (List ℕ))
        → find t m ≡ o
        → at_ticket u (elim o [ some s ↦ remove t m | none ↦ m ])
          ≡ (if t == u then [] else at_ticket u m)
    go none h = same_ticket t u [] m (ap observers_of h)
    go (some s) h = find-remove t u m
