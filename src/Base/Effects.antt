-- ===== src/Base/Effects.antt =====
-- A method call: it returns, throws one of the program's exceptions, or leaves what C++ defines.
-- The state comes back in every case, since what was written before a throw stays written.
use mathlib.Core.Bool.{Bool}
use mathlib.Core.Path.{◌≡◌, ap}
use coconut.Base.Tests.{if◌then◌else◌}

-- The classes of src/Exception.h that the modelled code throws, and those of the C++ library.
pub data Exception : Type 0 where
  exception protocol_exception socket_exception : Exception
  redis_exception illegal_state illegal_argument out_of_range length_error : Exception

-- `fault` is undefined behaviour, such as an access outside of a buffer.
pub data Result (A : Type 0) : Type 0 where
  ok : A → Result A
  throws : Exception → Result A
  fault : Result A

abbrev pub M : Type 0 → Type 0 → Type 0
M S A = S → Result A × S

-- What comes after a call, on its outcome.
abbrev pub resume : {S A B : Type 0} → (A → M S B) → Result A × S → Result B × S
resume f o = elim o.0 [ ok a ↦ f a o.1 | throws e ↦ (throws e, o.1) | fault ↦ (fault, o.1) ]

infixl 5 ◌>>=◌ ◌>>◌
abbrev pub ◌>>=◌ : {S A B : Type 0} → M S A → (A → M S B) → M S B
◌>>=◌ m f s = resume f (m s)

abbrev pub ◌>>◌ : {S A B : Type 0} → M S A → M S B → M S B
m >> k = m >>= λ _. k

abbrev pub pure : {S A : Type 0} → A → M S A
pure a s = (ok a, s)

abbrev pub throw : {S A : Type 0} → Exception → M S A
throw e s = (throws e, s)

abbrev pub throw_if : {S : Type 0} → Bool → Exception → M S (Unit {0})
throw_if b e s = (if b then throws e else ok tt, s)

abbrev pub gets : {S A : Type 0} → (S → A) → M S A
gets f s = (ok (f s), s)

abbrev pub modify : {S : Type 0} → (S → S) → M S (Unit {0})
modify f s = (ok tt, f s)

-- A result computed from the state, which stays as it is.
abbrev pub reads : {S A : Type 0} → (S → Result A) → M S A
reads f s = (f s, s)

module _ {S A B : Type 0} (m : M S A) (f : A → M S B) {s s' : S} where
  pub bind-ok : {a : A} → m s ≡ (ok a, s') → (m >>= f) s ≡ f a s'
  bind-ok h = ap (resume f) h

  pub bind-throws : {e : Exception} → m s ≡ (throws e, s') → (m >>= f) s ≡ (throws e, s')
  bind-throws h = ap (resume f) h

  pub bind-fault : m s ≡ (fault, s') → (m >>= f) s ≡ (fault, s')
  bind-fault h = ap (resume f) h
