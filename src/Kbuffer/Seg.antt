-- ===== src/Kbuffer/Seg.antt =====
-- What a kbuffer stands for: the chunks from the head to the tail, in order, and their unread bytes.
use mathlib.Core.Bool.{false≢true}
use native.Mathlib.Decide.{ℕ_discrete}
use coconut.Base.{
  ℕ, ◌≤◌, ◌<◌, ◌≡◌, ◌≢◌, refl, sym, ap, ◌∙◌, arith, Bool, ◌||◌, true, false, List, [], ◌∷◌, ◌++◌,
  Option, none, some, Bytes, length, drop, ◌==◌, int_sign,
}
use coconut.Kbuffer.{Chunk, Store, Kbuffer, null, write}
use coconut.Kbuffer.Queue.{Queue, flatten}

pub write-same : (h : Store) (p : ℕ) (c : Option Chunk) → write h p c p ≡ c
unfolding write
write-same h p c = ground arith

pub write-other : (h : Store) (p : ℕ) (c : Option Chunk) (a : ℕ) → a ≢ p → write h p c a ≡ h a
unfolding write
write-other h p c a n = ground arith

pub write-none : (h : Store) (p a : ℕ) → (a ≢ p → h a ≡ none) → write h p none a ≡ none
unfolding write
write-none h p a other = elim (ℕ_discrete a p) [
  | yes q ↦ rw q (ground arith)
  | no n ↦ ground (arith, other n)
]

-- The address and the chunk at it, from the head on.
abbrev pub Cells : Type 0
Cells = List (ℕ × Chunk)

abbrev pub has : ℕ → Cells → Bool
has a [] = false
has a ((p, _) ∷ xs) = (a == p) || has a xs

abbrev pub unread : Chunk → Bytes
unread c = drop c.pt c.data_block

abbrev pub queue : Cells → Queue
queue [] = []
queue ((_, c) ∷ xs) = unread c ∷ queue xs

abbrev pub contents : Cells → Bytes
contents xs = flatten (queue xs)

pub record IsChunk (c : Chunk) : Type 0 where
  pub size : c.size ≡ length c.data_block
  pub pt : c.pt ≤ c.size
  pub fits : c.size < int_sign

pub or_false : (b c : Bool) → (b || c) ≡ false → (b ≡ false) × (c ≡ false)
or_false true c h = absurd (false≢true (sym h))
or_false false c h = (refl, h)

-- An address that is not a cell's is not the address of this one, nor of the others.
pub has-cons_false :
    (m a : ℕ) (c : Chunk) (xs : Cells) → has m ((a, c) ∷ xs) ≡ false → (m ≢ a) × (has m xs ≡ false)
has-cons_false m a c xs h = ground arith

pub has-cons_ne :
    (m a : ℕ) (c : Chunk) (xs : Cells) → m ≢ a → has m xs ≡ false → has m ((a, c) ∷ xs) ≡ false
has-cons_ne m a c xs n h = ground arith

-- From `p` the next pointers lead through the distinct cells to `last`, and the prev pointers back
-- to `prev`.
abbrev pub Seg : Store → ℕ → ℕ → ℕ → Cells → Type 0
Seg h prev p last [] = (p ≡ null) × (last ≡ prev)
Seg h prev p last ((a, c) ∷ xs) =
    (p ≡ a)
    × (a ≢ null)
    × (h a ≡ some c)
    × (c.prev ≡ prev)
    × IsChunk c
    × (has a xs ≡ false)
    × Seg h a c.next last xs

-- The chunks of a kbuffer, and nothing else, are what its store holds.
pub record IsKbuffer (k : Kbuffer) (xs : Cells) : Type 0 where
  pub owned : (a : ℕ) → has a xs ≡ false → k.chunks a ≡ none
  pub chain : Seg k.chunks null k.head k.tail xs
  pub size : k.size ≡ length (contents xs)
  pub fits : length (contents xs) < int_sign

-- A change that spares the cells of a segment.
pub frame :
    (h g : Store) (prev p last : ℕ) (xs : Cells)
    → Seg h prev p last xs
    → ((a : ℕ) → has a xs ≡ true → g a ≡ h a)
    → Seg g prev p last xs
frame h g prev p last [] s same = s
frame h g prev p last ((a, c) ∷ xs) (e, n, holds, back, is, out, rest) same = (
  e,
  n,
  same a (ground arith) ∙ holds,
  back,
  is,
  out,
  frame h g a c.next last xs rest λ b i. same b (ground arith),
)

pub not-has_of_none :
    (h : Store) (prev p last : ℕ) (xs : Cells) (a : ℕ)
    → Seg h prev p last xs
    → h a ≡ none
    → has a xs ≡ false
not-has_of_none h prev p last [] a s unused = refl
not-has_of_none h prev p last ((b, c) ∷ xs) a (e, n, holds, back, is, out, rest) unused =
    ground (arith, not-has_of_none h b c.next last xs a rest unused)

-- The last cell with another next pointer.
abbrev pub link : Cells → ℕ → Cells
link [] q = []
link ((a, c) ∷ []) q = (a, record c { next = q }) ∷ []
link (x ∷ y ∷ xs) q = x ∷ link (y ∷ xs) q

-- The first cell with another prev pointer.
abbrev pub reprev : Cells → ℕ → Cells
reprev [] q = []
reprev ((a, c) ∷ xs) q = (a, record c { prev = q }) ∷ xs

pub has-reprev : (a q : ℕ) (xs : Cells) → has a (reprev xs q) ≡ has a xs
has-reprev a q [] = refl
has-reprev a q ((b, c) ∷ xs) = refl

pub queue-reprev : (xs : Cells) (q : ℕ) → queue (reprev xs q) ≡ queue xs
queue-reprev [] q = refl
queue-reprev ((b, c) ∷ xs) q = refl

pub length-reprev : (xs : Cells) (q : ℕ) → length (reprev xs q) ≡ length xs
length-reprev [] q = refl
length-reprev ((b, c) ∷ xs) q = refl

pub has-link : (a q : ℕ) (xs ys : Cells) → has a (link xs q ++ ys) ≡ (has a xs || has a ys)
has-link a q [] ys = refl
has-link a q ((b, c) ∷ []) ys = ground arith
has-link a q (x ∷ y ∷ xs) ys = ground (arith, has-link a q (y ∷ xs) ys)

pub queue-link : (xs : Cells) (q : ℕ) (ys : Cells) → queue (link xs q ++ ys) ≡ queue xs ++ queue ys
queue-link [] q ys = refl
queue-link ((b, c) ∷ []) q ys = refl
queue-link ((b, c) ∷ y ∷ xs) q ys = ap (◌∷◌ (unread c)) (queue-link (y ∷ xs) q ys)

-- An address outside of the cells is not one that is inside.
pub ne_of_has : (m t : ℕ) (xs : Cells) → has m xs ≡ false → has t xs ≡ true → m ≢ t
ne_of_has m t xs out i e = false≢true (sym out ∙ ap (λ z. has z xs) e ∙ i)

-- The last cell of a segment that is not empty.
pub last_lem :
    (h : Store) (prev p last : ℕ) (x : ℕ × Chunk) (xs : Cells)
    → Seg h prev p last (x ∷ xs)
    → (c : Chunk) × (h last ≡ some c) × (last ≢ null) × (has last (x ∷ xs) ≡ true)
last_lem h prev p last (a, c) [] (e, n, holds, back, is, out, (_, l)) =
    rw l (c, holds, n, ground arith)
last_lem h prev p last (a, c) (y ∷ ys) (e, n, holds, back, is, out, rest) =
    let (d, at, n', i) = last_lem h a c.next last y ys rest in (d, at, n', ground arith)

-- A new cell `f` behind the last one.
pub link-Seg :
    (h g : Store) (prev p last f : ℕ) (new : Chunk) (x : ℕ × Chunk) (xs : Cells)
    → Seg h prev p last (x ∷ xs)
    → ((a : ℕ) → has a (x ∷ xs) ≡ true → a ≢ last → g a ≡ h a)
    → ((c : Chunk) → h last ≡ some c → g last ≡ some (record c { next = f }))
    → g f ≡ some new
    → new.prev ≡ last
    → new.next ≡ null
    → IsChunk new
    → f ≢ null
    → has f (x ∷ xs) ≡ false
    → Seg g prev p f (link (x ∷ xs) f ++ (f, new) ∷ [])
link-Seg h g prev p last f new (a, c) [] (e, n, holds, back, is, out, (_, l)) same linked at b z i
      fn apart =
    (
      e,
      n,
      ap g (sym l) ∙ linked c (ap h l ∙ holds),
      back,
      record { size = is.size; pt = is.pt; fits = is.fits },
      ground arith,
      (refl, fn, at, b ∙ l, i, refl, (z, refl)),
    )
link-Seg h g prev p last f new (a, c) (y ∷ ys) (e, n, holds, back, is, out, rest) same linked at b z
      i fn apart =
    let (d, at', n', j) = last_lem h a c.next last y ys rest in
    let apart' : a ≢ last = λ q. absurd (false≢true (sym out ∙ ap (λ m. has m (y ∷ ys)) q ∙ j)) in
    (
      e,
      n,
      same a (ground arith) apart' ∙ holds,
      back,
      is,
      rw (has-link a f (y ∷ ys) ((f, new) ∷ [])) (ground arith),
      link-Seg h g a c.next last f new y ys rest (λ m k q. same m (ground arith) q) linked at b z i
          fn (ground arith),
    )
