-- ===== src/Kbuffer/Tests.antt =====
-- A kbuffer of two chunks at the addresses 8 and 16.
use coconut.Base.{ℕ, ◌≡◌, refl, arith, true, [], ◌∷◌, none, some, ok}
use coconut.Kbuffer
use coconut.Kbuffer.{Chunk, Store, Kbuffer, null, write}
use coconut.Kbuffer.Queue.{drain}
use coconut.Kbuffer.Seg.{Cells, queue, IsKbuffer}
use coconut.Kbuffer.Add.{kbuffer_add_lem}
use coconut.Kbuffer.Free.{kbuffer_free_lem}
use coconut.Kbuffer.Drain.{kbuffer_drain_lem}

-- Its first byte has been read.
abbrev first : Chunk
first = record { data_block = 1 ∷ 2 ∷ 3 ∷ []; size = 3; pt = 1; prev = null; next = 16 }

abbrev second : Chunk
second = record { data_block = 4 ∷ 5 ∷ []; size = 2; pt = 0; prev = 8; next = null }

abbrev cells : Cells
cells = (8, first) ∷ (16, second) ∷ []

abbrev two_chunks : Kbuffer
two_chunks = record {
  size = 4;
  head = 8;
  tail = 16;
  chunks = write (write (λ a. none) 8 (some first)) 16 (some second);
}

two_chunks-IsKbuffer : IsKbuffer two_chunks cells
unfolding write
two_chunks-IsKbuffer = record {
  owned = λ a out. ground arith;
  chain = (
    refl,
    ground arith,
    refl,
    refl,
    record { size = refl; pt = omega arith; fits = omega arith },
    refl,
    (
      refl,
      ground arith,
      refl,
      refl,
      record { size = refl; pt = omega arith; fits = omega arith },
      refl,
      (refl, refl),
    ),
  );
  size = refl;
  fits = omega arith;
}

kbuffer_add_lem_example :
    (k' : Kbuffer) × (ys : Cells) × (Kbuffer.kbuffer_add 24 (6 ∷ []) two_chunks ≡ (ok 1, k'))
    × IsKbuffer k' ys
    × (queue ys ≡ (2 ∷ 3 ∷ []) ∷ (4 ∷ 5 ∷ []) ∷ (6 ∷ []) ∷ [])
unfolding write
kbuffer_add_lem_example =
    kbuffer_add_lem two_chunks cells 24 (6 ∷ []) two_chunks-IsKbuffer (ground arith) refl
      (omega arith)

kbuffer_free_lem_example :
    (k' : Kbuffer) × (Kbuffer.kbuffer_free 3 two_chunks ≡ (ok true, k'))
    × ((a : ℕ) → k'.chunks a ≡ none)
    × (k'.head ≡ null)
    × (k'.tail ≡ null)
    × (k'.size ≡ 0)
kbuffer_free_lem_example = kbuffer_free_lem 3 two_chunks cells two_chunks-IsKbuffer (omega arith)

-- Three bytes are those of the first chunk and one of the second.
kbuffer_drain_lem_example :
    (k' : Kbuffer) × (ys : Cells) × (Kbuffer.kbuffer_drain 3 3 two_chunks ≡ (ok true, k'))
    × IsKbuffer k' ys
    × (queue ys ≡ (5 ∷ []) ∷ [])
unfolding drain
kbuffer_drain_lem_example =
    kbuffer_drain_lem 3 3 two_chunks cells two_chunks-IsKbuffer (omega arith) (omega arith)
