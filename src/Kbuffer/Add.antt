-- ===== src/Kbuffer/Add.antt =====
-- `kbuffer_add` appends a chunk.
use mathlib.Core.Option.{none-ne-some, some-injective}
use coconut.Base.{
  ℕ, ◌+◌, ◌%◌, ◌<◌, ◌≡◌, ◌≢◌, refl, sym, ap, ◌∙◌, arith, false, [], ◌∷◌, ◌++◌, none, some, Bytes,
  length, int_sign, u32_mod, append-nil, length-append, ok,
}
use coconut.Kbuffer
use coconut.Kbuffer.Seg.{
  Cells, has, contents, IsKbuffer, link, queue, queue-link, not-has_of_none, last_lem, link-Seg,
  has-link, write-same, write-other, or_false, has-cons_false, ne_of_has,
}
use coconut.Kbuffer.{Chunk, Store, Kbuffer, null, write}
use coconut.Kbuffer.Queue.{flatten, flatten-append}

-- The chunk that is added.
abbrev pub new_chunk : Bytes → ℕ → Chunk
new_chunk bytes t = record {
  data_block = bytes;
  size = length bytes;
  pt = 0;
  prev = t;
  next = null;
}

abbrev pub added_cells : Cells → ℕ → Bytes → ℕ → Cells
added_cells xs f bytes t = link xs f ++ (f, new_chunk bytes t) ∷ []

module _ (k : Kbuffer) (f : ℕ) (bytes : Bytes) (fn : f ≢ null) (unused : k.chunks f ≡ none) where
  -- The first chunk.
  add_first :
      IsKbuffer k []
      → length bytes < int_sign
      → (k' : Kbuffer) × (Kbuffer.kbuffer_add f bytes k ≡ (ok (length bytes), k'))
        × IsKbuffer k' ((f, new_chunk bytes k.tail) ∷ [])
  unfolding Kbuffer.kbuffer_add write
  add_first is few =
      let (h, t) = is.chain in
      let k' : Kbuffer = record {
        size = length bytes;
        head = f;
        tail = f;
        chunks = write k.chunks f (some (new_chunk bytes k.tail));
      } in
      (
        k',
        ground (arith, is.size, h, t),
        record {
          owned = λ a out. ground (arith, is.owned a refl);
          chain = (
            refl,
            fn,
            ground arith,
            t,
            record { size = refl; pt = omega arith; fits = few },
            refl,
            (refl, refl),
          );
          size = omega (arith, ap length (append-nil bytes));
          fits = omega (arith, ap length (append-nil bytes));
        },
      )

  add_run :
      (c : Chunk)
      → k.chunks k.tail ≡ some c
      → k.tail ≢ null
      → k.head ≢ null
      → f ≢ k.tail
      → k.size + length bytes < int_sign
      → Kbuffer.kbuffer_add f bytes k ≡ (
        ok (length bytes),
        record {
          size = k.size + length bytes;
          head = k.head;
          tail = f;
          chunks =
              write
                (write k.chunks f (some (new_chunk bytes k.tail)))
                k.tail
                (some (record c { next = f }));
        },
      )
  unfolding Kbuffer.kbuffer_add Kbuffer.set_next Kbuffer.load
  add_run c at tn hn apart few =
      let still : write k.chunks f (some (new_chunk bytes k.tail)) k.tail ≡ some c =
        write-other k.chunks f _ k.tail (λ q. apart (sym q)) ∙ at in
      let n : length bytes % u32_mod ≡ length bytes = omega arith in ground (arith, still, n)

  -- A chunk behind others.
  add_more :
      (x : ℕ × Chunk) (xs : Cells)
      → IsKbuffer k (x ∷ xs)
      → length (contents (x ∷ xs)) + length bytes < int_sign
      → (k' : Kbuffer) × (Kbuffer.kbuffer_add f bytes k ≡ (ok (length bytes), k'))
        × IsKbuffer k' (added_cells (x ∷ xs) f bytes k.tail)
  unfolding Kbuffer.kbuffer_add Kbuffer.set_next Kbuffer.load write
  add_more (a, b) xs is few =
      let (c, at, tn, i) = last_lem k.chunks null k.head k.tail (a, b) xs is.chain in
      let (e, an, _, _, _, _, _) = is.chain in
      let apart : f ≢ k.tail = λ q. absurd (none-ne-some c (sym unused ∙ ap k.chunks q ∙ at)) in
      let new = some (new_chunk bytes k.tail) in
      let h1 = write k.chunks f new in
      let linked = some (record c { next = f }) in
      let h = write h1 k.tail linked in
      let k' : Kbuffer = record {
        size = k.size + length bytes;
        head = k.head;
        tail = f;
        chunks = h;
      } in
      let total : length (contents (added_cells ((a, b) ∷ xs) f bytes k.tail))
          ≡ length (contents ((a, b) ∷ xs)) + length bytes =
        ap (λ q. length (flatten q)) (queue-link ((a, b) ∷ xs) f ((f, new_chunk bytes k.tail) ∷ []))
        ∙ ap length (flatten-append (queue ((a, b) ∷ xs)) (bytes ∷ []))
        ∙ length-append (contents ((a, b) ∷ xs)) (bytes ++ [])
        ∙ ap (λ (l : Bytes). length (contents ((a, b) ∷ xs)) + length l) (append-nil bytes) in
      let out : has f ((a, b) ∷ xs) ≡ false =
        not-has_of_none k.chunks null k.head k.tail ((a, b) ∷ xs) f is.chain unused in
      let run = add_run c at tn (λ z. an (sym e ∙ z)) apart (omega (arith, is.size)) in
      (
        k',
        run,
        record {
          owned = λ m away.
              let (w, v) =
                or_false (has m ((a, b) ∷ xs)) (has m ((f, new_chunk bytes k.tail) ∷ []))
                  (sym (has-link m f ((a, b) ∷ xs) ((f, new_chunk bytes k.tail) ∷ [])) ∙ away) in
              let (mf, _) = has-cons_false m f (new_chunk bytes k.tail) [] v in
              write-other h1 k.tail linked m (ne_of_has m k.tail ((a, b) ∷ xs) w i)
              ∙ write-other k.chunks f new m mf
              ∙ is.owned m w;
          chain =
              link-Seg k.chunks h null k.head k.tail f (new_chunk bytes k.tail) (a, b) xs is.chain
                (λ m j q.
                  write-other h1 k.tail linked m q
                  ∙ write-other k.chunks f new m (λ z. ne_of_has f m ((a, b) ∷ xs) out j (sym z)))
                (λ d at'.
                  write-same h1 k.tail linked
                  ∙ ap (λ (y : Chunk). some (record y { next = f }))
                      (some-injective c d (sym at ∙ at')))
                (write-other h1 k.tail linked f apart ∙ write-same k.chunks f new) refl refl
                (record { size = refl; pt = omega arith; fits = omega arith }) fn out;
          size = omega (arith, is.size, total);
          fits = omega (arith, total);
        },
      )

-- `kbuffer_add` at an address that malloc has not given out yet appends its bytes as a new chunk to
-- a kbuffer's queue, and returns how many they are, as long as an int can count all of them.
pub kbuffer_add_lem :
    (k : Kbuffer) (xs : Cells) (f : ℕ) (bytes : Bytes)
    → IsKbuffer k xs
    → f ≢ null
    → k.chunks f ≡ none
    → length (contents xs) + length bytes < int_sign
    → (k' : Kbuffer) × (ys : Cells) × (Kbuffer.kbuffer_add f bytes k ≡ (ok (length bytes), k'))
      × IsKbuffer k' ys
      × (queue ys ≡ queue xs ++ bytes ∷ [])
kbuffer_add_lem k [] f bytes is fn unused few =
    let (k', run, is') = add_first k f bytes fn unused is (omega arith) in (k', _, run, is', refl)
kbuffer_add_lem k (x ∷ xs) f bytes is fn unused few =
    let (k', run, is') = add_more k f bytes fn unused x xs is few in
    (k', _, run, is', queue-link (x ∷ xs) f ((f, new_chunk bytes k.tail) ∷ []))
