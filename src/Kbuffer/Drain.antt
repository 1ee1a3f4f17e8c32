-- ===== src/Kbuffer/Drain.antt =====
-- `kbuffer_drain` and the reading of a kbuffer.
use coconut.Base.{
  ℕ, zero, suc, ◌+◌, ◌-◌, ◌%◌, ◌<◌, ◌≡◌, ◌≢◌, refl, sym, ap, ◌∙◌, arith, true, false, [], ◌∷◌, some,
  Bytes, length, take, ltb, ◌==◌, int_sign, int_lt, u32_mod, Bool-cases, inl, inr, length-append,
  length-drop, drop-drop, take-all, ok,
}
use coconut.Kbuffer
use coconut.Kbuffer.{Chunk, Store, Kbuffer, null, write, int_sub}
use coconut.Kbuffer.Queue.{flatten, front, drain, drain-inside, drain-exact, drain-past}
use coconut.Kbuffer.Seg.{
  Cells, contents, unread, queue, queue-reprev, length-reprev, reprev, Seg, IsKbuffer, frame,
  write-same, write-other, has-cons_ne, has-cons_false, ne_of_has,
}
use coconut.Kbuffer.Free.{unread_size, chunk_free_lem}

-- The first chunk without its first n unread bytes.
abbrev pub shortened : Chunk → ℕ → Chunk
shortened c n = record c { pt = c.pt + n }

module _ (n : ℕ) (k : Kbuffer) (a : ℕ) (c : Chunk) (xs : Cells)
    (is : IsKbuffer k ((a, c) ∷ xs)) where
  chunk_remove_lem :
      n < length (unread c)
      → (k' : Kbuffer) × (Kbuffer.chunk_remove k.head n k ≡ (ok tt, k'))
        × IsKbuffer k' ((a, shortened c n) ∷ xs)
  unfolding Kbuffer.chunk_remove Kbuffer.load
  chunk_remove_lem few =
      let (e, an, at, back, ic, out, rest) = is.chain in
      let m = length-append (unread c) (contents xs) in
      let m' = length-append (unread (shortened c n)) (contents xs) in
      let l = length-drop c.pt c.data_block in
      let l' = length-drop (c.pt + n) c.data_block in
      let at' : k.chunks k.head ≡ some c = ap k.chunks e ∙ at in
      let hn : k.head ≢ null = λ q. an (sym e ∙ q) in
      let small : (c.pt + n) % u32_mod ≡ c.pt + n = omega (arith, l, ic.size, ic.pt, ic.fits) in
      let cut = some (shortened c n) in
      (
        record k { size = int_sub k.size n; chunks = write k.chunks k.head cut },
        ground (arith, at', hn, small),
        record {
          owned = λ b away.
              let (ne, away') = has-cons_false b a (shortened c n) xs away in
              write-other k.chunks k.head cut b (λ q. ne (q ∙ e))
              ∙ is.owned b (has-cons_ne b a c xs ne away');
          chain = (
            e,
            an,
            ap (write k.chunks k.head cut) (sym e) ∙ write-same k.chunks k.head cut,
            back,
            record { size = ic.size; pt = omega (arith, l, ic.size, ic.pt); fits = ic.fits },
            out,
            frame k.chunks (write k.chunks k.head cut) a c.next k.tail xs rest (λ b i.
                write-other k.chunks k.head cut b (λ q. ne_of_has a b xs out i (sym (q ∙ e)))),
          );
          size = omega (arith, is.size, is.fits, m, m', l, l', few);
          fits = omega (arith, is.fits, m, m', l, l');
        },
      )

-- What `drain_loop` leaves of a kbuffer.
Drained : ℕ → ℕ → Kbuffer → Cells → Type 0
Drained fuel n k xs =
    (k' : Kbuffer) × (ys : Cells) × (Kbuffer.drain_loop fuel k.head n k ≡ (ok true, k'))
    × IsKbuffer k' ys
    × (queue ys ≡ drain n (queue xs))

module _ (fuel n : ℕ) (small : n < int_sign) (k : Kbuffer) (a : ℕ) (c : Chunk) (xs : Cells)
    (is : IsKbuffer k ((a, c) ∷ xs)) where
  head_lem : (k.head ≢ null) × (k.chunks k.head ≡ some c)
  head_lem = let (e, an, at, _, _, _, _) = is.chain in ((λ q. an (sym e ∙ q)), ap k.chunks e ∙ at)

  left_lem : (int_sub c.size c.pt ≡ length (unread c)) × (length (unread c) < int_sign)
  left_lem =
      let (_, _, _, _, ic, _, _) = is.chain in
      let n = unread_size c ic in
      (n, omega (arith, ic.size, ic.fits, length-drop c.pt c.data_block))

  drain_inside : n < length (unread c) → Drained (suc fuel) n k ((a, c) ∷ xs)
  unfolding Drained Kbuffer.drain_loop Kbuffer.load
  drain_inside few =
      let (hn, at) = head_lem in
      let (l, f) = left_lem in
      let (k', run, is') = chunk_remove_lem n k a c xs is few in
      let t : int_lt n (int_sub c.size c.pt) ≡ true = rw l (ground arith) in
      (
        k',
        _,
        ground (arith, hn, at, t, run),
        is',
        ap (λ (d : Bytes). d ∷ queue xs) (sym (drop-drop n c.pt c.data_block))
            ∙ sym (drain-inside n (unread c) (queue xs) few),
      )

  drain_exact : n ≡ length (unread c) → Drained (suc fuel) n k ((a, c) ∷ xs)
  unfolding Drained Kbuffer.drain_loop Kbuffer.load
  drain_exact same =
      let (hn, at) = head_lem in
      let (l, f) = left_lem in
      let (k', run, is', h) = chunk_free_lem k a c xs is in
      let t : int_lt n (int_sub c.size c.pt) ≡ false = rw l (ground arith) in
      let z : int_sub n (int_sub c.size c.pt) ≡ 0 = rw l (omega arith) in
      (
        k',
        _,
        ground (arith, hn, at, t, z, run),
        is',
        queue-reprev xs null ∙ sym (drain-exact n (unread c) (queue xs) same),
      )

  drain_past :
      length (unread c) < n
      → ((k' : Kbuffer) (ys : Cells)
          → IsKbuffer k' ys
          → length ys ≡ length xs
          → Drained fuel (n - length (unread c)) k' ys)
      → Drained (suc fuel) n k ((a, c) ∷ xs)
  unfolding Drained Kbuffer.drain_loop Kbuffer.load
  drain_past more next =
      let (hn, at) = head_lem in
      let (l, f) = left_lem in
      let (k', run, is', h) = chunk_free_lem k a c xs is in
      let (k'', ys, go, is'', q) = next k' (reprev xs null) is' (length-reprev xs null) in
      let t : int_lt n (int_sub c.size c.pt) ≡ false = rw l (ground arith) in
      let d : int_sub n (int_sub c.size c.pt) ≡ n - length (unread c) = rw l (omega arith) in
      let z : (n - length (unread c) == 0) ≡ false = ground arith in
      let go' : Kbuffer.drain_loop fuel c.next (n - length (unread c)) k' ≡ (ok true, k'') =
        ap (λ p. Kbuffer.drain_loop fuel p (n - length (unread c)) k') (sym h) ∙ go in
      (
        k'',
        ys,
        ground (arith, hn, at, t, d, z, run, go'),
        is'',
        q
            ∙ ap (drain (n - length (unread c))) (queue-reprev xs null)
            ∙ sym (drain-past n (unread c) (queue xs) more),
      )

drain_loop_lem :
    (fuel n : ℕ) (k : Kbuffer) (xs : Cells)
    → IsKbuffer k xs
    → length xs < fuel
    → n < int_sign
    → Drained fuel n k xs
unfolding Drained Kbuffer.drain_loop drain
drain_loop_lem zero n k xs is enough small = absurd (omega arith)
drain_loop_lem (suc fuel) n k [] is enough small =
    let (h, t) = is.chain in (k, [], ground arith, is, refl)
drain_loop_lem (suc fuel) n k ((a, c) ∷ xs) is enough small =
    elim (Bool-cases (ltb n (length (unread c)))) [
      | inl t ↦ drain_inside fuel n small k a c xs is (ground arith)
      | inr f ↦ elim (Bool-cases (n == length (unread c))) [
        | inl e ↦ drain_exact fuel n small k a c xs is (ground arith)
        | inr e ↦ drain_past fuel n small k a c xs is (ground arith) λ k' ys is' m.
            drain_loop_lem fuel (n - length (unread c)) k' ys is' (omega arith) (omega arith)
      ]
    ]

-- `kbuffer_drain` of n bytes, with more fuel than the kbuffer has chunks and n below 2 ^ 31, ends
-- and leaves a kbuffer whose queue is the one before without its first n bytes.
pub kbuffer_drain_lem :
    (fuel n : ℕ) (k : Kbuffer) (xs : Cells)
    → IsKbuffer k xs
    → length xs < fuel
    → n < int_sign
    → (k' : Kbuffer) × (ys : Cells) × (Kbuffer.kbuffer_drain fuel n k ≡ (ok true, k'))
      × IsKbuffer k' ys
      × (queue ys ≡ drain n (queue xs))
unfolding Kbuffer.kbuffer_drain Drained
kbuffer_drain_lem fuel n k xs is enough small = drain_loop_lem fuel n k xs is enough small

-- The loop of `kbuffer_get_chunk_count` from a cell on.
count_loop_lem :
    (fuel m prev p : ℕ) (k : Kbuffer) (xs : Cells)
    → Seg k.chunks prev p k.tail xs
    → length xs < fuel
    → m + length xs < u32_mod
    → Kbuffer.count_loop fuel p m k ≡ (ok (some (m + length xs)), k)
unfolding Kbuffer.count_loop Kbuffer.load
count_loop_lem zero m prev p k xs s enough few = absurd (omega arith)
count_loop_lem (suc fuel) m prev p k [] s enough few =
    let (z, _) = s in let e : m ≡ m + 0 = omega arith in ground (arith, e)
count_loop_lem (suc fuel) m prev p k ((a, c) ∷ xs) (e, an, at, back, ic, out, rest) enough few =
    let go = count_loop_lem fuel (m + 1) a c.next k xs rest (omega arith) (omega arith) in
    let one : (m + 1) % u32_mod ≡ m + 1 = omega arith in
    let at' : k.chunks p ≡ some c = ap k.chunks e ∙ at in
    let total : m + 1 + length xs ≡ m + suc (length xs) = omega arith in
    ground (arith, go, one, at', total)

length-queue : (xs : Cells) → length (queue xs) ≡ length xs
length-queue [] = refl
length-queue ((a, c) ∷ xs) = omega (arith, length-queue xs)

count_lem :
    (fuel : ℕ) (k : Kbuffer) (xs : Cells)
    → IsKbuffer k xs
    → length xs < fuel
    → length xs < int_sign
    → Kbuffer.get_chunk_count fuel k ≡ (ok (some (length (queue xs))), k)
unfolding Kbuffer.get_chunk_count
count_lem fuel k xs is enough few =
    let e : 0 + length xs ≡ length (queue xs) = omega (arith, length-queue xs) in
    count_loop_lem fuel 0 null k.head k xs is.chain enough (omega arith)
    ∙ ap (λ n. (ok (some n), k)) e

-- A kbuffer is read as its queue: `kbuffer_get_contiguous_data` points to the bytes of the front
-- chunk, `kbuffer_get_size` is the number of all bytes, and `kbuffer_get_chunk_count`, with more
-- fuel than there are chunks and fewer than 2 ^ 31 of them, is the length of the queue; none of them
-- changes the kbuffer.
pub get_contiguous_data_lem :
    (fuel : ℕ) (k : Kbuffer) (xs : Cells)
    → IsKbuffer k xs
    → length xs < fuel
    → length xs < int_sign
    → (Kbuffer.get_contiguous_data k ≡ (ok (front (queue xs)), k))
      × (Kbuffer.get_size k ≡ length (flatten (queue xs)))
      × (Kbuffer.get_chunk_count fuel k ≡ (ok (some (length (queue xs))), k))
unfolding Kbuffer.get_contiguous_data Kbuffer.get_size Kbuffer.load
get_contiguous_data_lem fuel k [] is enough few =
    let (h, t) = is.chain in (ground arith, is.size, count_lem fuel k [] is enough few)
get_contiguous_data_lem fuel k ((a, c) ∷ xs) is enough few =
    let (hn, at) = head_lem fuel 0 (omega arith) k a c xs is in
    let (l, f) = left_lem fuel 0 (omega arith) k a c xs is in
    let all : take (int_sub c.size c.pt) (unread c) ≡ unread c =
      take-all (int_sub c.size c.pt) (unread c) (omega (arith, l)) in
    (ground (arith, hn, at, all), is.size, count_lem fuel k ((a, c) ∷ xs) is enough few)
