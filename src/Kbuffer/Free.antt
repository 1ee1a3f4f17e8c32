-- ===== src/Kbuffer/Free.antt =====
-- `_kbuffer_chuck_free` of the first chunk, and `kbuffer_free`.
use coconut.Base.{
  ℕ, zero, suc, ◌<◌, ◌≡◌, ◌≢◌, refl, sym, ap, ◌∙◌, arith, true, false, [], ◌∷◌, none, some, length,
  ◌==◌, append-nil, length-append, length-drop, ok, bind-ok,
}
use coconut.Kbuffer
use coconut.Kbuffer.Seg.{
  Cells, contents, unread, IsChunk, IsKbuffer, frame, last_lem, reprev, length-reprev, write-same,
  write-other, has-cons_false, has-cons_ne, write-none, ne_of_has,
}
use coconut.Kbuffer.{Chunk, Store, Kbuffer, null, write, int_sub}

-- What is left to read of a chunk, as the code computes it.
pub unread_size : (c : Chunk) → IsChunk c → int_sub c.size c.pt ≡ length (unread c)
unread_size c is = omega (arith, length-drop c.pt c.data_block, is.size, is.pt, is.fits)

module _ (k : Kbuffer) (c : Chunk) (hn : k.head ≢ null) (at : k.chunks k.head ≡ some c)
    (first : c.prev ≡ null) where
  free_only :
      c.next ≡ null
      → k.tail ≡ k.head
      → Kbuffer.chunk_free k.head k ≡ (
        ok c.next,
        record {
          size = int_sub k.size (int_sub c.size c.pt);
          head = c.next;
          tail = c.prev;
          chunks = write k.chunks k.head none;
        },
      )
  unfolding Kbuffer.chunk_free Kbuffer.load
  free_only last t = ground arith

  free_front :
      (d : Chunk)
      → c.next ≢ null
      → k.chunks c.next ≡ some d
      → k.tail ≢ k.head
      → Kbuffer.chunk_free k.head k ≡ (
        ok c.next,
        record {
          size = int_sub k.size (int_sub c.size c.pt);
          head = c.next;
          tail = k.tail;
          chunks = write (write k.chunks c.next (some (record d { prev = c.prev }))) k.head none;
        },
      )
  unfolding Kbuffer.chunk_free Kbuffer.load Kbuffer.set_prev
  free_front d nn at' t = ground arith

-- The first chunk of a kbuffer is given back, and the rest is a kbuffer of its own.
pub chunk_free_lem :
    (k : Kbuffer) (a : ℕ) (c : Chunk) (xs : Cells)
    → IsKbuffer k ((a, c) ∷ xs)
    → (k' : Kbuffer) × (Kbuffer.chunk_free k.head k ≡ (ok c.next, k'))
      × IsKbuffer k' (reprev xs null)
      × (k'.head ≡ c.next)
chunk_free_lem k a c [] is =
    let (e, an, at, back, ic, out, (z, t)) = is.chain in
    let n = unread_size c ic in
    let m : length (contents ((a, c) ∷ [])) ≡ length (unread c) =
      ap length (append-nil (unread c)) in
    (
      _,
      free_only k c (λ q. an (sym e ∙ q)) (ap k.chunks e ∙ at) back z (t ∙ sym e),
      record {
        owned = λ m _.
            write-none k.chunks k.head m
              (λ q. is.owned m (has-cons_ne m a c [] (λ w. q (w ∙ sym e)) refl));
        chain = (z, back);
        size = omega (arith, is.size, n, m, is.fits);
        fits = omega arith;
      },
      refl,
    )
chunk_free_lem k a c ((b, d) ∷ ys) is =
    let (e, an, at, back, ic, out, rest) = is.chain in
    let (e', bn, at', back', id, out', rest') = rest in
    let (_, _, _, i) = last_lem k.chunks a c.next k.tail (b, d) ys rest in
    let n = unread_size c ic in
    let m = length-append (unread c) (contents ((b, d) ∷ ys)) in
    let ab : a ≢ b = (has-cons_false a b d ys out).0 in
    let moved = some (record d { prev = c.prev }) in
    let h1 = write k.chunks c.next moved in
    let (_, ays) = has-cons_false a b d ys out in
    (
      _,
      free_front k c (λ q. an (sym e ∙ q)) (ap k.chunks e ∙ at) back d (λ q. bn (sym e' ∙ q))
          (ap k.chunks e' ∙ at') (λ q. ne_of_has a k.tail ((b, d) ∷ ys) out i (sym e ∙ sym q)),
      record {
        owned = λ m away. write-none h1 k.head m (λ q.
            write-other k.chunks c.next moved m (λ w. (has-cons_false m b d ys away).0 (w ∙ e'))
            ∙ is.owned m (has-cons_ne m a c ((b, d) ∷ ys) (λ w. q (w ∙ sym e)) away));
        chain = (
          e',
          bn,
          write-other h1 k.head none b (λ q. ab (sym (q ∙ e)))
              ∙ ap h1 (sym e')
              ∙ write-same k.chunks c.next moved
              ∙ ap (λ (z : ℕ). some (record d { prev = z })) back,
          refl,
          record { size = id.size; pt = id.pt; fits = id.fits },
          out',
          frame k.chunks (write h1 k.head none) b d.next k.tail ys rest' (λ m j.
              write-other h1 k.head none m (λ q. ne_of_has a m ys ays j (sym (q ∙ e)))
              ∙ write-other k.chunks c.next moved m (λ q. ne_of_has b m ys out' j (sym (q ∙ e')))),
        );
        size = omega (arith, is.size, n, m, is.fits);
        fits = omega (arith, is.fits, m);
      },
      refl,
    )

-- What `free_loop` leaves behind of a kbuffer, once its fuel passes the number of chunks.
free_loop_lem :
    (fuel : ℕ) (k : Kbuffer) (xs : Cells)
    → IsKbuffer k xs
    → length xs < fuel
    → (k' : Kbuffer) × (Kbuffer.free_loop fuel k.head k ≡ (ok true, k')) × IsKbuffer k' []
unfolding Kbuffer.free_loop
free_loop_lem zero k xs is enough = absurd (omega arith)
free_loop_lem (suc fuel) k [] is enough = let (h, t) = is.chain in (k, ground arith, is)
free_loop_lem (suc fuel) k ((a, c) ∷ xs) is enough =
    let (k', run, is', h) = chunk_free_lem k a c xs is in
    let (e, an, _, _, _, _, _) = is.chain in
    let few : length (reprev xs null) < fuel = omega (arith, length-reprev xs null) in
    let (k'', rest, done) = free_loop_lem fuel k' (reprev xs null) is' few in
    let n : (k.head == null) ≡ false = ground arith in
    (
      k'',
      rw n (
          bind-ok (Kbuffer.chunk_free k.head) (Kbuffer.free_loop fuel) run
          ∙ ap (λ p. Kbuffer.free_loop fuel p k') (sym h)
          ∙ rest),
      done,
    )

-- `kbuffer_free` ends, with more fuel than the kbuffer has chunks, and has given back all of them:
-- no address holds a chunk afterwards.
pub kbuffer_free_lem :
    (fuel : ℕ) (k : Kbuffer) (xs : Cells)
    → IsKbuffer k xs
    → length xs < fuel
    → (k' : Kbuffer) × (Kbuffer.kbuffer_free fuel k ≡ (ok true, k'))
      × ((a : ℕ) → k'.chunks a ≡ none)
      × (k'.head ≡ null)
      × (k'.tail ≡ null)
      × (k'.size ≡ 0)
unfolding Kbuffer.kbuffer_free
kbuffer_free_lem fuel k xs is enough =
    let (k', run, is') = free_loop_lem fuel k xs is enough in
    let (h, t) = is'.chain in (k', run, (λ a. is'.owned a refl), h, t, is'.size)
