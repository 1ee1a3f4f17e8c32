-- ===== src/Protocol/Line/Chunks.antt =====
-- Lines that are longer than a chunk, or chunks that are longer than one call reads.
use coconut.Base
use coconut.Base.{
  ℕ, zero, suc, ◌+◌, ◌-◌, ◌≤◌, ◌<◌, ◌≡◌, refl, sym, ap, ◌∙◌, arith, Bool, true, false, List, [],
  ◌∷◌, ◌++◌, Bytes, take, drop, length-append, length-drop, length-take, take-append,
  take-append-drop, take-all, drop-append, drop-all, append_assoc, append-nil, ◌==◌, int_sign,
  Result, ok, fault, bind-ok,
}
use coconut.Buffer
use coconut.Buffer.{BufferedTransport}
use coconut.Buffer.Valid.{IsValid, remaining, read_enough}
use coconut.Protocol.Line
use coconut.Protocol.Line.Delivery.{at_end, read_lem, remaining_lem, process_read-line}
use coconut.Protocol.Line.Scan.{NoNewline, ended, with_line, scan_lem, scan_over}
use coconut.Protocol.Line.{LineProtocol}
use coconut.Wire

-- A protocol from `makeProtocol` that was given these bytes to read.
abbrev pub received : Bytes → LineProtocol
received bytes = record Line.make { read_buffer = record { buffer = bytes; read_pos = 0 } }

scan_end :
    (chunk : Bytes) (i : ℕ) (p : LineProtocol)
    → Line.scan chunk i [] p ≡ (ok false, record p { line = p.line ++ chunk })
unfolding Line.scan
scan_end chunk i p = refl

scan_none :
    (chunk : Bytes) (p : LineProtocol)
    → NoNewline chunk
    → Line.scan chunk 0 chunk p ≡ (ok false, record p { line = p.line ++ chunk })
scan_none chunk p clean =
    ap (λ (bytes : Bytes). Line.scan chunk 0 bytes p) (sym (append-nil chunk))
    ∙ ap (λ f. f p) (scan_over chunk 0 chunk [] clean)
    ∙ scan_end chunk (0 + Base.length chunk) p

-- The first chunk of a line is kept.
kept_lem :
    (part : Bytes)
    → NoNewline part
    → Base.length part ≤ 4096
    → Line.process_read (received part)
      ≡ (ok false, record (at_end (received part)) { line = part })
unfolding Line.process_read
kept_lem part clean few = ap Line.caught (
    bind-ok (Line.on_read_buffer (Buffer.read Line.buffer_size)) (λ chunk. Line.scan chunk 0 chunk)
      (read_lem (received part) (omega arith) few)
    ∙ scan_none part (at_end (received part)) clean)

-- A line whose first bytes, none of them a line feed, are a chunk of their own: the first call
-- returns false, and the second one completes the line that both chunks make up, with the bytes
-- behind its delimiter remaining. Each chunk is at most the 4096 bytes that one call reads.
pub process_read-two_line_chunks :
    (part l : Bytes) (x : ℕ) (rest : Bytes)
    → NoNewline part
    → NoNewline (l ++ x ∷ [])
    → Base.length part ≤ 4096
    → Base.length l + 2 + Base.length rest ≤ 4096
    → let (r1, p1) = Line.process_read (received part) in
      let (r2, p2) = Line.process_read (Line.add_to_reading_buffer (l ++ x ∷ 10 ∷ rest) p1).1 in
      (r1 ≡ ok false)
      × (r2 ≡ ok true)
      × (p2.line ≡ part ++ (ended l x rest).0)
      × (Line.remaining_bytes p2 ≡ ok (ended l x rest).1)
unfolding Line.add_to_reading_buffer Buffer.write
process_read-two_line_chunks part l x rest clean clean' few few' =
    let q = record (at_end (received part)) {
      line = part;
      read_buffer = record { buffer = part ++ (l ++ x ∷ 10 ∷ rest); read_pos = Base.length part };
    } in
    let n = length-append part (l ++ x ∷ 10 ∷ rest) in
    let n' = length-append l (x ∷ 10 ∷ rest) in
    let (done, line, bytes) =
      process_read-line l x rest q clean' (omega arith)
        (drop-append (Base.length part) part (l ++ x ∷ 10 ∷ rest) refl) few' in
    rw (kept_lem part clean few) (refl, done, line, bytes)

NoNewline-append : (xs : Bytes) → NoNewline xs → NoNewline (xs ++ 13 ∷ [])
NoNewline-append [] _ = (refl, tt)
NoNewline-append (x ∷ xs) (h, hs) = (h, NoNewline-append xs hs)

-- A line without a line feed in it that is set and serialized is read back, with the bytes behind
-- it remaining, as long as one call can read all of it.
pub process_read-process_serialize :
    (text rest : Bytes)
    → NoNewline text
    → Base.length text + 2 + Base.length rest ≤ 4096
    → let (s, q) = Line.process_serialize (record Line.make { line = text }) in
      let (r, p) = Line.process_read (received (q.writebuffer.buffer ++ rest)) in
      (s ≡ ok true) × (r ≡ ok true) × (p.line ≡ text) × (Line.remaining_bytes p ≡ ok rest)
unfolding Line.process_serialize Buffer.clear Buffer.write Wire.write_binary
process_read-process_serialize text rest clean few =
    let e = append_assoc text (13 ∷ 10 ∷ []) rest in
    let n = length-append text (13 ∷ 10 ∷ rest) in
    let (done, line, bytes) =
      process_read-line text 13 rest (received (text ++ 13 ∷ 10 ∷ rest))
        (NoNewline-append text clean) (omega arith) refl few in
    (refl, rw e done, rw e line, rw e bytes)

-- The 4096 bytes that one call reads, and what it leaves.
first_bytes :
    (l rest : Bytes)
    → Base.length l + 2 ≤ 4096
    → 4096 ≤ Base.length l + 2 + Base.length rest
    → let k = 4094 - Base.length l in
      (l ++ 13 ∷ 10 ∷ rest ≡ (l ++ 13 ∷ 10 ∷ take k rest) ++ drop k rest)
      × (take 4096 (l ++ 13 ∷ 10 ∷ rest) ≡ l ++ 13 ∷ 10 ∷ take k rest)
      × (Base.length (take k rest) ≡ k)
first_bytes l rest few more =
    let k = 4094 - Base.length l in
    let chunk = l ++ 13 ∷ 10 ∷ take k rest in
    let n : Base.length (take k rest) ≡ k = length-take k rest ∙ omega arith in
    let m : Base.length chunk ≡ 4096 = length-append l (13 ∷ 10 ∷ take k rest) ∙ omega (arith, n) in
    let e : l ++ 13 ∷ 10 ∷ rest ≡ chunk ++ drop k rest =
      ap (λ (xs : Bytes). l ++ 13 ∷ 10 ∷ xs) (sym (take-append-drop k rest))
      ∙ sym (append_assoc l (13 ∷ 10 ∷ take k rest) (drop k rest)) in
    (e, ap (take 4096) e ∙ take-append 4096 chunk (drop k rest) m, n)

-- At least as many unread bytes as one call reads, with a line that ends in a carriage return and
-- a line feed among the first 4096 of them: the line is found, but the remaining bytes stop where
-- the call has stopped reading, so that a client that goes on with them never sees the others.
pub process_read-long :
    (l rest : Bytes) (p : LineProtocol)
    → NoNewline l
    → IsValid p.read_buffer
    → remaining p.read_buffer ≡ l ++ 13 ∷ 10 ∷ rest
    → Base.length l + 2 ≤ 4096
    → 4096 ≤ Base.length l + 2 + Base.length rest
    → let (r, p') = Line.process_read p in
      (r ≡ ok true)
      × (p'.line ≡ p.line ++ l)
      × (Line.remaining_bytes p' ≡ ok (take (4094 - Base.length l) rest))
unfolding Line.process_read
process_read-long l rest p clean v r few more =
    let b = p.read_buffer in
    let k = 4094 - Base.length l in
    let (e, head, n) = first_bytes l rest few more in
    let m = ap Base.length r ∙ length-append l (13 ∷ 10 ∷ rest) in
    let q = record p { read_buffer = record b { read_pos = b.read_pos + 4096 } } in
    let got : Line.on_read_buffer (Buffer.read Line.buffer_size) p
        ≡ (ok (l ++ 13 ∷ 10 ∷ take k rest), q) =
      ap (λ o. (o.0, record p { read_buffer = o.1 }))
        (read_enough 4096 b v (omega (arith, m, length-drop b.read_pos b.buffer)))
      ∙ ap (λ (xs : Bytes). (ok xs, q)) (ap (take 4096) r ∙ head) in
    let run = ap Line.caught (
      bind-ok (Line.on_read_buffer (Buffer.read Line.buffer_size))
        (λ chunk. Line.scan chunk 0 chunk) got
      ∙ scan_lem l 13 (take k rest) q (NoNewline-append l clean)) in
    let pre = take b.read_pos b.buffer ++ (l ++ 13 ∷ 10 ∷ []) in
    let whole : b.buffer ≡ pre ++ (take k rest ++ drop k rest) =
      sym (take-append-drop b.read_pos b.buffer)
      ∙ ap (λ (ys : Bytes). take b.read_pos b.buffer ++ ys)
          (r
            ∙ ap (λ (xs : Bytes). l ++ 13 ∷ 10 ∷ xs) (sym (take-append-drop k rest))
            ∙ sym (append_assoc l (13 ∷ 10 ∷ []) (take k rest ++ drop k rest)))
      ∙ sym (
          append_assoc (take b.read_pos b.buffer) (l ++ 13 ∷ 10 ∷ [])
            (take k rest ++ drop k rest)) in
    (
      ap (λ o. o.0) run,
      ap (λ o. o.1.line) run,
      ap (λ o. Line.remaining_bytes o.1) run
          ∙ remaining_lem (with_line (l, take k rest) q) pre (take k rest) (drop k rest) refl refl
              whole
              (omega (
                arith,
                n,
                length-append (take b.read_pos b.buffer) (l ++ 13 ∷ 10 ∷ []),
                length-append l (13 ∷ 10 ∷ []),
                length-take b.read_pos b.buffer,
              ))
              v.fits,
    )
