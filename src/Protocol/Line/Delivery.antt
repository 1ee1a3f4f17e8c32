-- ===== src/Protocol/Line/Delivery.antt =====
-- What a client of `LineProtocol` gets from the bytes in its reading buffer.
use coconut.Base
use coconut.Base.{
  ℕ, zero, suc, ◌+◌, ◌-◌, ◌≤◌, ◌<◌, ◌≡◌, refl, sym, ap, ◌∙◌, arith, Bool, true, false, List, [],
  ◌∷◌, ◌++◌, Bytes, take, drop, length-append, length-drop, take-append, take-append-drop, take-all,
  drop-append, append_assoc, append-nil, ◌==◌, int_sign, Result, ok, fault, bind-ok, Bool-cases,
  inl, inr,
}
use coconut.Buffer
use coconut.Buffer.{BufferedTransport}
use coconut.Buffer.Valid.{IsValid, remaining, read_short}
use coconut.Protocol.Line
use coconut.Protocol.Line.Scan.{NoNewline, ended, ended_unix, with_line, scan_lem}
use coconut.Protocol.Line.{LineProtocol}

-- The protocol whose reading buffer is read to its end.
abbrev pub at_end : LineProtocol → LineProtocol
at_end p = record p {
  read_buffer = record (p.read_buffer) { read_pos = Base.length p.read_buffer.buffer };
}

-- The bytes that remain are a suffix of those that were scanned.
suffix_unix :
    (l : Bytes) (x : ℕ) (rest : Bytes)
    → (pre : Bytes) × (l ++ x ∷ 10 ∷ rest ≡ pre ++ (ended_unix l x rest).1)
suffix_unix l x [] = (l ++ x ∷ 10 ∷ [], sym (append-nil (l ++ x ∷ 10 ∷ [])))
suffix_unix l x (c ∷ cs) = elim (Bool-cases (c == 13)) [
  | inl h ↦ rw h (l ++ x ∷ 10 ∷ c ∷ [], sym (append_assoc l (x ∷ 10 ∷ c ∷ []) cs))
  | inr h ↦ rw h (l ++ x ∷ 10 ∷ [], sym (append_assoc l (x ∷ 10 ∷ []) (c ∷ cs)))
]

suffix_lem :
    (l : Bytes) (x : ℕ) (rest : Bytes)
    → (pre : Bytes) × (l ++ x ∷ 10 ∷ rest ≡ pre ++ (ended l x rest).1)
suffix_lem l x rest = elim (Bool-cases (x == 13)) [
  | inl h ↦ rw h (l ++ x ∷ 10 ∷ [], sym (append_assoc l (x ∷ 10 ∷ []) rest))
  | inr h ↦ rw h (suffix_unix l x rest)
]

-- A protocol that is complete and has read `rest` behind its line, with `tail` unread.
module _ (p : LineProtocol) (pre rest tail : Bytes) (done : p.read_complete ≡ true)
    (size : p.remain_read_buffer_size ≡ Base.length rest)
    (e : p.read_buffer.buffer ≡ pre ++ (rest ++ tail))
    (pos : p.read_buffer.read_pos ≡ Base.length pre + Base.length rest)
    (fits : Base.length p.read_buffer.buffer < int_sign) where
  total : Base.length p.read_buffer.buffer ≡ Base.length pre + (Base.length rest + Base.length tail)
  total =
      ap Base.length e
      ∙ length-append pre (rest ++ tail)
      ∙ ap (λ (n : ℕ). Base.length pre + n) (length-append rest tail)

  size_lem : Line.remaining_buffer_size p ≡ Base.length rest
  unfolding Line.remaining_buffer_size
  size_lem = ground (arith, total)

  ptr_lem : Line.remaining_buffer_ptr p ≡ Base.length pre
  unfolding Line.remaining_buffer_ptr
  ptr_lem = ground (arith, total)

  bytes_lem : take (Base.length rest) (drop (Base.length pre) p.read_buffer.buffer) ≡ rest
  bytes_lem = rw e (
      rw (drop-append (Base.length pre) pre (rest ++ tail) refl)
        (take-append (Base.length rest) rest tail refl))

  pub remaining_lem : Line.remaining_bytes p ≡ ok rest
  unfolding Line.remaining_bytes Buffer.total_size
  remaining_lem = rw (ptr_lem, size_lem) (ground (arith, total, bytes_lem))

pub read_lem :
    (p : LineProtocol)
    → IsValid p.read_buffer
    → Base.length (remaining p.read_buffer) ≤ 4096
    → Line.on_read_buffer (Buffer.read Line.buffer_size) p
      ≡ (ok (remaining p.read_buffer), at_end p)
read_lem p v few =
    let n = length-drop p.read_buffer.read_pos p.read_buffer.buffer in
    ap (λ o. (o.0, record p { read_buffer = o.1 }))
      (read_short 4096 p.read_buffer v (omega (arith, n)))

process_read_lem :
    (l : Bytes) (x : ℕ) (rest : Bytes) (p : LineProtocol)
    → NoNewline (l ++ x ∷ [])
    → IsValid p.read_buffer
    → remaining p.read_buffer ≡ l ++ x ∷ 10 ∷ rest
    → Base.length l + 2 + Base.length rest ≤ 4096
    → Line.process_read p ≡ (ok true, with_line (ended l x rest) (at_end p))
unfolding Line.process_read
process_read_lem l x rest p clean v r few =
    let n : Base.length (remaining p.read_buffer) ≡ Base.length l + (2 + Base.length rest) =
      ap Base.length r ∙ length-append l (x ∷ 10 ∷ rest) ∙ omega arith in
    ap Line.caught (
      bind-ok (Line.on_read_buffer (Buffer.read Line.buffer_size))
        (λ chunk. Line.scan chunk 0 chunk) (read_lem p v (omega (arith, n)))
      ∙ ap (λ (chunk : Bytes). Line.scan chunk 0 chunk (at_end p)) r
      ∙ scan_lem l x rest (at_end p) clean)

-- The unread bytes of a valid buffer, at most the 4096 that one call reads, begin with a line of
-- at least one byte and a line feed: `processRead` completes, the line joins what earlier calls
-- have kept, and the remaining bytes are those behind the delimiter. A carriage return before the
-- line feed belongs to the delimiter. One behind it does too, unless there is one before it, and
-- then the last byte of the line is dropped.
pub process_read-line :
    (l : Bytes) (x : ℕ) (rest : Bytes) (p : LineProtocol)
    → NoNewline (l ++ x ∷ [])
    → IsValid p.read_buffer
    → remaining p.read_buffer ≡ l ++ x ∷ 10 ∷ rest
    → Base.length l + 2 + Base.length rest ≤ 4096
    → let (r, p') = Line.process_read p in
      (r ≡ ok true)
      × (p'.line ≡ p.line ++ (ended l x rest).0)
      × (Line.remaining_bytes p' ≡ ok (ended l x rest).1)
process_read-line l x rest p clean v r few =
    let e = process_read_lem l x rest p clean v r few in
    let b = p.read_buffer in
    let (pre, s) = suffix_lem l x rest in
    let whole : b.buffer ≡ (take b.read_pos b.buffer ++ pre) ++ (ended l x rest).1 =
      sym (take-append-drop b.read_pos b.buffer)
      ∙ ap (λ (ys : Bytes). take b.read_pos b.buffer ++ ys) (r ∙ s)
      ∙ sym (append_assoc (take b.read_pos b.buffer) pre (ended l x rest).1) in
    (
      ap (λ o. o.0) e,
      ap (λ o. o.1.line) e,
      ap (λ o. Line.remaining_bytes o.1) e
          ∙ remaining_lem (with_line (ended l x rest) (at_end p)) (take b.read_pos b.buffer ++ pre)
              (ended l x rest).1 [] refl refl (whole ∙ rw append-nil refl)
              (ap Base.length whole
                ∙ length-append (take b.read_pos b.buffer ++ pre) (ended l x rest).1)
              v.fits,
    )

-- The unread bytes of a valid buffer, at most the 4096 that one call reads, begin with a line
-- feed, as behind a delimiter of two bytes that the end of a chunk has cut: the byte before the
-- array is read.
pub process_read-first_newline :
    (rest : Bytes) (p : LineProtocol)
    → IsValid p.read_buffer
    → remaining p.read_buffer ≡ 10 ∷ rest
    → Base.length rest + 1 ≤ 4096
    → (Line.process_read p).0 ≡ fault
unfolding Line.process_read Line.scan Line.found
process_read-first_newline rest p v r few =
    ap (λ o. (Line.caught o).0)
      (bind-ok (Line.on_read_buffer (Buffer.read Line.buffer_size))
          (λ chunk. Line.scan chunk 0 chunk) (read_lem p v (omega (arith, ap Base.length r)))
        ∙ ap (λ (chunk : Bytes). Line.scan chunk 0 chunk (at_end p)) r)
