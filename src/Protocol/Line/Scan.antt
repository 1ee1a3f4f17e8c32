-- ===== src/Protocol/Line/Scan.antt =====
-- What `LineProtocol::processRead` makes of the bytes that it reads.
use coconut.Base
use coconut.Base.{
  ℕ, zero, suc, ◌+◌, ◌-◌, ◌≤◌, ◌<◌, ◌≡◌, refl, sym, ap, ◌∙◌, arith, Bool, true, false, List, [],
  ◌∷◌, ◌++◌, Option, none, some, Bytes, get_elem?, take, drop, length-append, length-drop,
  take-append, take-append_le, take-all, drop-append, append_assoc, ltb, ◌==◌, if◌then◌else◌,
  int_sign, Result, ok, throws, fault, M, pure, bind-ok, Bool-cases, inl, inr,
}
use coconut.Protocol.Line
use coconut.Protocol.Line.{LineProtocol}

-- No line feed among these.
abbrev pub NoNewline : Bytes → Type 0
NoNewline [] = Unit
NoNewline (c ∷ cs) = ((c == 10) ≡ false) × NoNewline cs

pub scan_over :
    (chunk : Bytes) (i : ℕ) (xs rest : Bytes)
    → NoNewline xs
    → Line.scan chunk i (xs ++ rest) ≡ Line.scan chunk (i + Base.length xs) rest
unfolding Line.scan
scan_over chunk i [] rest _ = ap (λ (n : ℕ). Line.scan chunk n rest) (omega arith)
scan_over chunk i (x ∷ xs) rest (h, hs) =
    rw (Line.scan, h)
      (scan_over chunk (i + 1) xs rest hs ∙ ap (λ (n : ℕ). Line.scan chunk n rest) (omega arith))

get_elem?-append :
    (xs : Bytes) (x : ℕ) (ys : Bytes) → get_elem? (xs ++ x ∷ ys) (Base.length xs) ≡ some x
get_elem?-append [] x ys = refl
get_elem?-append (c ∷ cs) x ys = get_elem?-append cs x ys

-- The line and the bytes behind it, for `l`, a byte `x`, a line feed and `rest`.
abbrev pub ended_unix : Bytes → ℕ → Bytes → Bytes × Bytes
ended_unix l x [] = (l ++ x ∷ [], [])
ended_unix l x (c ∷ cs) = if c == 13 then (l, cs) else (l ++ x ∷ [], c ∷ cs)

abbrev pub ended : Bytes → ℕ → Bytes → Bytes × Bytes
ended l x rest = if x == 13 then (l, rest) else ended_unix l x rest

-- The protocol behind a line.
abbrev pub with_line : Bytes × Bytes → LineProtocol → LineProtocol
with_line (l, rest) p = record p {
  line = p.line ++ l;
  read_complete = true;
  remain_read_buffer_size = Base.length rest;
}

complete_lem :
    (chunk l r : Bytes) (i addition delim_size : ℕ) (p : LineProtocol)
    → take (i - (delim_size - 1)) chunk ≡ l
    → Base.length chunk - i - (1 + addition) ≡ Base.length r
    → Line.complete chunk i addition delim_size p ≡ (ok true, with_line (l, r) p)
unfolding Line.complete
complete_lem chunk l r i addition delim_size p t n = rw (t, n) refl

-- The chunk of a line feed behind `l` and `x`, cut where a delimiter of two bytes and of one cut it.
chunk_lem :
    (l : Bytes) (x : ℕ) (rest : Bytes)
    → let chunk = l ++ x ∷ 10 ∷ rest in
      (take (Base.length l + 1 - 1) chunk ≡ l)
      × (take (Base.length l + 1 - 0) chunk ≡ l ++ x ∷ [])
      × (Base.length chunk ≡ Base.length l + (2 + Base.length rest))
chunk_lem l x rest = (
  take-append (Base.length l + 1 - 1) l (x ∷ 10 ∷ rest) (omega arith),
  ap (take (Base.length l + 1 - 0)) (sym (append_assoc l (x ∷ []) (10 ∷ rest)))
      ∙ take-append (Base.length l + 1 - 0) (l ++ x ∷ []) (10 ∷ rest)
          (length-append l (x ∷ []) ∙ omega arith),
  length-append l (x ∷ 10 ∷ rest) ∙ omega arith,
)

line_feed_lem :
    (l : Bytes) (x : ℕ) (rest : Bytes) (p : LineProtocol)
    → Line.line_feed (l ++ x ∷ 10 ∷ rest) (Base.length l + 1) rest p
      ≡ (ok true, with_line (ended_unix l x rest) p)
unfolding Line.line_feed
line_feed_lem l x [] p =
    let (short, long, n) = chunk_lem l x [] in
    complete_lem (l ++ x ∷ 10 ∷ []) (l ++ x ∷ []) [] (Base.length l + 1) 0 1 p long
      (omega (arith, n))
line_feed_lem l x (c ∷ cs) p =
    let (short, long, n) = chunk_lem l x (c ∷ cs) in
    let chunk = l ++ x ∷ 10 ∷ c ∷ cs in
    elim (Bool-cases (c == 13)) [
      | inl h ↦ rw h (complete_lem chunk l cs (Base.length l + 1) 1 2 p short (omega (arith, n)))
      | inr h ↦ rw h (
          complete_lem chunk (l ++ x ∷ []) (c ∷ cs) (Base.length l + 1) 0 1 p long
            (omega (arith, n)))
    ]

found_lem :
    (l : Bytes) (x : ℕ) (rest : Bytes) (p : LineProtocol)
    → Line.found (l ++ x ∷ 10 ∷ rest) (Base.length l + 1) (some x) rest p
      ≡ (ok true, with_line (ended l x rest) p)
unfolding Line.found
found_lem l x rest p =
    let (short, long, n) = chunk_lem l x rest in
    elim (Bool-cases (x == 13)) [
      | inl h ↦ rw h (
          complete_lem (l ++ x ∷ 10 ∷ rest) l rest (Base.length l + 1) 0 2 p short
            (omega (arith, n)))
      | inr h ↦ rw h (line_feed_lem l x rest p)
    ]

scan-found :
    (chunk : Bytes) (i : ℕ) (rest : Bytes)
    → Line.scan chunk i (10 ∷ rest) ≡ Line.found chunk i (Line.before chunk i) rest
unfolding Line.scan
scan-found chunk i rest = refl

-- The scan of a whole chunk with a line feed.
pub scan_lem :
    (l : Bytes) (x : ℕ) (rest : Bytes) (p : LineProtocol)
    → NoNewline (l ++ x ∷ [])
    → Line.scan (l ++ x ∷ 10 ∷ rest) 0 (l ++ x ∷ 10 ∷ rest) p
      ≡ (ok true, with_line (ended l x rest) p)
scan_lem l x rest p clean =
    let chunk = l ++ x ∷ 10 ∷ rest in
    let n : 0 + Base.length (l ++ x ∷ []) ≡ Base.length l + 1 =
      omega (arith, length-append l (x ∷ [])) in
    let at_suc : Base.length l + 1 ≡ suc (Base.length l) = omega arith in
    let at : Line.before chunk (Base.length l + 1) ≡ some x =
      ap (Line.before chunk) at_suc ∙ get_elem?-append l x (10 ∷ rest) in
    ap (λ (bytes : Bytes). Line.scan chunk 0 bytes p) (sym (append_assoc l (x ∷ []) (10 ∷ rest)))
    ∙ ap (λ f. f p) (scan_over chunk 0 (l ++ x ∷ []) (10 ∷ rest) clean)
    ∙ ap (λ (i : ℕ). Line.scan chunk i (10 ∷ rest) p) n
    ∙ ap (λ f. f p) (scan-found chunk (Base.length l + 1) rest)
    ∙ ap (λ b. Line.found chunk (Base.length l + 1) b rest p) at
    ∙ found_lem l x rest p
