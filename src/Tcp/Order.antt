-- ===== src/Tcp/Order.antt =====
-- What a connected socket with events sends, in order, and what is left in its kbuffer.
use mathlib.Core.Path.{subst}
use coconut.Base.{
  and_true, ℕ, ◌+◌, ◌≤◌, ◌<◌, ◌≡◌, refl, sym, ap, ◌∙◌, arith, true, false, List, [], ◌∷◌, ◌++◌,
  Bytes, length, take, ◌==◌, ◌⊎◌, Bool-cases, inl, inr, append-nil, append_assoc, length-append,
  length-take, take-append_le, take-append-drop, int_sign,
}
use coconut.Kbuffer.Queue.{Queue, flatten, front, drain, flatten-append, flatten-drain}
use coconut.Tcp.{TcpSocket}
use coconut.Tcp.Transfer.{Sent, took, refused, eagain}
use coconut.Tcp.Sending.{
  Sending, Io, write, writable, queue_of, on_wire, answers_well, after, sent_by, written_by, fits,
  play, sent, written, fit, write-Sending, write-nothing, writable-took, writable-refused,
  idle-Sending,
}

take-front : (n : ℕ) (q : Queue) → n ≤ length (front q) → take n (front q) ≡ take n (flatten q)
take-front n [] h = refl
take-front n (c ∷ q) h = sym (take-append_le n c (flatten q) h)

-- Taking n bytes of the front chunk moves them from the queue to the wire.
pub drain-wire :
    (n : ℕ) (q : Queue) → n ≤ length (front q) → take n (front q) ++ flatten (drain n q) ≡ flatten q
drain-wire n q h =
    ap (λ (l : Bytes). l ++ flatten (drain n q)) (take-front n q h)
    ∙ ap (λ (l : Bytes). take n (flatten q) ++ l) (flatten-drain n q)
    ∙ take-append-drop n (flatten q)

empty_lem : (l : Bytes) → length l ≡ 0 → l ≡ []
empty_lem [] h = refl
empty_lem (b ∷ l) h = absurd (omega arith)

front_le : (q : Queue) → length (front q) ≤ length (flatten q)
front_le [] = omega arith
front_le (c ∷ q) = omega (arith, length-append c (flatten q))

-- One step of a list: what it sends and what is left are what was left and what it writes.
StepsTo : Io → TcpSocket → Queue → Type 0
StepsTo x s q =
    (r : Queue) × Sending false (after x s) r
    × (sent_by x s ++ flatten r ≡ flatten q ++ written_by x)

write-StepsTo : (b : Bytes) (s : TcpSocket) (q : Queue) → Sending false s q → StepsTo (write b) s q
unfolding StepsTo
write-StepsTo [] s q h = (
  q,
  subst (λ t. Sending false t q) (sym (write-nothing false s q h)) h,
  sym (append-nil (flatten q)),
)
write-StepsTo (b ∷ bs) s q h = (
  q ++ (b ∷ bs) ∷ [],
  write-Sending false s q h (b ∷ bs) (omega arith),
  flatten-append q ((b ∷ bs) ∷ []) ∙ ap (λ (l : Bytes). flatten q ++ l) (append-nil (b ∷ bs)),
)

idle-StepsTo :
    (answer : Sent) (s : TcpSocket) (q : Queue)
    → Sending false s q
    → length (flatten q) ≡ 0
    → StepsTo (writable answer) s q
unfolding StepsTo
idle-StepsTo answer s q h none_left = (
  q,
  idle-Sending false s q h (omega arith) answer none_left refl,
  ap (λ (l : Bytes). l ++ flatten q) (nothing answer) ∙ sym (append-nil (flatten q)),
)
  where
    nothing : (a : Sent) → on_wire a (queue_of s) ≡ []
    nothing (took n) = empty_lem (take n (front (queue_of s))) (
        let e : queue_of s ≡ q = ground (arith, h.queue) in
        rw e (omega (arith, length-take n (front q), front_le q)))
    nothing (refused e) = refl

took-StepsTo :
    (n : ℕ) (s : TcpSocket) (q : Queue)
    → Sending false s q
    → length (flatten q) < int_sign
    → 0 < length (flatten q)
    → 0 < n
    → n ≤ length (front q)
    → StepsTo (writable (took n)) s q
unfolding StepsTo
took-StepsTo n s q h few some_bytes some_taken least =
    let e = writable-took false s q h few n some_bytes some_taken in
    let same : queue_of s ≡ q = ground (arith, h.queue) in
    (
      drain n q,
      subst (λ o. Sending false o.1 (drain n q)) (sym e)
          (record {
            state = h.state;
            bev = h.bev;
            ev_write = h.ev_write;
            queue = refl;
            running = h.running;
            expired = h.expired;
          }),
      ap (λ r. take n (front r) ++ flatten (drain n q)) same
          ∙ drain-wire n q least
          ∙ sym (append-nil (flatten q)),
    )

refused-StepsTo :
    (s : TcpSocket) (q : Queue)
    → Sending false s q
    → length (flatten q) < int_sign
    → 0 < length (flatten q)
    → StepsTo (writable (refused eagain)) s q
unfolding StepsTo
refused-StepsTo s q h few some_bytes =
    let e = writable-refused false s q h few some_bytes in
    (q, subst (λ o. Sending false o.1 q) (sym e) h, sym (append-nil (flatten q)))

step-StepsTo :
    (x : Io) (s : TcpSocket) (q : Queue)
    → Sending false s q
    → fits x s ≡ true
    → length (flatten q) < int_sign
    → StepsTo x s q
step-StepsTo (write b) s q h f few = write-StepsTo b s q h
step-StepsTo (writable answer) s q h f few =
    let same : queue_of s ≡ q = ground (arith, h.queue) in
    go answer (ap (answers_well answer) (sym same) ∙ f) (Bool-cases (length (flatten q) == 0))
  where
    go :
        (a : Sent)
        → answers_well a q ≡ true
        → (length (flatten q) == 0 ≡ true) ⊎ (length (flatten q) == 0 ≡ false)
        → StepsTo (writable a) s q
    go a w (inl z) = idle-StepsTo a s q h (ground arith)
    go (took n) w (inr z) = took-StepsTo n s q h few (ground arith) (ground arith) (ground arith)
    go (refused e) w (inr z) =
        let same : e ≡ eagain = ground arith in rw same (refused-StepsTo s q h few (ground arith))

-- While a socket with events is connected and not asked to close, with fewer than 2 ^ 31 bytes in its
-- kbuffer and written to it, and the system takes at least a byte of what it is given, or none and
-- EAGAIN, any list of writes and write events leaves it connected, and what was sent, followed by
-- what the kbuffer then holds, is what it held before, followed by what was written.
pub play-Sending :
    (xs : List Io) (s : TcpSocket) (q : Queue)
    → Sending false s q
    → fit xs s ≡ true
    → length (flatten q) + length (written xs) < int_sign
    → (r : Queue) × Sending false (play xs s) r × (sent xs s ++ flatten r ≡ flatten q ++ written xs)
unfolding StepsTo
play-Sending [] s q h f few = (q, h, sym (append-nil (flatten q)))
play-Sending (x ∷ xs) s q h f few =
    let (f1, f2) = and_true (fits x s) (fit xs (after x s)) f in
    let more = length-append (written_by x) (written xs) in
    let (q1, h1, e1) = step-StepsTo x s q h f1 (omega arith) in
    let n1 : length (sent_by x s) + length (flatten q1)
        ≡ length (flatten q) + length (written_by x) =
      sym (length-append (sent_by x s) (flatten q1))
      ∙ ap length e1
      ∙ length-append (flatten q) (written_by x) in
    let (r, h2, e2) = play-Sending xs (after x s) q1 h1 f2 (omega (arith, more, n1)) in
    (
      r,
      h2,
      append_assoc (sent_by x s) (sent xs (after x s)) (flatten r)
          ∙ ap (λ (l : Bytes). sent_by x s ++ l) e2
          ∙ sym (append_assoc (sent_by x s) (flatten q1) (written xs))
          ∙ ap (λ (l : Bytes). l ++ written xs) e1
          ∙ append_assoc (flatten q) (written_by x) (written xs),
    )
