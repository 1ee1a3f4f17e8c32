-- ===== src/Buffer/Queue.antt =====
-- The contract of `BufferedTransport`: a tape of bytes, cut into those that are read and those that
-- are not. Every method but `erase` and `insertInt8` is a step of that tape.
use coconut.Base.{
  ℕ, ◌+◌, ◌-◌, ◌≤◌, ◌<◌, ◌≡◌, refl, sym, ◌∙◌, arith, Bytes, [], ◌++◌, length, take, drop,
  length-append, length-take, length-drop, take-add, drop-drop, take-append_le, drop-append_le,
  take-append-drop, take-all, drop-all, lt-cases, inl, inr, if◌then◌else◌, ltb, leb, int_sign,
  Result, ok, throws, exception, protocol_exception, M, ◌>>◌, pure,
}
use coconut.Buffer
use coconut.Buffer.{BufferedTransport}
use coconut.Buffer.Valid.{
  IsValid, remaining, clamp_lem, clamp_enough, clamp_short, read_lem, peek_lem, fastforward_lem,
  fastforward_over, rewind_lem, rewind_over, remaining_size_lem, current_bytes_lem,
}

-- The public methods that move bytes or the position.
pub data Call : Type 0 where
  read peek throw_away rewind set_read_pos : ℕ → Call
  write : Bytes → Call
  clear to_string : Call

-- What a call hands back, as bytes.
unfoldable pub perform : Call → M BufferedTransport Bytes
perform (Call.read n) = Buffer.read n
perform (Call.peek n) = Buffer.peek n
perform (Call.throw_away n) = Buffer.throw_away n >> pure []
perform (Call.rewind n) = Buffer.rewind n >> pure []
perform (Call.set_read_pos n) = Buffer.set_read_pos n >> pure []
perform (Call.write d) = Buffer.write d >> pure []
perform Call.clear = Buffer.clear >> pure []
perform Call.to_string = Buffer.to_string_from_current_ptr

pub record Tape : Type 0 where
  pub past : Bytes
  pub pending : Bytes

abbrev pub cut : Bytes → ℕ → Tape
cut bytes n = record { past = take n bytes; pending = drop n bytes }

abbrev pub tape : BufferedTransport → Tape
tape b = cut b.buffer b.read_pos

-- The same calls on the tape.
abbrev pub tape_step : Call → M Tape Bytes
tape_step (Call.read n) t = (
  ok (take n t.pending),
  record { past = t.past ++ take n t.pending; pending = drop n t.pending },
)
tape_step (Call.peek n) t = (ok (take n t.pending), t)
tape_step (Call.throw_away n) t =
    if ltb (length t.pending) n
    then (throws exception, t)
    else (ok [], record { past = t.past ++ take n t.pending; pending = drop n t.pending })
tape_step (Call.rewind n) t =
    if ltb (length t.past) n
    then (throws protocol_exception, t)
    else (ok [], cut (t.past ++ t.pending) (length t.past - n))
tape_step (Call.set_read_pos n) t =
    if leb (length (t.past ++ t.pending)) n
    then (throws protocol_exception, t)
    else (ok [], cut (t.past ++ t.pending) n)
tape_step (Call.write d) t = (ok [], record t { pending = t.pending ++ d })
tape_step Call.clear t = (ok [], record { past = []; pending = [] })
tape_step Call.to_string t = (ok t.pending, t)

-- The sizes that an int holds.
abbrev pub Fits : BufferedTransport → Call → Type 0
Fits b (Call.throw_away n) = b.read_pos + n < int_sign
Fits b (Call.rewind n) = n < int_sign
Fits b (Call.write d) = length b.buffer + length d < int_sign
Fits b _ = Unit

-- The outcome of a call is that of the tape, and leaves a valid buffer.
pub record Refines (c : Call) (b : BufferedTransport) (o : Result Bytes × BufferedTransport)
    : Type 0 where
  pub result : o.0 ≡ (tape_step c (tape b)).0
  pub state : tape o.1 ≡ (tape_step c (tape b)).1
  pub valid : IsValid o.1

cut-add :
    (xs : Bytes) (p k : ℕ)
    → cut xs (p + k)
      ≡ record { past = take p xs ++ take k (drop p xs); pending = drop k (drop p xs) }
cut-add xs p k = rw (take-add p k xs, drop-drop k p xs)

-- The clamped size cuts what is left where the asked size does.
clamp_cut :
    (n : ℕ) (b : BufferedTransport)
    → IsValid b
    → (take (Buffer.clamp n b) (remaining b) ≡ take n (remaining b))
      × (drop (Buffer.clamp n b) (remaining b) ≡ drop n (remaining b))
clamp_cut n b v = elim (lt-cases (b.read_pos + n) (length b.buffer)) [
  | inl h ↦ rw (clamp_enough n b v (omega arith)) (refl, refl)
  | inr h ↦
      let d = length-drop b.read_pos b.buffer in
      let k : length (remaining b) ≤ n = omega arith in
      let j : length (remaining b) ≤ length b.buffer - b.read_pos = omega arith in
      rw (clamp_short n b v h)
        (take-all _ _ j ∙ sym (take-all n _ k), drop-all _ _ j ∙ sym (drop-all n _ k))
]

read-Refines :
    (n : ℕ) (b : BufferedTransport) → IsValid b → Refines (Call.read n) b (perform (Call.read n) b)
unfolding perform
read-Refines n b v = rw (read_lem n b v) (
    let c = clamp_lem n b v in
    let (t, d) = clamp_cut n b v in
    record {
      result = rw t;
      state = cut-add b.buffer b.read_pos (Buffer.clamp n b) ∙ rw (t, d);
      valid = omega arith;
    })

peek-Refines :
    (n : ℕ) (b : BufferedTransport) → IsValid b → Refines (Call.peek n) b (perform (Call.peek n) b)
unfolding perform
peek-Refines n b v =
    rw (peek_lem n b v) (record { result = rw ((clamp_cut n b v).0); state = refl; valid = v })

throw_away-Refines :
    (n : ℕ) (b : BufferedTransport)
    → IsValid b
    → b.read_pos + n < int_sign
    → Refines (Call.throw_away n) b (perform (Call.throw_away n) b)
unfolding perform Buffer.throw_away
throw_away-Refines n b v h = ground (
  arith,
  length-drop b.read_pos b.buffer,
  fastforward_over n b v h,
  fastforward_lem n b v,
  cut-add b.buffer b.read_pos n,
)

rewind-Refines :
    (n : ℕ) (b : BufferedTransport)
    → IsValid b
    → n < int_sign
    → Refines (Call.rewind n) b (perform (Call.rewind n) b)
unfolding perform
rewind-Refines n b v h = ground (
  arith,
  length-take b.read_pos b.buffer,
  rewind_over n b v h,
  rewind_lem n b v,
  take-append-drop b.read_pos b.buffer,
)

set_read_pos-Refines :
    (n : ℕ) (b : BufferedTransport)
    → IsValid b
    → Refines (Call.set_read_pos n) b (perform (Call.set_read_pos n) b)
unfolding perform Buffer.set_read_pos
set_read_pos-Refines n b v = ground (arith, take-append-drop b.read_pos b.buffer)

write-Refines :
    (d : Bytes) (b : BufferedTransport)
    → IsValid b
    → length b.buffer + length d < int_sign
    → Refines (Call.write d) b (perform (Call.write d) b)
unfolding perform Buffer.write
write-Refines d b v h = record {
  result = refl;
  state = rw (
    take-append_le b.read_pos b.buffer d v.inside,
    drop-append_le b.read_pos b.buffer d v.inside,
  );
  valid = omega (arith, length-append b.buffer d);
}

to_string-Refines :
    (b : BufferedTransport) → IsValid b → Refines Call.to_string b (perform Call.to_string b)
unfolding perform Buffer.to_string_from_current_ptr
to_string-Refines b v =
    let d = length-drop b.read_pos b.buffer in
    rw (remaining_size_lem b v, current_bytes_lem (length b.buffer - b.read_pos) b v (omega arith))
      (record {
        result = rw (take-all (length b.buffer - b.read_pos) (remaining b) (omega arith));
        state = refl;
        valid = v;
      })

clear-Refines : (b : BufferedTransport) → Refines Call.clear b (perform Call.clear b)
unfolding perform Buffer.clear
clear-Refines b = record { result = refl; state = refl; valid = omega arith }

-- A call on a valid buffer does to the tape what the contract says, with the same result or
-- exception, and leaves a valid buffer; the sizes given to `throwAway` and `rewind`, and the
-- string's size after a `write`, are ones that an int holds.
pub perform-Refines :
    (c : Call) (b : BufferedTransport) → IsValid b → Fits b c → Refines c b (perform c b)
perform-Refines (Call.read n) b v h = read-Refines n b v
perform-Refines (Call.peek n) b v h = peek-Refines n b v
perform-Refines (Call.throw_away n) b v h = throw_away-Refines n b v h
perform-Refines (Call.rewind n) b v h = rewind-Refines n b v h
perform-Refines (Call.set_read_pos n) b v h = set_read_pos-Refines n b v
perform-Refines (Call.write d) b v h = write-Refines d b v h
perform-Refines Call.clear b v h = clear-Refines b
perform-Refines Call.to_string b v h = to_string-Refines b v
