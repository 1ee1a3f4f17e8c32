-- ===== src/Buffer/Valid.antt =====
-- `BufferedTransport` in the range where its int position can name every byte: each method refines
-- the queue of the bytes that are not read yet.
use coconut.Base.{
  ℕ, ◌+◌, ◌-◌, ◌≤◌, ◌<◌, ◌≡◌, ◌∙◌, arith, Bytes, length, take, drop, length-drop, take-all,
  int_sign, ok, throws, exception, protocol_exception,
}
use coconut.Buffer.{
  BufferedTransport, remaining_size, current_bytes, clamp, read, peek, fastforward, rewind,
}

-- The position is inside the string, and an int can hold the string's size.
pub record IsValid (b : BufferedTransport) : Type 0 where
  pub inside : b.read_pos ≤ length b.buffer
  pub fits : length b.buffer < int_sign

-- The bytes that are not read yet.
abbrev pub remaining : BufferedTransport → Bytes
remaining b = drop b.read_pos b.buffer

pub remaining_size_lem :
    (b : BufferedTransport) → IsValid b → remaining_size b ≡ length b.buffer - b.read_pos
unfolding remaining_size
remaining_size_lem b v = ground arith

pub clamp_lem :
    (n : ℕ) (b : BufferedTransport)
    → IsValid b
    → (clamp n b ≤ length b.buffer - b.read_pos) × (clamp n b ≤ n)
unfolding clamp remaining_size
clamp_lem n b v = ground arith

pub clamp_enough :
    (n : ℕ) (b : BufferedTransport) → IsValid b → b.read_pos + n ≤ length b.buffer → clamp n b ≡ n
unfolding clamp remaining_size
clamp_enough n b v h = ground arith

pub clamp_short :
    (n : ℕ) (b : BufferedTransport)
    → IsValid b
    → length b.buffer ≤ b.read_pos + n
    → clamp n b ≡ length b.buffer - b.read_pos
unfolding clamp remaining_size
clamp_short n b v h = ground arith

pub fastforward_lem :
    (n : ℕ) (b : BufferedTransport)
    → IsValid b
    → b.read_pos + n ≤ length b.buffer
    → fastforward n b ≡ (ok tt, record b { read_pos = b.read_pos + n })
unfolding fastforward
fastforward_lem n b v h = ground arith

pub fastforward_over :
    (n : ℕ) (b : BufferedTransport)
    → IsValid b
    → b.read_pos + n < int_sign
    → length b.buffer < b.read_pos + n
    → fastforward n b ≡ (throws exception, b)
unfolding fastforward
fastforward_over n b v h o = ground arith

pub rewind_lem :
    (n : ℕ) (b : BufferedTransport)
    → IsValid b
    → n ≤ b.read_pos
    → rewind n b ≡ (ok tt, record b { read_pos = b.read_pos - n })
unfolding rewind
rewind_lem n b v h = ground arith

pub rewind_over :
    (n : ℕ) (b : BufferedTransport)
    → IsValid b
    → n < int_sign
    → b.read_pos < n
    → rewind n b ≡ (throws protocol_exception, b)
unfolding rewind
rewind_over n b v h o = ground arith

pub current_bytes_lem :
    (n : ℕ) (b : BufferedTransport)
    → IsValid b
    → b.read_pos + n ≤ length b.buffer
    → current_bytes n b ≡ ok (take n (remaining b))
unfolding current_bytes
current_bytes_lem n b v h = ground arith

-- `read` in one equation: it hands out what it steps over.
pub read_lem :
    (n : ℕ) (b : BufferedTransport)
    → IsValid b
    → read n b
      ≡ (ok (take (clamp n b) (remaining b)), record b { read_pos = b.read_pos + clamp n b })
unfolding read
read_lem n b v =
    let c = clamp_lem n b v in
    ground (arith, current_bytes_lem (clamp n b) b v, fastforward_lem (clamp n b) b v, c.0)

pub peek_lem :
    (n : ℕ) (b : BufferedTransport)
    → IsValid b
    → peek n b ≡ (ok (take (clamp n b) (remaining b)), b)
unfolding peek
peek_lem n b v = let c = clamp_lem n b v in ground (arith, current_bytes_lem (clamp n b) b v, c.0)

-- Enough bytes: exactly `n` of them are read.
pub read_enough :
    (n : ℕ) (b : BufferedTransport)
    → IsValid b
    → b.read_pos + n ≤ length b.buffer
    → read n b ≡ (ok (take n (remaining b)), record b { read_pos = b.read_pos + n })
read_enough n b v h = read_lem n b v ∙ rw (clamp_enough n b v h)

-- Too few: all that is left is read.
pub read_short :
    (n : ℕ) (b : BufferedTransport)
    → IsValid b
    → length b.buffer ≤ b.read_pos + n
    → read n b ≡ (ok (remaining b), record b { read_pos = length b.buffer })
read_short n b v h =
    read_lem n b v
    ∙ rw
        (
          clamp_short n b v h,
          take-all (length b.buffer - b.read_pos) (remaining b)
              (omega (arith, length-drop b.read_pos b.buffer)),
        )
        (ground arith)
