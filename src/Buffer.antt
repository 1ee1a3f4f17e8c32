-- ===== src/Buffer.antt =====
-- `BufferedTransport` (src/BufferedTransport.h and .cpp): a growing string of bytes and a read
-- position in it. Each method is a function into `M BufferedTransport`.
-- `readPos_` is an int, so it is held as its 32-bit pattern and converted as the code converts it.
-- The mutex of the class is left out: each method is one step.
pub mod Valid
pub mod Codec
pub mod Queue
pub mod RoundTrip
pub mod Strings
mod Tests
use coconut.Base.{
  ℕ, ◌+◌, ◌-◌, ◌*◌, ◌/◌, ◌%◌, ◌^◌, Bool, ◌||◌, true, false, List, [], ◌∷◌, ◌++◌, Bytes, length,
  take, drop, leb, ltb, if◌then◌else◌, u32_mod, int_of_size, size_of_int, int_neg, int_lt, size_add,
  size_sub, Exception, exception, protocol_exception, out_of_range, Result, ok, throws, fault, M,
  ◌>>=◌, ◌>>◌, pure, throw_if, gets, modify, reads,
}

pub record BufferedTransport : Type 0 where
  pub buffer : Bytes
  pub read_pos : ℕ

-- The constructor.
abbrev pub make : BufferedTransport
make = record { buffer = []; read_pos = 0 }

unfoldable pub total_size : BufferedTransport → ℕ
total_size b = length b.buffer

unfoldable pub remaining_size : BufferedTransport → ℕ
unfolding total_size
remaining_size b = size_sub (total_size b) (size_of_int b.read_pos)

-- The `size` bytes from `currentPtr()`; reading past either end of the string is undefined.
unfoldable pub current_bytes : ℕ → BufferedTransport → Result Bytes
current_bytes size b =
    if int_neg b.read_pos || ltb (length b.buffer) (b.read_pos + size)
    then fault
    else ok (take size (drop b.read_pos b.buffer))

unfoldable pub erase : ℕ → ℕ → M BufferedTransport ℕ
unfolding total_size
erase pos size = do
  n ← gets total_size
  throw_if (ltb n (size_add pos size)) protocol_exception
  throw_if (ltb n pos) out_of_range
  modify (λ b. record b { buffer = take pos b.buffer ++ drop (pos + size) b.buffer })
  pure (int_of_size size)

unfoldable pub insert_int8 : ℕ → ℕ → M BufferedTransport ℕ
unfolding total_size
insert_int8 pos value = do
  n ← gets total_size
  throw_if (ltb n pos) out_of_range
  modify (λ b. record b { buffer = take pos b.buffer ++ value ∷ drop pos b.buffer })
  pure 1

unfoldable pub write : Bytes → M BufferedTransport ℕ
write ptr = do modify (λ b. record b { buffer = b.buffer ++ ptr }); pure (int_of_size (length ptr))

unfoldable pub fastforward : ℕ → M BufferedTransport (Unit {0})
unfolding total_size
fastforward size = do
  temp ← gets (λ b. int_of_size (size_add (size_of_int b.read_pos) size))
  n ← gets total_size
  throw_if (int_lt (int_of_size n) temp) exception
  modify (λ b. record b { read_pos = temp })

unfoldable pub rewind : ℕ → M BufferedTransport (Unit {0})
rewind size = do
  temp ← gets (λ b. int_of_size (size_sub (size_of_int b.read_pos) size))
  throw_if (int_neg temp) protocol_exception
  modify (λ b. record b { read_pos = temp })

-- The clamping that every reading method starts with.
unfoldable pub clamp : ℕ → BufferedTransport → ℕ
clamp size b = if ltb (remaining_size b) size then remaining_size b else size

-- Both `read` methods and `readString`: the bytes that they copy out. The int that the `read`
-- methods return is the number of these.
unfoldable pub read : ℕ → M BufferedTransport Bytes
read size = do n ← gets (clamp size); bytes ← reads (current_bytes n); fastforward n; pure bytes

-- `peek(char *, size_t)`; the other `peek` hands out the same bytes by pointer and size.
unfoldable pub peek : ℕ → M BufferedTransport Bytes
peek size = do n ← gets (clamp size); reads (current_bytes n)

unfoldable pub throw_away : ℕ → M BufferedTransport (Unit {0})
throw_away = fastforward

unfoldable pub set_read_pos : ℕ → M BufferedTransport (Unit {0})
unfolding total_size
set_read_pos pos = do
  n ← gets total_size
  throw_if (leb n pos) protocol_exception
  modify (λ b. record b { read_pos = int_of_size pos })

unfoldable pub clear : M BufferedTransport (Unit {0})
clear = modify (λ b. make)

unfoldable pub to_string_from_current_ptr : M BufferedTransport Bytes
to_string_from_current_ptr = do n ← gets remaining_size; reads (current_bytes n)

unfoldable pub to_string_from_base_ptr : M BufferedTransport Bytes
to_string_from_base_ptr = gets (λ b. b.buffer)
