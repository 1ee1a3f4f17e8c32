-- ===== src/Buffer/Strings.antt =====
-- The integers and the strings with a length prefix, written and read back.
use coconut.Base.{
  ℕ, ◌+◌, ◌%◌, ◌<◌, ◌≡◌, refl, ap, ◌∙◌, arith, Bool, [], ◌++◌, Bytes, length, take, drop,
  length-take, take-append-drop, take-all, append_assoc, u8_mod, u16_mod, u32_mod, u64_mod,
  int_sign, int_of_size, ok, M,
}
use coconut.Buffer.{BufferedTransport, write}
use coconut.Buffer.Codec.{
  bytes_of, write_int64, write_int32, write_int16, write_int8, write_string8, write_string16,
  write_string32, read_exactly, read_int64, read_int32, read_int16, read_int8, read_string8,
  read_string16, read_string32,
}
use coconut.Buffer.RoundTrip.{
  Encodes, Decodes, Decodes-bind, Decodes-read_exactly, encode16, encode32, encode64, round_trip,
  Decodes-read_int64, Decodes-read_int32, Decodes-read_int16, Decodes-read_int8,
}
use coconut.Buffer.Valid.{IsValid, remaining}

pub Encodes-write_int64 : (le : Bool) (v : ℕ) → Encodes (write_int64 le v) (encode64 le v) 8
unfolding write_int64 write
Encodes-write_int64 le v b = refl

pub Encodes-write_int32 : (le : Bool) (v : ℕ) → Encodes (write_int32 le v) (encode32 le v) 4
unfolding write_int32 write
Encodes-write_int32 le v b = refl

pub Encodes-write_int16 : (le : Bool) (v : ℕ) → Encodes (write_int16 le v) (encode16 le v) 2
unfolding write_int16 write
Encodes-write_int16 le v b = refl

pub Encodes-write_int8 : (v : ℕ) → Encodes (write_int8 v) (bytes_of 1 v) 1
unfolding write_int8 write
Encodes-write_int8 v b = refl

-- Any value that its type holds is read back from a valid buffer that was read to its end before
-- the value was written, for each of the four widths and both byte orders.
pub read_int-write_int :
    (le : Bool) (v64 v32 v16 v8 : ℕ) (b : BufferedTransport)
    → v64 < u64_mod
    → v32 < u32_mod
    → v16 < u16_mod
    → v8 < u8_mod
    → IsValid b
    → remaining b ≡ []
    → length b.buffer + 8 < int_sign
    → ((read_int64 le (write_int64 le v64 b).1).0 ≡ ok v64)
      × ((read_int32 le (write_int32 le v32 b).1).0 ≡ ok v32)
      × ((read_int16 le (write_int16 le v16 b).1).0 ≡ ok v16)
      × ((read_int8 (write_int8 v8 b).1).0 ≡ ok v8)
read_int-write_int le v64 v32 v16 v8 b h64 h32 h16 h8 valid empty room = (
  ap (λ o. o.0)
      (round_trip (write_int64 le v64) (read_int64 le) (encode64 le v64) [] 8 v64 b
        (Encodes-write_int64 le v64) (Decodes-read_int64 le v64 h64) valid empty room),
  ap (λ o. o.0)
      (round_trip (write_int32 le v32) (read_int32 le) (encode32 le v32) [] 4 v32 b
        (Encodes-write_int32 le v32) (Decodes-read_int32 le v32 h32) valid empty (omega arith)),
  ap (λ o. o.0)
      (round_trip (write_int16 le v16) (read_int16 le) (encode16 le v16) [] 2 v16 b
        (Encodes-write_int16 le v16) (Decodes-read_int16 le v16 h16) valid empty (omega arith)),
  ap (λ o. o.0)
      (round_trip (write_int8 v8) read_int8 (bytes_of 1 v8) [] 1 v8 b (Encodes-write_int8 v8)
        (Decodes-read_int8 v8 h8) valid empty (omega arith)),
)

-- The prefix of a string, and the part of the string that the prefix counts.
module _ (s : Bytes) (le : Bool) where
  Encodes-write_string8 :
      Encodes
        (write_string8 s)
        (bytes_of 1 (length s % u8_mod) ++ s)
        ((1 + int_of_size (length s)) % u8_mod)
  unfolding write_string8 write_int8 write
  Encodes-write_string8 b =
      ap (λ (x : Bytes). (ok ((1 + int_of_size (length s)) % u8_mod), record b { buffer = x }))
        (append_assoc b.buffer (bytes_of 1 (length s % u8_mod)) s)

  Encodes-write_string16 :
      Encodes
        (write_string16 le s)
        (encode16 le (length s % u16_mod) ++ s)
        ((2 + int_of_size (length s)) % u16_mod)
  unfolding write_string16 write_int16 write
  Encodes-write_string16 b =
      ap (λ (x : Bytes). (ok ((2 + int_of_size (length s)) % u16_mod), record b { buffer = x }))
        (append_assoc b.buffer (encode16 le (length s % u16_mod)) s)

  pub Encodes-write_string32 :
      Encodes
        (write_string32 le s)
        (encode32 le (length s % u32_mod) ++ s)
        ((4 + int_of_size (length s)) % u32_mod)
  unfolding write_string32 write_int32 write
  Encodes-write_string32 b =
      ap (λ (x : Bytes). (ok ((4 + int_of_size (length s)) % u32_mod), record b { buffer = x }))
        (append_assoc b.buffer (encode32 le (length s % u32_mod)) s)

module _ (s : Bytes) (le : Bool) where
  Decodes-read_string8 :
      (n : ℕ) → length s ≡ n → n < u8_mod → Decodes read_string8 (bytes_of 1 n ++ s) s
  unfolding read_string8
  Decodes-read_string8 n l h =
      Decodes-bind read_int8 read_exactly (bytes_of 1 n) s n s (Decodes-read_int8 n h)
        (Decodes-read_exactly n s l)

  Decodes-read_string16 :
      (n : ℕ) → length s ≡ n → n < u16_mod → Decodes (read_string16 le) (encode16 le n ++ s) s
  unfolding read_string16
  Decodes-read_string16 n l h =
      Decodes-bind (read_int16 le) read_exactly (encode16 le n) s n s (Decodes-read_int16 le n h)
        (Decodes-read_exactly n s l)

  pub Decodes-read_string32 :
      (n : ℕ) → length s ≡ n → n < u32_mod → Decodes (read_string32 le) (encode32 le n ++ s) s
  unfolding read_string32
  Decodes-read_string32 n l h =
      Decodes-bind (read_int32 le) read_exactly (encode32 le n) s n s (Decodes-read_int32 le n h)
        (Decodes-read_exactly n s l)

-- The part of a string that a prefix of the given modulus counts.
abbrev pub counted : ℕ → Bytes → Bytes
counted m s = take (length s % m) s

counted_split :
    (m : ℕ) (s : Bytes) → 0 < m → (length (counted m s) ≡ length s % m) × (length s % m < m)
counted_split m s h = let k = length-take (length s % m) s in grind arith

-- What is written is a prefix and a string, and what is read the prefix and `n` bytes of it.
round_trip_counted :
    {A C : Type 0} (w : M BufferedTransport A) (r : M BufferedTransport C) (p s : Bytes) (n : ℕ)
    (a : A) (c : C) (b : BufferedTransport)
    → Encodes w (p ++ s) a
    → Decodes r (p ++ take n s) c
    → IsValid b
    → remaining b ≡ []
    → length b.buffer + length (p ++ s) < int_sign
    → (r (w b).1).0 ≡ ok c
round_trip_counted w r p s n a c b enc dec valid empty room =
    let e : (p ++ take n s) ++ drop n s ≡ p ++ s =
      append_assoc p (take n s) (drop n s) ∙ ap (λ (x : Bytes). p ++ x) (take-append-drop n s) in
    ap (λ o. o.0)
      (round_trip w r (p ++ take n s) (drop n s) a c b (λ d. rw e (enc d)) dec valid empty
        (rw e room))

-- A string written with a prefix of 8, 16 or 32 bits on a valid buffer that was read to its end is
-- read back up to the size that the prefix can count: its first `size % 2 ^ w` bytes for w = 8 and
-- w = 16, and, with 32 bits, all of a string for which the buffer has room.
pub read_string-write_string :
    (le : Bool) (s : Bytes) (b : BufferedTransport)
    → IsValid b
    → remaining b ≡ []
    → length b.buffer + 4 + length s < int_sign
    → ((read_string8 (write_string8 s b).1).0 ≡ ok (counted u8_mod s))
      × ((read_string16 le (write_string16 le s b).1).0 ≡ ok (counted u16_mod s))
      × ((read_string32 le (write_string32 le s b).1).0 ≡ ok s)
read_string-write_string le s b valid empty room =
    let (k8, l8) = counted_split u8_mod s (omega arith) in
    let (k16, l16) = counted_split u16_mod s (omega arith) in
    let (k32, l32) = counted_split u32_mod s (omega arith) in
    let whole : counted u32_mod s ≡ s = take-all (length s % u32_mod) s (omega arith) in
    (
      round_trip_counted (write_string8 s) read_string8 (bytes_of 1 (length s % u8_mod)) s
          (length s % u8_mod) ((1 + int_of_size (length s)) % u8_mod) (counted u8_mod s) b
          (Encodes-write_string8 s le)
          (Decodes-read_string8 (counted u8_mod s) le (length s % u8_mod) k8 l8) valid empty
          (omega arith),
      round_trip_counted (write_string16 le s) (read_string16 le) (encode16 le (length s % u16_mod))
          s (length s % u16_mod) ((2 + int_of_size (length s)) % u16_mod) (counted u16_mod s) b
          (Encodes-write_string16 s le)
          (Decodes-read_string16 (counted u16_mod s) le (length s % u16_mod) k16 l16) valid empty
          (omega arith),
      round_trip_counted (write_string32 le s) (read_string32 le) (encode32 le (length s % u32_mod))
            s (length s % u32_mod) ((4 + int_of_size (length s)) % u32_mod) (counted u32_mod s) b
            (Encodes-write_string32 s le)
            (Decodes-read_string32 (counted u32_mod s) le (length s % u32_mod) k32 l32) valid empty
            (omega arith)
          ∙ ap ok whole,
    )
