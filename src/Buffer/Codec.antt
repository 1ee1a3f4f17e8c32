-- ===== src/Buffer/Codec.antt =====
-- The integer and string methods of `BufferedTransport` (src/BufferedTransport.h). The flag `le` is
-- the global `_setLittleEndian_on`. The host stores an integer with its low byte first, so `htonl`
-- and its kin reverse the bytes. A method that fills a reference and returns how far it went is
-- modelled as `..._into`, which returns both.
use mathlib.Core.List.{reverse}
use coconut.Base.{
  ℕ, zero, suc, ◌+◌, ◌*◌, ◌/◌, ◌%◌, Bool, not, List, [], ◌∷◌, Bytes, length, ◌==◌, if◌then◌else◌,
  u8_mod, u16_mod, u32_mod, int_of_size, protocol_exception, M, ◌>>=◌, ◌>>◌, pure, throw_if,
}
use coconut.Buffer.{BufferedTransport, read, write}

-- An integer of `w` bytes in the memory of the host, and back.
abbrev pub bytes_of : ℕ → ℕ → Bytes
bytes_of zero v = []
bytes_of (suc w) v = v % 256 ∷ bytes_of w (v / 256)

abbrev pub value_of : Bytes → ℕ
value_of [] = 0
value_of (c ∷ cs) = c + 256 * value_of cs

-- `htonl` and `htons` of the host; `ntohl` and `ntohs` are the same functions.
abbrev pub htonl : ℕ → ℕ
htonl v = value_of (reverse (bytes_of 4 (v % u32_mod)))

abbrev pub htons : ℕ → ℕ
htons v = value_of (reverse (bytes_of 2 (v % u16_mod)))

-- The integers that are stored. The two halves that `writeInt64` joins by `|` share no bit.
abbrev pub net32 : Bool → ℕ → ℕ
net32 le v = if le then v else htonl v

abbrev pub net16 : Bool → ℕ → ℕ
net16 le v = if le then v else htons v

abbrev pub net64 : Bool → ℕ → ℕ
net64 le v = if le then v else htonl v * u32_mod + htonl (v / u32_mod)

abbrev pub host64 : Bool → ℕ → ℕ
host64 le n = if le then n else htonl (n / u32_mod) + htonl n * u32_mod

unfoldable pub write_int64 : Bool → ℕ → M BufferedTransport ℕ
write_int64 le value = do write (bytes_of 8 (net64 le value)); pure 8

unfoldable pub write_int32 : Bool → ℕ → M BufferedTransport ℕ
write_int32 le value = do write (bytes_of 4 (net32 le value)); pure 4

unfoldable pub write_int16 : Bool → ℕ → M BufferedTransport ℕ
write_int16 le value = do write (bytes_of 2 (net16 le value)); pure 2

unfoldable pub write_int8 : ℕ → M BufferedTransport ℕ
write_int8 value = do write (bytes_of 1 value); pure 1

unfoldable pub write_binary : Bytes → M BufferedTransport ℕ
write_binary ptr = do n ← write ptr; pure n

-- The size is cut to the width of the prefix, and the returned position to that of `pos`.
unfoldable pub write_string8 : Bytes → M BufferedTransport ℕ
write_string8 value = do
  n ← write_int8 (length value % u8_mod)
  k ← write value
  pure ((n + k) % u8_mod)

unfoldable pub write_string16 : Bool → Bytes → M BufferedTransport ℕ
write_string16 le value = do
  n ← write_int16 le (length value % u16_mod)
  k ← write value
  pure ((n + k) % u16_mod)

unfoldable pub write_string32 : Bool → Bytes → M BufferedTransport ℕ
write_string32 le value = do
  n ← write_int32 le (length value % u32_mod)
  k ← write value
  pure ((n + k) % u32_mod)

-- The loop of `writeString32List`, with `pos` so far.
unfoldable pub write_strings : Bool → List Bytes → ℕ → M BufferedTransport ℕ
write_strings le [] pos = pure pos
write_strings le (value ∷ list) pos = do
  k ← write_string32 le value
  write_strings le list ((pos + k) % u32_mod)

unfoldable pub write_string32_list : Bool → List Bytes → M BufferedTransport ℕ
write_string32_list le list = do
  pos ← write_int32 le (length list % u32_mod)
  write_strings le list pos

-- The test `read(...) != size` behind the read.
abbrev pub exactly : ℕ → Bytes → M BufferedTransport Bytes
exactly size bytes = do
  throw_if (not (int_of_size (length bytes) == int_of_size size)) protocol_exception
  pure bytes

-- `size` bytes, or a ProtocolException; what was there is consumed in both cases.
unfoldable pub read_exactly : ℕ → M BufferedTransport Bytes
read_exactly size = do bytes ← read size; exactly size bytes

unfoldable pub read_int64 : Bool → M BufferedTransport ℕ
read_int64 le = do bytes ← read_exactly 8; pure (host64 le (value_of bytes))

unfoldable pub read_int32 : Bool → M BufferedTransport ℕ
read_int32 le = do bytes ← read_exactly 4; pure (net32 le (value_of bytes))

unfoldable pub read_int16 : Bool → M BufferedTransport ℕ
read_int16 le = do bytes ← read_exactly 2; pure (net16 le (value_of bytes))

unfoldable pub read_int8 : M BufferedTransport ℕ
read_int8 = do bytes ← read_exactly 1; pure (value_of bytes)

unfoldable pub read_int32_into : Bool → M BufferedTransport (ℕ × ℕ)
read_int32_into le = do value ← read_int32 le; pure (value, 4)

unfoldable pub read_int16_into : Bool → M BufferedTransport (ℕ × ℕ)
read_int16_into le = do value ← read_int16 le; pure (value, 2)

unfoldable pub read_int8_into : M BufferedTransport (ℕ × ℕ)
read_int8_into = do value ← read_int8; pure (value, 1)

unfoldable pub read_string32 : Bool → M BufferedTransport Bytes
read_string32 le = do len ← read_int32 le; read_exactly len

unfoldable pub read_string16 : Bool → M BufferedTransport Bytes
read_string16 le = do len ← read_int16 le; read_exactly len

unfoldable pub read_string8 : M BufferedTransport Bytes
read_string8 = do len ← read_int8; read_exactly len

-- `pos` is an uint8_t, an uint16_t and an uint32_t here, and the sum an uint32_t.
unfoldable pub read_string32_into : Bool → M BufferedTransport (Bytes × ℕ)
read_string32_into le = do
  (len, k) ← read_int32_into le
  value ← read_exactly len
  pure (value, (k % u8_mod + len) % u32_mod)

unfoldable pub read_string16_into : Bool → M BufferedTransport (Bytes × ℕ)
read_string16_into le = do
  (len, k) ← read_int16_into le
  value ← read_exactly len
  pure (value, (k % u16_mod + len) % u32_mod)

unfoldable pub read_string8_into : M BufferedTransport (Bytes × ℕ)
read_string8_into = do
  (len, k) ← read_int8_into
  value ← read_exactly len
  pure (value, (k % u32_mod + len) % u32_mod)
