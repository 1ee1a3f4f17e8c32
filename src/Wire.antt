-- ===== src/Wire.antt =====
-- `VirtualTransportHelper` (src/VirtualTransportHelper.h): integers and strings over any transport,
-- of which it uses `read` and `write` alone (src/BaseVirtualTransport.h). The flag `le` is the global
-- `_setLittleEndian_on`, and `..._into` returns what a reference is given and the position.
pub mod Agree
use coconut.Base.{
  ℕ, ◌+◌, ◌%◌, Bool, not, List, [], ◌∷◌, Bytes, length, ◌==◌, u8_mod, u16_mod, u32_mod, int_of_size,
  protocol_exception, M, ◌>>=◌, ◌>>◌, pure, throw_if,
}
use coconut.Buffer.Codec.{bytes_of, value_of, net16, net32}

-- The virtual methods of `BaseVirtualTransport` that the helper calls.
pub record Transport (S : Type 0) : Type 0 where
  pub read : ℕ → M S Bytes
  pub write : Bytes → M S ℕ

module _ {S : Type 0} (buffer : Transport S) where
  unfoldable pub write_int32 : Bool → ℕ → M S ℕ
  write_int32 le value = do buffer.write (bytes_of 4 (net32 le value)); pure 4

  unfoldable pub write_int16 : Bool → ℕ → M S ℕ
  write_int16 le value = do buffer.write (bytes_of 2 (net16 le value)); pure 2

  unfoldable pub write_int8 : ℕ → M S ℕ
  write_int8 value = do buffer.write (bytes_of 1 value); pure 1

  unfoldable pub write_binary : Bytes → M S ℕ
  write_binary ptr = do n ← buffer.write ptr; pure n

  unfoldable pub write_string8 : Bytes → M S ℕ
  write_string8 value = do
    n ← write_int8 (length value % u8_mod)
    k ← buffer.write value
    pure ((n + k) % u8_mod)

  unfoldable pub write_string16 : Bool → Bytes → M S ℕ
  write_string16 le value = do
    n ← write_int16 le (length value % u16_mod)
    k ← buffer.write value
    pure ((n + k) % u16_mod)

  unfoldable pub write_string32 : Bool → Bytes → M S ℕ
  write_string32 le value = do
    n ← write_int32 le (length value % u32_mod)
    k ← buffer.write value
    pure ((n + k) % u32_mod)

  unfoldable pub write_strings : Bool → List Bytes → ℕ → M S ℕ
  write_strings le [] pos = pure pos
  write_strings le (value ∷ list) pos = do
    k ← write_string32 le value
    write_strings le list ((pos + k) % u32_mod)

  unfoldable pub write_string32_list : Bool → List Bytes → M S ℕ
  write_string32_list le list = do
    pos ← write_int32 le (length list % u32_mod)
    write_strings le list pos

  -- The test `read(...) != size` that every reading method makes.
  abbrev pub read_exactly : ℕ → M S Bytes
  read_exactly size = do
    bytes ← buffer.read size
    throw_if (not (int_of_size (length bytes) == int_of_size size)) protocol_exception
    pure bytes

  unfoldable pub read_int32_into : Bool → M S (ℕ × ℕ)
  read_int32_into le = do bytes ← read_exactly 4; pure (net32 le (value_of bytes), 4)

  unfoldable pub read_int16_into : Bool → M S (ℕ × ℕ)
  read_int16_into le = do bytes ← read_exactly 2; pure (net16 le (value_of bytes), 2)

  unfoldable pub read_int8_into : M S (ℕ × ℕ)
  read_int8_into = do bytes ← read_exactly 1; pure (value_of bytes, 1)

  unfoldable pub read_string8_into : M S (Bytes × ℕ)
  read_string8_into = do
    (len, k) ← read_int8_into
    value ← read_exactly len
    pure (value, (k % u8_mod + len) % u32_mod)

  unfoldable pub read_string16_into : Bool → M S (Bytes × ℕ)
  read_string16_into le = do
    (len, k) ← read_int16_into le
    value ← read_exactly len
    pure (value, (k % u16_mod + len) % u32_mod)

  unfoldable pub read_string32_into : Bool → M S (Bytes × ℕ)
  read_string32_into le = do
    (len, k) ← read_int32_into le
    value ← read_exactly len
    pure (value, (k + len) % u32_mod)
