-- ===== src/Wire/Agree.antt =====
-- Over a `BufferedTransport` the helper does what the methods of the buffer do.
use coconut.Base.{ℕ, ◌≡◌, refl, arith, Bool, List, [], ◌∷◌, Bytes}
use coconut.Buffer
use coconut.Buffer.Codec
use coconut.Buffer.{BufferedTransport}
use coconut.Wire
use coconut.Wire.{Transport}

abbrev pub buffer_transport : Transport BufferedTransport
buffer_transport = record { read = Buffer.read; write = Buffer.write }

pub write_int32-agrees :
    (le : Bool) (v : ℕ) (b : BufferedTransport)
    → Wire.write_int32 buffer_transport le v b ≡ Codec.write_int32 le v b
unfolding Wire.write_int32 Codec.write_int32
write_int32-agrees le v b = refl

write_strings-agrees :
    (le : Bool) (l : List Bytes) (pos : ℕ) (b : BufferedTransport)
    → Wire.write_strings buffer_transport le l pos b ≡ Codec.write_strings le l pos b
unfolding Wire.write_strings Codec.write_strings Wire.write_string32 Codec.write_string32
    Wire.write_int32 Codec.write_int32 Buffer.write
write_strings-agrees le [] pos b = refl
write_strings-agrees le (x ∷ l) pos b = write_strings-agrees le l _ _

pub read_int32_into-agrees :
    (le : Bool) (b : BufferedTransport)
    → Wire.read_int32_into buffer_transport le b ≡ Codec.read_int32_into le b
unfolding Wire.read_int32_into Codec.read_int32_into Codec.read_int32 Codec.read_exactly
read_int32_into-agrees le b = ground arith

pub read_string32_into-agrees :
    (le : Bool) (b : BufferedTransport)
    → Wire.read_string32_into buffer_transport le b ≡ Codec.read_string32_into le b
unfolding Wire.read_string32_into Codec.read_string32_into Wire.read_int32_into
    Codec.read_int32_into Codec.read_int32 Codec.read_exactly
read_string32_into-agrees le b = ground arith

-- Over a `BufferedTransport`, each writing method of the helper has the result and the effect of
-- the buffer's own method: strings with a prefix of 8, 16 and 32 bits, and lists of strings.
pub write-agrees :
    (le : Bool) (s : Bytes) (l : List Bytes) (b : BufferedTransport)
    → (Wire.write_string8 buffer_transport s b ≡ Codec.write_string8 s b)
      × (Wire.write_string16 buffer_transport le s b ≡ Codec.write_string16 le s b)
      × (Wire.write_string32 buffer_transport le s b ≡ Codec.write_string32 le s b)
      × (Wire.write_string32_list buffer_transport le l b ≡ Codec.write_string32_list le l b)
unfolding Wire.write_string8 Codec.write_string8 Wire.write_string16 Codec.write_string16
    Wire.write_string32 Codec.write_string32 Wire.write_string32_list Codec.write_string32_list
    Wire.write_int8 Codec.write_int8 Wire.write_int16 Codec.write_int16 Wire.write_int32
    Codec.write_int32 Buffer.write
write-agrees le s l b = (refl, refl, refl, write_strings-agrees le l _ _)

-- Over a `BufferedTransport`, each reading method of the helper has the result, the exception and
-- the effect of the buffer's own method, although the two accumulate the position in other types.
pub read-agrees :
    (le : Bool) (b : BufferedTransport)
    → (Wire.read_int32_into buffer_transport le b ≡ Codec.read_int32_into le b)
      × (Wire.read_int16_into buffer_transport le b ≡ Codec.read_int16_into le b)
      × (Wire.read_int8_into buffer_transport b ≡ Codec.read_int8_into b)
      × (Wire.read_string8_into buffer_transport b ≡ Codec.read_string8_into b)
      × (Wire.read_string16_into buffer_transport le b ≡ Codec.read_string16_into le b)
      × (Wire.read_string32_into buffer_transport le b ≡ Codec.read_string32_into le b)
unfolding Wire.read_int32_into Wire.read_int16_into Wire.read_int8_into Wire.read_string8_into
    Wire.read_string16_into Wire.read_string32_into Codec.read_int32_into Codec.read_int16_into
    Codec.read_int8_into Codec.read_string8_into Codec.read_string16_into Codec.read_string32_into
    Codec.read_int32 Codec.read_int16 Codec.read_int8 Codec.read_exactly
read-agrees le b =
    (ground arith, ground arith, ground arith, ground arith, ground arith, ground arith)
