-- ===== src/Buffer/Tests.antt =====
-- `BufferedTransport` at concrete bytes.
use coconut.Base.{◌≡◌, refl, arith, true, false, [], ◌∷◌, ok, throws, exception, Bytes}
use coconut.Buffer
use coconut.Buffer.Codec.{
  write_int16, write_string8, write_string16, write_string32, read_string8, read_string16,
  read_string32,
}
use coconut.Buffer.Queue.{Call, perform, Refines, perform-Refines}
use coconut.Buffer.Strings.{read_string-write_string}
use coconut.Buffer.{BufferedTransport}

abbrev greeting : Bytes
greeting = 72 ∷ 69 ∷ 76 ∷ 76 ∷ 79 ∷ []

-- Two of the five bytes are read.
abbrev half_read : BufferedTransport
half_read = record { buffer = greeting; read_pos = 2 }

abbrev all_read : BufferedTransport
all_read = record { buffer = greeting; read_pos = 5 }

-- Four more bytes than there are.
perform-Refines_example :
    Refines (Call.throw_away 7) half_read (perform (Call.throw_away 7) half_read)
perform-Refines_example = perform-Refines (Call.throw_away 7) half_read (omega arith) (omega arith)

throw_away_test : perform (Call.throw_away 7) half_read ≡ (throws exception, half_read)
unfolding perform Buffer.throw_away Buffer.fastforward
throw_away_test = refl

read_test : perform (Call.read 9) half_read ≡ (ok (76 ∷ 76 ∷ 79 ∷ []), all_read)
unfolding perform Buffer.read Buffer.clamp Buffer.remaining_size Buffer.current_bytes
    Buffer.fastforward
read_test = refl

-- High byte first, unless the flag is set.
write_int16_test :
    ((write_int16 false 258 Buffer.make).1.buffer ≡ 1 ∷ 2 ∷ [])
    × ((write_int16 true 258 Buffer.make).1.buffer ≡ 2 ∷ 1 ∷ [])
unfolding write_int16 Buffer.write
write_int16_test = (refl, refl)

read_string-write_string_example :
    ((read_string8 (write_string8 greeting all_read).1).0 ≡ ok greeting)
    × ((read_string16 true (write_string16 true greeting all_read).1).0 ≡ ok greeting)
    × ((read_string32 true (write_string32 true greeting all_read).1).0 ≡ ok greeting)
read_string-write_string_example =
    read_string-write_string true greeting all_read (omega arith) refl (omega arith)
