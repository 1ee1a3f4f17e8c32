-- ===== src/Protocol/Line.antt =====
-- `LineProtocol` (src/LineProtocol.h and .cpp) without a parent protocol, as `LineController` makes
-- it, with the members of `BaseProtocol` that it uses (src/BaseProtocol.h). `processRead` is modelled
-- as `processReadFromReadingBuffer` calls it, over the protocol's own reading buffer.
pub mod Scan
pub mod Delivery
pub mod Chunks
mod Tests
use coconut.Base
use coconut.Base.{
  ℕ, zero, suc, ◌+◌, ◌-◌, Bool, true, false, List, [], ◌∷◌, ◌++◌, Option, none, some, Bytes,
  get_elem?, take, drop, ltb, ◌==◌, if◌then◌else◌, int_of_size, size_of_int, size_sub, Result, ok,
  throws, fault, exception, protocol_exception, socket_exception, M, ◌>>=◌, ◌>>◌, pure, modify,
}
use coconut.Buffer
use coconut.Buffer.{BufferedTransport}
use coconut.Wire
use coconut.Wire.Agree.{buffer_transport}

pub record LineProtocol : Type 0 where
  pub read_buffer : BufferedTransport
  pub writebuffer : BufferedTransport
  pub line : Bytes
  pub read_complete : Bool
  pub remain_read_buffer_size : ℕ

-- The constructor.
abbrev pub make : LineProtocol
make = record {
  read_buffer = Buffer.make;
  writebuffer = Buffer.make;
  line = [];
  read_complete = false;
  remain_read_buffer_size = 0;
}

abbrev pub on_read_buffer : {A : Type 0} → M BufferedTransport A → M LineProtocol A
on_read_buffer m p = let (r, b) = m p.read_buffer in (r, record p { read_buffer = b })

abbrev pub on_writebuffer : {A : Type 0} → M BufferedTransport A → M LineProtocol A
on_writebuffer m p = let (r, b) = m p.writebuffer in (r, record p { writebuffer = b })

unfoldable pub add_to_reading_buffer : Bytes → M LineProtocol ℕ
add_to_reading_buffer bytes = on_read_buffer (Buffer.write bytes)

unfoldable pub process_serialize : M LineProtocol Bool
process_serialize p =
    (do
      on_writebuffer Buffer.clear
      on_writebuffer (Wire.write_binary buffer_transport p.line)
      on_writebuffer (Wire.write_binary buffer_transport (13 ∷ 10 ∷ []))
      pure true)
      p

-- `BUFFER_SIZE`
abbrev pub buffer_size : ℕ
buffer_size = 4096

-- `buffer[i - 1]`, which for 0 is before the array.
abbrev pub before : Bytes → ℕ → Option ℕ
before chunk zero = none
before chunk (suc i) = get_elem? chunk i

-- What the branch of a line feed at `i` ends with.
unfoldable pub complete : Bytes → ℕ → ℕ → ℕ → M LineProtocol Bool
complete chunk i addition delim_size = do
  modify (λ p. record p {
    line = p.line ++ take (i - (delim_size - 1)) chunk;
    read_complete = true;
    remain_read_buffer_size = Base.length chunk - i - (1 + addition);
  })
  pure true

-- The test for `\n\r`; `rest` stands behind the line feed.
unfoldable pub line_feed : Bytes → ℕ → Bytes → M LineProtocol Bool
line_feed chunk i [] = complete chunk i 0 1
line_feed chunk i (c ∷ cs) = if c == 13 then complete chunk i 1 2 else complete chunk i 0 1

-- A line feed at `i`, with the byte before it.
unfoldable pub found : Bytes → ℕ → Option ℕ → Bytes → M LineProtocol Bool
found chunk i none rest = λ p. (fault, p)
found chunk i (some c) rest = if c == 13 then complete chunk i 0 2 else line_feed chunk i rest

-- The loop from `i` on, where `rest` stands; without a line feed the whole chunk is kept.
unfoldable pub scan : Bytes → ℕ → Bytes → M LineProtocol Bool
scan chunk i [] = do modify (λ p. record p { line = p.line ++ chunk }); pure false
scan chunk i (c ∷ cs) = elim (c == 10) [
  | true ↦ found chunk i (before chunk i) cs
  | false ↦ scan chunk (i + 1) cs
]

-- The handlers: both exceptions end in `return false`.
abbrev pub caught : Result Bool × LineProtocol → Result Bool × LineProtocol
caught (throws protocol_exception, p) = (ok false, p)
caught (throws socket_exception, p) = (ok false, p)
caught (r, p) = (r, p)

unfoldable pub process_read : M LineProtocol Bool
process_read p =
    caught ((do chunk ← on_read_buffer (Buffer.read buffer_size); scan chunk 0 chunk) p)

unfoldable pub remaining_buffer_size : LineProtocol → ℕ
remaining_buffer_size p =
    if p.read_complete
    then size_of_int p.remain_read_buffer_size
    else Buffer.remaining_size p.read_buffer

-- `remainingBufferPtr()` as an offset into the reading buffer.
unfoldable pub remaining_buffer_ptr : LineProtocol → ℕ
remaining_buffer_ptr p =
    let current = size_of_int p.read_buffer.read_pos in
    if p.read_complete then size_sub current (size_of_int p.remain_read_buffer_size) else current

-- The `remainingBufferSize()` bytes at `remainingBufferPtr()`.
unfoldable pub remaining_bytes : LineProtocol → Result Bytes
remaining_bytes p =
    let at = remaining_buffer_ptr p in
    let size = remaining_buffer_size p in
    if ltb (Buffer.total_size p.read_buffer) (at + size)
    then fault
    else ok (take size (drop at p.read_buffer.buffer))
