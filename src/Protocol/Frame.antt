-- ===== src/Protocol/Frame.antt =====
-- `FrameProtocol` (src/FrameProtocol.h and .cpp) with the members of `BaseProtocol` that it uses
-- (src/BaseProtocol.h and .cpp). A frame has no parent protocol.
-- `processRead` is modelled as `processReadFromReadingBuffer` calls it: the transport is the
-- protocol's own reading buffer. The flag `le` is the global `_setLittleEndian_on`.
-- A nested `payload_protocol_` is the bytes that its `processSerialize` leaves to be written.
pub mod Writing
pub mod Parse
pub mod Delivery
pub mod Split
pub mod Short
pub mod Serialize
pub mod Send
mod Tests
use coconut.Base
use coconut.Base.{
  ℕ, ◌+◌, ◌%◌, Bool, ◌||◌, true, false, List, [], ◌∷◌, ◌++◌, Option, none, some, Bytes, take, drop,
  ltb, ◌==◌, not, ◌&&◌, if◌then◌else◌, u32_mod, u64_mod, int_of_size, size_of_int, int_lt, size_add,
  size_sub, Result, ok, throws, fault, exception, protocol_exception, socket_exception, Exception,
  M, ◌>>=◌, ◌>>◌, pure, gets, modify, reads, throw_if,
}
use coconut.Buffer
use coconut.Buffer.{BufferedTransport}
use coconut.Wire
use coconut.Wire.{Transport}
use coconut.Wire.Agree.{buffer_transport}

pub record FrameHeader : Type 0 where
  pub length : ℕ
  pub checksum : ℕ
  pub cmd : ℕ
  pub trid : ℕ

-- `FrameHeader(command, transactionId)`
abbrev pub make_header : ℕ → ℕ → FrameHeader
make_header command transaction_id = record {
  length = 0;
  checksum = 0;
  cmd = command;
  trid = transaction_id;
}

pub data State : Type 0 where
  init command transation_id checksum length payload complete : State

pub record FrameProtocol : Type 0 where
  pub read_buffer : BufferedTransport
  pub writebuffer : BufferedTransport
  pub turn_on_write : Bool
  pub header : FrameHeader
  pub init_header : FrameHeader
  pub state : State
  pub payload : Bytes
  pub payload_pos : ℕ
  pub payload_protocol : Option Bytes

-- The constructor.
abbrev pub make : FrameProtocol
make = record {
  read_buffer = Buffer.make;
  writebuffer = Buffer.make;
  turn_on_write = true;
  header = make_header 0 0;
  init_header = make_header 0 0;
  state = init;
  payload = [];
  payload_pos = 0;
  payload_protocol = none;
}

abbrev pub is_complete : State → Bool
is_complete complete = true
is_complete _ = false

abbrev pub is_read_complete : FrameProtocol → Bool
is_read_complete p = is_complete p.state

abbrev pub on_read_buffer : {A : Type 0} → M BufferedTransport A → M FrameProtocol A
on_read_buffer m p = let (r, b) = m p.read_buffer in (r, record p { read_buffer = b })

abbrev pub on_writebuffer : {A : Type 0} → M BufferedTransport A → M FrameProtocol A
on_writebuffer m p = let (r, b) = m p.writebuffer in (r, record p { writebuffer = b })

unfoldable pub add_to_reading_buffer : Bytes → M FrameProtocol ℕ
add_to_reading_buffer bytes = on_read_buffer (Buffer.write bytes)

abbrev pub read_int32 : Bool → M FrameProtocol (ℕ × ℕ)
read_int32 le = on_read_buffer (Wire.read_int32_into buffer_transport le)

-- The cases of the switch in `processRead`, from the last one up: each falls through to the next.
unfoldable pub read_payload : M FrameProtocol Bool
read_payload p =
    let remain = int_of_size (size_sub p.header.length (Buffer.total_size p.read_buffer)) in
    if int_lt 0 remain then (ok false, p) else (
      ok true,
      record p {
        init_header = p.header;
        payload_pos = size_of_int p.read_buffer.read_pos;
        state = complete;
      },
    )

abbrev pub got_length : ℕ × ℕ → M FrameProtocol Bool
got_length (value, k) = do
  modify (λ p. record p {
    payload_pos = size_add p.payload_pos k;
    header = record (p.header) { length = value };
    state = payload;
  })
  read_payload

unfoldable pub read_length : Bool → M FrameProtocol Bool
read_length le = read_int32 le >>= got_length

abbrev pub got_checksum : Bool → ℕ × ℕ → M FrameProtocol Bool
got_checksum le (value, k) = do
  modify (λ p. record p {
    payload_pos = size_add p.payload_pos k;
    header = record (p.header) { checksum = value };
    state = length;
  })
  read_length le

unfoldable pub read_checksum : Bool → M FrameProtocol Bool
read_checksum le = read_int32 le >>= got_checksum le

abbrev pub got_transation_id : Bool → ℕ × ℕ → M FrameProtocol Bool
got_transation_id le (value, k) = do
  modify (λ p. record p {
    payload_pos = size_add p.payload_pos k;
    header = record (p.header) { trid = value };
    state = checksum;
  })
  read_checksum le

unfoldable pub read_transation_id : Bool → M FrameProtocol Bool
read_transation_id le = read_int32 le >>= got_transation_id le

abbrev pub got_command : Bool → ℕ × ℕ → M FrameProtocol Bool
got_command le (value, k) = do
  modify (λ p. record p {
    payload_pos = size_add p.payload_pos k;
    header = record (p.header) { cmd = value };
    state = transation_id;
  })
  read_transation_id le

unfoldable pub read_command : Bool → M FrameProtocol Bool
read_command le = read_int32 le >>= got_command le

abbrev pub read_state : State → Bool → M FrameProtocol Bool
read_state init le = read_command le
read_state command le = read_command le
read_state transation_id le = read_transation_id le
read_state checksum le = read_checksum le
read_state length le = read_length le
read_state payload le = read_payload
read_state complete le = pure true

-- The handlers around the switch: both exceptions end in `return false`.
abbrev pub caught : Result Bool × FrameProtocol → Result Bool × FrameProtocol
caught (ok b, p) = (ok b, p)
caught (throws protocol_exception, p) = (ok false, p)
caught (throws socket_exception, p) = (ok false, p)
caught (throws e, p) = (throws e, p)
caught (fault, p) = (fault, p)

unfoldable pub process_read : Bool → M FrameProtocol Bool
process_read le p = caught (read_state p.state le p)

unfoldable pub read_payload_size : FrameProtocol → ℕ
read_payload_size p = size_sub (size_of_int p.read_buffer.read_pos) p.payload_pos

-- How far the end of the frame is from the read position.
unfoldable pub to_end : FrameProtocol → ℕ
unfolding read_payload_size
to_end p = size_sub (size_sub p.init_header.length p.payload_pos) (read_payload_size p)

unfoldable pub remaining_buffer_size : FrameProtocol → ℕ
remaining_buffer_size p =
    if is_read_complete p
    then size_sub (Buffer.remaining_size p.read_buffer) (to_end p)
    else Buffer.remaining_size p.read_buffer

-- `remainingBufferPtr()` as an offset into the reading buffer.
unfoldable pub remaining_buffer_ptr : FrameProtocol → ℕ
remaining_buffer_ptr p =
    let current = size_of_int p.read_buffer.read_pos in
    if is_read_complete p then size_add current (to_end p) else current

-- The `remainingBufferSize()` bytes at `remainingBufferPtr()`.
unfoldable pub remaining_bytes : FrameProtocol → Result Bytes
remaining_bytes p =
    let at = remaining_buffer_ptr p in
    let size = remaining_buffer_size p in
    if ltb (Buffer.total_size p.read_buffer) (at + size)
    then fault
    else ok (take size (drop at p.read_buffer.buffer))

unfoldable pub payload_size : FrameProtocol → ℕ
payload_size p =
    if not (Base.length p.payload == 0)
    then Base.length p.payload
    else if is_read_complete p
    then (let expacted = int_of_size (size_sub p.init_header.length p.payload_pos) in
        if int_lt (int_of_size (Buffer.total_size p.read_buffer)) expacted
        then 0
        else size_of_int expacted)
    else 0

-- What stands from `payloadPtr()` to the end of its string; `none` is the null pointer.
unfoldable pub payload_ptr : FrameProtocol → Option Bytes
payload_ptr p =
    if not (Base.length p.payload == 0)
    then some p.payload
    else if is_read_complete p && ltb p.payload_pos (Buffer.total_size p.read_buffer)
    then some (drop p.payload_pos p.read_buffer.buffer)
    else none

-- `setFrame(header, payload, size)` and `setFrame(header, protocol)`
unfoldable pub set_frame : FrameHeader → Bytes → M FrameProtocol (Unit {0})
set_frame h bytes = modify (λ p. record p { header = h; payload = bytes; state = complete })

unfoldable pub set_frame_protocol : FrameHeader → Bytes → M FrameProtocol (Unit {0})
set_frame_protocol h protocol =
    modify (λ p. record p { header = h; payload_protocol = some protocol; state = complete })
