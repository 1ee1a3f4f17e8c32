-- ===== src/Protocol/Frame/Writing.antt =====
-- `FrameProtocol::processSerialize` and `processWrite` (src/FrameProtocol.h and .cpp), the second with
-- `BaseProtocol::processWrite` (src/BaseProtocol.cpp).
use coconut.Base
use coconut.Base.{
  ℕ, ◌+◌, ◌%◌, Bool, ◌||◌, true, false, List, [], ◌∷◌, ◌++◌, Option, none, some, Bytes, take, drop,
  ltb, ◌==◌, not, ◌&&◌, if◌then◌else◌, u32_mod, u64_mod, int_of_size, size_of_int, int_lt, size_add,
  size_sub, Result, ok, throws, fault, exception, protocol_exception, socket_exception, Exception,
  M, ◌>>=◌, ◌>>◌, pure, gets, modify, reads, throw_if,
}
use coconut.Buffer
use coconut.Buffer.{BufferedTransport}
use coconut.Wire
use coconut.Wire.{Transport}
use coconut.Wire.Agree.{buffer_transport}
use coconut.Protocol.Frame.{FrameProtocol, on_writebuffer}

-- `FrameHeader::serialize` into the writing buffer.
unfoldable pub serialize_header : Bool → ℕ → M FrameProtocol (Unit {0})
serialize_header le payload_size = do
  h ← gets (λ p. p.header)
  on_writebuffer (Wire.write_int32 buffer_transport le h.cmd)
  on_writebuffer (Wire.write_int32 buffer_transport le h.trid)
  on_writebuffer (Wire.write_int32 buffer_transport le h.checksum)
  modify (λ p. record p {
    header = record (p.header) {
      length = (Buffer.total_size p.writebuffer + payload_size + 4) % u32_mod;
    };
  })
  h' ← gets (λ p. p.header)
  on_writebuffer (Wire.write_int32 buffer_transport le h'.length)
  pure tt

-- The four branches of `processSerialize`, behind `makeChecksum`.
unfoldable pub serialize_payload : Bool → ℕ → Bytes → Option Bytes → M FrameProtocol (Unit {0})
serialize_payload le buffer_size (c ∷ cs) protocol = do
  serialize_header le (size_add buffer_size (Base.length (c ∷ cs)))
  on_writebuffer (Buffer.write (c ∷ cs))
  pure tt
serialize_payload le buffer_size [] (some protocol) =
    serialize_header le (size_add buffer_size (Base.length protocol))
serialize_payload le buffer_size [] none = serialize_header le buffer_size

unfoldable pub process_serialize : Bool → ℕ → M FrameProtocol Bool
process_serialize le buffer_size = do
  on_writebuffer Buffer.clear
  modify (λ p. record p { header = record (p.header) { checksum = 1 } })
  p ← gets (λ p. p)
  serialize_payload le buffer_size p.payload p.payload_protocol
  pure true

-- `processWrite`: what goes to the transport, in order. The protocol's own buffer goes through
-- `BaseProtocol::processWrite`, then the nested protocol's bytes.
module _ {S : Type 0} (transport : Transport S) where
  -- A write that must take all the bytes.
  unfoldable pub write_all : Bytes → M S ℕ
  write_all bytes = do
    pos ← transport.write bytes
    throw_if (not (pos % u32_mod == Base.length bytes)) protocol_exception
    pure pos

  abbrev pub on_transport : {A : Type 0} → M S A → M (FrameProtocol × S) A
  on_transport m (p, s) = let (r, s') = m s in (r, (p, s'))

  abbrev pub on_protocol : {A : Type 0} → M FrameProtocol A → M (FrameProtocol × S) A
  on_protocol m (p, s) = let (r, p') = m p in (r, (p', s))

  unfoldable pub write_own : FrameProtocol → M (FrameProtocol × S) (Unit {0})
  write_own p =
      if p.turn_on_write && ltb 0 (Buffer.remaining_size p.writebuffer)
      then (do
        bytes ← on_protocol (on_writebuffer Buffer.to_string_from_current_ptr)
        pos ← on_transport (write_all bytes)
        on_protocol (on_writebuffer (Buffer.fastforward pos)))
      else pure tt

  unfoldable pub write_nested : Option Bytes → M (FrameProtocol × S) (Unit {0})
  write_nested none = pure tt
  write_nested (some bytes) =
      if ltb 0 (Base.length bytes) then on_transport (write_all bytes) >> pure tt else pure tt

  unfoldable pub process_write : M (FrameProtocol × S) Bool
  process_write = do (p, s) ← gets (λ q. q); write_own p; write_nested p.payload_protocol; pure true
