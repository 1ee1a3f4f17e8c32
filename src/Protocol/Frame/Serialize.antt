-- ===== src/Protocol/Frame/Serialize.antt =====
-- What `FrameProtocol::processSerialize` and `processWrite` put on the wire, and that it is read
-- back.
use coconut.Base
use coconut.Base.{
  ℕ, ◌+◌, ◌-◌, ◌%◌, ◌≤◌, ◌<◌, ◌≡◌, refl, sym, ap, ◌∙◌, arith, Bool, true, false, List, [], ◌∷◌,
  ◌++◌, Option, none, some, Bytes, take, drop, length-append, append_assoc, append-nil, take-all,
  u32_mod, u64_mod, int_sign, int_of_size, Result, ok, M, pure, resume, ◌>>◌, ◌>>=◌, bind-ok,
  length-drop, ltb, size_add,
}
use coconut.Buffer
use coconut.Protocol.Frame
use coconut.Protocol.Frame.Writing
use coconut.Protocol.Frame.Parse.{encode}
use coconut.Protocol.Frame.{FrameProtocol, FrameHeader, State}
use coconut.Wire
use coconut.Wire.{Transport}

-- The payload that goes out: the protocol's own, or else the nested protocol's.
abbrev pub own_or_nested : Bytes → Option Bytes → Bytes
own_or_nested (c ∷ cs) protocol = c ∷ cs
own_or_nested [] (some bytes) = bytes
own_or_nested [] none = []

abbrev pub outgoing : FrameProtocol → Bytes
outgoing p = own_or_nested p.payload p.payload_protocol

-- The header that goes out.
abbrev pub sent_header : ℕ → FrameProtocol → FrameHeader
sent_header buffer_size p = record {
  length = 16 + (buffer_size + Base.length (outgoing p));
  checksum = 1;
  cmd = p.header.cmd;
  trid = p.header.trid;
}

abbrev pub serialized : Bool → ℕ → FrameProtocol → FrameProtocol
serialized le buffer_size p = record p {
  header = sent_header buffer_size p;
  writebuffer = record {
    buffer = encode le (sent_header buffer_size p) ++ p.payload;
    read_pos = 0;
  };
}

-- `FrameHeader::serialize` counts the twelve bytes before the length and the length's own four.
serialize_header_lem :
    (le : Bool) (size : ℕ) (p : FrameProtocol)
    → p.writebuffer ≡ Buffer.make
    → size + 16 < u32_mod
    → let h = record (p.header) { length = 16 + size } in
      Writing.serialize_header le size p ≡ (
        ok tt,
        record p { header = h; writebuffer = record { buffer = encode le h; read_pos = 0 } },
      )
unfolding Writing.serialize_header Wire.write_int32 Buffer.write Buffer.total_size
serialize_header_lem le size p empty few =
    let sent = λ (v : ℕ). record p {
      header = record (p.header) { length = v };
      writebuffer = record { buffer = encode le (record (p.header) { length = v }); read_pos = 0 };
    } in
    let n : (12 + size + 4) % u32_mod ≡ 16 + size = omega arith in
    rw empty (ap (λ (v : ℕ). (ok tt, sent v)) n)

serialize_payload_lem :
    (le : Bool) (size : ℕ) (body : Bytes) (protocol : Option Bytes) (p : FrameProtocol)
    → p.writebuffer ≡ Buffer.make
    → size + Base.length (own_or_nested body protocol) + 16 < u32_mod
    → let h = record (p.header) {
      length = 16 + (size + Base.length (own_or_nested body protocol));
    } in
      Writing.serialize_payload le size body protocol p ≡ (
        ok tt,
        record p {
          header = h;
          writebuffer = record { buffer = encode le h ++ body; read_pos = 0 };
        },
      )
unfolding Writing.serialize_payload Buffer.write
serialize_payload_lem le size (c ∷ cs) protocol p empty few =
    let n : size_add size (Base.length (c ∷ cs)) ≡ size + Base.length (c ∷ cs) = omega arith in
    rw n (
      ap (resume (λ _. Frame.on_writebuffer (Buffer.write (c ∷ cs)) >> pure tt))
        (serialize_header_lem le (size + Base.length (c ∷ cs)) p empty (omega arith)))
serialize_payload_lem le size [] (some bytes) p empty few =
    let n : size_add size (Base.length bytes) ≡ size + Base.length bytes = omega arith in
    rw n (serialize_header_lem le (size + Base.length bytes) p empty few)
serialize_payload_lem le size [] none p empty few =
    let n : size + 0 ≡ size = omega arith in
    rw n (serialize_header_lem le size p empty (omega arith))

-- `processSerialize` of a frame whose length is a 32-bit word leaves in the writing buffer a
-- header with checksum 1 and the length of the whole frame, the bytes of the decorators included,
-- and behind it the frame's own payload; the bytes of a nested protocol are counted but not
-- copied. What the writing buffer held is gone.
pub process_serialize_lem :
    (le : Bool) (buffer_size : ℕ) (p : FrameProtocol)
    → buffer_size + Base.length (outgoing p) + 16 < u32_mod
    → Writing.process_serialize le buffer_size p ≡ (ok true, serialized le buffer_size p)
unfolding Writing.process_serialize Writing.serialize_payload Buffer.clear Buffer.write
process_serialize_lem le buffer_size p few =
    let start = record p {
      header = record (p.header) { checksum = 1 };
      writebuffer = Buffer.make;
    } in
    ap (resume (λ _. pure true))
      (serialize_payload_lem le buffer_size p.payload p.payload_protocol start refl few)
