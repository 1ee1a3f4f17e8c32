-- ===== src/Protocol/Frame/Parse.antt =====
-- What `FrameProtocol::processRead` makes of the bytes in the reading buffer.
use coconut.Base
use coconut.Base.{
  ℕ, ◌+◌, ◌-◌, ◌%◌, ◌≤◌, ◌<◌, ◌≡◌, refl, sym, ap, ◌∙◌, arith, Bool, true, false, List, [], ◌∷◌,
  ◌++◌, Bytes, take, drop, length-append, length-drop, take-append, drop-append, append_assoc,
  u32_mod, int_sign, Result, ok, throws, protocol_exception, M, pure, bind-ok, bind-throws,
  size_add,
}
use coconut.Buffer.Codec
use coconut.Buffer.{BufferedTransport}
use coconut.Buffer.RoundTrip.{
  encode32, advance, Decodes, Decodes-read_int32, advance-IsValid, read_exactly_short,
}
use coconut.Buffer.Valid.{IsValid, remaining}
use coconut.Protocol.Frame
use coconut.Protocol.Frame.{FrameProtocol, FrameHeader, State}
use coconut.Wire.Agree.{read_int32_into-agrees, buffer_transport}
use coconut.Wire

pub Decodes-read_int32_into :
    (le : Bool) (v : ℕ)
    → v < u32_mod
    → Decodes (Wire.read_int32_into buffer_transport le) (encode32 le v) (v, 4)
unfolding Codec.read_int32_into
Decodes-read_int32_into le v h b rest valid r =
    read_int32_into-agrees le b
    ∙ bind-ok (Codec.read_int32 le) (λ value. pure (value, 4))
        (Decodes-read_int32 le v h b rest valid r)

-- The next header word is there: the protocol steps over it.
pub read_int32_lem :
    (le : Bool) (v : ℕ) (p : FrameProtocol) (rest : Bytes)
    → v < u32_mod
    → IsValid p.read_buffer
    → remaining p.read_buffer ≡ encode32 le v ++ rest
    → Frame.read_int32 le p ≡ (ok (v, 4), record p { read_buffer = advance 4 p.read_buffer })
read_int32_lem le v p rest h valid r =
    ap (λ o. (o.0, record p { read_buffer = o.1 }))
      (Decodes-read_int32_into le v h p.read_buffer rest valid r)

abbrev pub at_end : BufferedTransport → BufferedTransport
at_end b = record b { read_pos = Base.length b.buffer }

-- Only a part of the word is there: it is consumed, and the call throws.
pub read_int32_short :
    (le : Bool) (p : FrameProtocol)
    → IsValid p.read_buffer
    → Base.length (remaining p.read_buffer) < 4
    → Frame.read_int32 le p
      ≡ (throws protocol_exception, record p { read_buffer = at_end p.read_buffer })
unfolding Codec.read_int32_into Codec.read_int32
read_int32_short le p valid few =
    let b = p.read_buffer in
    let r : Codec.read_int32 le b ≡ (throws protocol_exception, at_end b) =
      bind-throws (Codec.read_exactly 4) (λ bytes. pure (Codec.net32 le (Codec.value_of bytes)))
        (read_exactly_short 4 b valid few (omega arith)) in
    ap (λ o. (o.0, record p { read_buffer = o.1 }))
      (read_int32_into-agrees le b ∙ bind-throws (Codec.read_int32 le) (λ value. pure (value, 4)) r)

-- The protocol behind one more header word.
abbrev pub took : FrameProtocol → FrameHeader → State → FrameProtocol
took p h s = record p {
  read_buffer = advance 4 p.read_buffer;
  payload_pos = size_add p.payload_pos 4;
  header = h;
  state = s;
}

-- Each case of the switch, where its word is there.
module _ (le : Bool) (v : ℕ) (p : FrameProtocol) (rest : Bytes) (h : v < u32_mod)
    (valid : IsValid p.read_buffer) (r : remaining p.read_buffer ≡ encode32 le v ++ rest) where
  word : Frame.read_int32 le p ≡ (ok (v, 4), record p { read_buffer = advance 4 p.read_buffer })
  word = read_int32_lem le v p rest h valid r

  pub read_length_lem :
      Frame.read_length le p
      ≡ Frame.read_payload (took p (record (p.header) { length = v }) State.payload)
  unfolding Frame.read_length
  read_length_lem = bind-ok (Frame.read_int32 le) Frame.got_length word

  pub read_checksum_lem :
      Frame.read_checksum le p
      ≡ Frame.read_length le (took p (record (p.header) { checksum = v }) State.length)
  unfolding Frame.read_checksum
  read_checksum_lem = bind-ok (Frame.read_int32 le) (Frame.got_checksum le) word

  pub read_transation_id_lem :
      Frame.read_transation_id le p
      ≡ Frame.read_checksum le (took p (record (p.header) { trid = v }) State.checksum)
  unfolding Frame.read_transation_id
  read_transation_id_lem = bind-ok (Frame.read_int32 le) (Frame.got_transation_id le) word

  pub read_command_lem :
      Frame.read_command le p
      ≡ Frame.read_transation_id le (took p (record (p.header) { cmd = v }) State.transation_id)
  unfolding Frame.read_command
  read_command_lem = bind-ok (Frame.read_int32 le) (Frame.got_command le) word

-- The bytes of a frame header, and of a frame.
abbrev pub encode_header : Bool → ℕ → ℕ → ℕ → ℕ → Bytes
encode_header le cmd trid checksum length =
    encode32 le cmd ++ (encode32 le trid ++ (encode32 le checksum ++ encode32 le length))

-- A protocol from `makeProtocol` with this reading buffer, and one that was given these bytes.
abbrev pub reading : BufferedTransport → FrameProtocol
reading b = record Frame.make { read_buffer = b }

abbrev pub received : Bytes → FrameProtocol
received bytes = reading (record { buffer = bytes; read_pos = 0 })

-- Where a protocol is behind the four words of a header.
abbrev pub behind_header : FrameProtocol → FrameHeader → FrameProtocol
behind_header p h = record p {
  read_buffer = advance 16 p.read_buffer;
  payload_pos = 16;
  header = h;
  state = State.payload;
}

-- The words of a header fit their type.
pub record IsHeader (h : FrameHeader) : Type 0 where
  pub cmd : h.cmd < u32_mod
  pub trid : h.trid < u32_mod
  pub checksum : h.checksum < u32_mod
  pub length : h.length < u32_mod

abbrev pub encode : Bool → FrameHeader → Bytes
encode le h = encode_header le h.cmd h.trid h.checksum h.length

-- All four words are there: the switch falls through to its last case.
pub read_header_lem :
    (le : Bool) (h : FrameHeader) (b : BufferedTransport) (rest : Bytes)
    → IsHeader h
    → IsValid b
    → remaining b ≡ encode le h ++ rest
    → Frame.read_command le (reading b) ≡ Frame.read_payload (behind_header (reading b) h)
read_header_lem le h b rest i valid r =
    let c = encode32 le h.cmd in
    let t = encode32 le h.trid in
    let k = encode32 le h.checksum in
    let l = encode32 le h.length in
    let p0 = reading b in
    let p1 = took p0 (record (p0.header) { cmd = h.cmd }) State.transation_id in
    let p2 = took p1 (record (p1.header) { trid = h.trid }) State.checksum in
    let p3 = took p2 (record (p2.header) { checksum = h.checksum }) State.length in
    let (v1, r1) = advance-IsValid b c (t ++ (k ++ (l ++ rest))) valid r in
    let (v2, r2) = advance-IsValid p1.read_buffer t (k ++ (l ++ rest)) v1 r1 in
    let (v3, r3) = advance-IsValid p2.read_buffer k (l ++ rest) v2 r2 in
    read_command_lem le h.cmd p0 (t ++ (k ++ (l ++ rest))) i.cmd valid r
    ∙ read_transation_id_lem le h.trid p1 (k ++ (l ++ rest)) i.trid v1 r1
    ∙ read_checksum_lem le h.checksum p2 (l ++ rest) i.checksum v2 r2
    ∙ read_length_lem le h.length p3 rest i.length v3 r3
    ∙ ap
        (λ (x : ℕ).
          Frame.read_payload
            (record (behind_header p0 h) { read_buffer = record b { read_pos = x } }))
        (omega arith)
