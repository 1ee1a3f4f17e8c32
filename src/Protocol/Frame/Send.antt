-- ===== src/Protocol/Frame/Send.antt =====
-- What `FrameProtocol::processWrite` puts on the wire, and that a reader gets it back.
use mathlib.Core.Path.{subst}
use coconut.Base
use coconut.Base.{
  ℕ, ◌+◌, ◌-◌, ◌%◌, ◌≤◌, ◌<◌, ◌≡◌, refl, sym, ap, ◌∙◌, arith, Bool, true, false, List, [], ◌∷◌,
  ◌++◌, Option, none, some, Bytes, take, drop, length-append, append_assoc, append-nil, take-all,
  u32_mod, u64_mod, int_sign, int_of_size, Result, ok, M, pure, ◌==◌, ◌>>◌, ◌>>=◌, bind-ok,
  length-drop, ltb, size_add,
}
use coconut.Buffer
use coconut.Buffer.Valid.{
  IsValid, remaining, remaining_size_lem, current_bytes_lem, fastforward_lem,
}
use coconut.Protocol.Frame
use coconut.Protocol.Frame.Writing
use coconut.Protocol.Frame.Delivery.{payload_view, process_read-frame}
use coconut.Protocol.Frame.Parse.{at_end, IsHeader, encode, received}
use coconut.Protocol.Frame.Serialize.{own_or_nested, serialized, process_serialize_lem}
use coconut.Protocol.Frame.{FrameProtocol, FrameHeader, State}
use coconut.Wire.{Transport}
use coconut.Wire.Agree.{buffer_transport}

-- The transport takes all the bytes, and is s' behind them; it is not asked for none.
abbrev pub Takes : {S : Type 0} → Transport S → Bytes → S → S → Type 0
Takes transport [] s s' = s ≡ s'
Takes transport (c ∷ cs) s s' = transport.write (c ∷ cs) s ≡ (ok (Base.length (c ∷ cs)), s')

pub buffer-Takes :
    (bytes : Bytes) (b : Buffer.BufferedTransport)
    → Base.length bytes < int_sign
    → Takes buffer_transport bytes b (record b { buffer = b.buffer ++ bytes })
unfolding Buffer.write
buffer-Takes [] b few = rw append-nil refl
buffer-Takes (c ∷ cs) b few = ground arith

-- A protocol that is ready to write these bytes.
abbrev ready : Bytes → FrameProtocol → FrameProtocol
ready bytes p = record p {
  writebuffer = record { buffer = bytes; read_pos = 0 };
  turn_on_write = true;
}

to_string_lem :
    (b : Buffer.BufferedTransport)
    → IsValid b
    → Buffer.to_string_from_current_ptr b ≡ (ok (remaining b), b)
unfolding Buffer.to_string_from_current_ptr
to_string_lem b v =
    let n = remaining_size_lem b v in
    ground (
      arith,
      n,
      current_bytes_lem (Buffer.remaining_size b) b v,
      take-all (Buffer.remaining_size b) (remaining b),
      length-drop b.read_pos b.buffer,
    )

module _ {S : Type 0} (transport : Transport S) where
  write_all_lem :
      (c : ℕ) (cs : Bytes) (p : FrameProtocol) (s s' : S)
      → Base.length (c ∷ cs) < int_sign
      → transport.write (c ∷ cs) s ≡ (ok (Base.length (c ∷ cs)), s')
      → Writing.on_transport transport (Writing.write_all transport (c ∷ cs)) (p, s)
        ≡ (ok (Base.length (c ∷ cs)), (p, s'))
  unfolding Writing.write_all
  write_all_lem c cs p s s' few taken =
      let whole : (Base.length (c ∷ cs) % u32_mod == Base.length (c ∷ cs)) ≡ true = ground arith in
      rw taken (rw whole refl)

  write_nested_lem :
      (protocol : Option Bytes) (p : FrameProtocol) (s s' : S)
      → Base.length (own_or_nested [] protocol) < int_sign
      → Takes transport (own_or_nested [] protocol) s s'
      → Writing.write_nested transport protocol (p, s) ≡ (ok tt, (p, s'))
  unfolding Writing.write_nested
  write_nested_lem none p s s' few taken = ap (λ x. (ok tt, (p, x))) taken
  write_nested_lem (some []) p s s' few taken = ap (λ x. (ok tt, (p, x))) taken
  write_nested_lem (some (c ∷ cs)) p s s' few taken =
      let test : ltb 0 (Base.length (c ∷ cs)) ≡ true = ground arith in
      rw test (
        bind-ok (Writing.on_transport transport (Writing.write_all transport (c ∷ cs)))
          (λ _. pure tt) (write_all_lem c cs p s s' few taken))

  write_own_lem :
      (bytes : Bytes) (p : FrameProtocol) (s s' : S)
      → Base.length bytes < int_sign
      → Takes transport bytes s s'
      → Writing.write_own transport (ready bytes p) (ready bytes p, s)
        ≡ (ok tt, (record (ready bytes p) { writebuffer = at_end (ready bytes p).writebuffer }, s'))
  unfolding Writing.write_own Buffer.remaining_size
  write_own_lem [] p s s' few taken = ap (λ x. (ok tt, (ready [] p, x))) taken
  write_own_lem (c ∷ cs) p s s' few taken =
      let bytes = c ∷ cs in
      let q = ready bytes p in
      let test : ltb 0 (Buffer.remaining_size q.writebuffer) ≡ true = ground arith in
      let step = λ (x : Bytes). Writing.on_transport transport (Writing.write_all transport x) in
      let after =
        λ (n : ℕ). Writing.on_protocol transport (Frame.on_writebuffer (Buffer.fastforward n)) in
      rw test (
        bind-ok
          (Writing.on_protocol transport (Frame.on_writebuffer Buffer.to_string_from_current_ptr))
          (λ x. step x >>= after)
          (ap (λ o. (o.0, (record q { writebuffer = o.1 }, s)))
            (to_string_lem q.writebuffer (omega arith)))
        ∙ bind-ok (step bytes) after (write_all_lem c cs q s s' few taken)
        ∙ ap (λ o. (o.0, (record q { writebuffer = o.1 }, s')))
            (fastforward_lem (Base.length bytes) q.writebuffer (omega arith) (omega arith)
              ∙ ap (λ (n : ℕ). (ok tt, record (q.writebuffer) { read_pos = n })) (omega arith)))

  -- `processWrite` of a protocol that may write and whose writing buffer is unread.
  process_write_lem :
      (p : FrameProtocol) (s s' s'' : S)
      → p.writebuffer.read_pos ≡ 0
      → p.turn_on_write ≡ true
      → Base.length p.writebuffer.buffer < int_sign
      → Base.length (own_or_nested [] p.payload_protocol) < int_sign
      → Takes transport p.writebuffer.buffer s s'
      → Takes transport (own_or_nested [] p.payload_protocol) s' s''
      → Writing.process_write transport (p, s)
        ≡ (ok true, (record p { writebuffer = at_end p.writebuffer }, s''))
  unfolding Writing.process_write
  process_write_lem p s s' s'' start on few few' taken taken' =
      let bytes = p.writebuffer.buffer in
      let q = ready bytes p in
      let nested = Writing.write_nested transport p.payload_protocol in
      rw (start, on)
        (bind-ok (Writing.write_own transport q) (λ _. nested >> pure true)
            (write_own_lem bytes p s s' few taken)
          ∙ bind-ok nested (λ _. pure true)
              (write_nested_lem p.payload_protocol (record q { writebuffer = at_end q.writebuffer })
                s' s'' few' taken'))

  -- What a client does with a frame of its own: `setFrame`, `processSerialize` and `processWrite`.
  abbrev pub send_frame : Bool → FrameHeader → Bytes → M S Bool
  send_frame le h payload s =
      let p = (Frame.set_frame h payload Frame.make).1 in
      let (r, (p', s')) =
        Writing.process_write transport ((Writing.process_serialize le 0 p).1, s) in
      (r, s')

own_or_nested-none : (bytes : Bytes) → own_or_nested bytes none ≡ bytes
own_or_nested-none [] = refl
own_or_nested-none (c ∷ cs) = refl

-- The header that goes out with a payload of `n` bytes.
abbrev pub wire_header : FrameHeader → ℕ → FrameHeader
wire_header h n = record { length = 16 + n; checksum = 1; cmd = h.cmd; trid = h.trid }

-- The bytes of a frame that is sent.
abbrev pub on_wire : Bool → FrameHeader → Bytes → Bytes
on_wire le h payload = encode le (wire_header h (Base.length payload)) ++ payload

pub send_frame_lem :
    {S : Type 0} (transport : Transport S) (le : Bool) (h : FrameHeader) (payload : Bytes)
    (s s' : S)
    → Base.length payload + 16 < int_sign
    → Takes transport (on_wire le h payload) s s'
    → send_frame transport le h payload s ≡ (ok true, s')
unfolding Frame.set_frame
send_frame_lem transport le h body s s' few taken =
    let p = (Frame.set_frame h body Frame.make).1 in
    let m : Base.length (own_or_nested body none) ≡ Base.length body =
      ap Base.length (own_or_nested-none body) in
    let n : 0 + Base.length (own_or_nested body none) ≡ Base.length body = omega (arith, m) in
    let out = serialized le 0 p in
    let room : Base.length out.writebuffer.buffer ≡ 16 + Base.length body = omega arith in
    let same : on_wire le h body ≡ out.writebuffer.buffer = rw n refl in
    ap
      (λ q. (
        (Writing.process_write transport (q.1, s)).0,
        (Writing.process_write transport (q.1, s)).1.1,
      ))
      (process_serialize_lem le 0 p (omega arith))
    ∙ ap (λ q. (q.0, q.1.1))
        (process_write_lem transport out s s' s' refl refl (omega arith) (omega arith)
          (subst (λ x. Takes transport x s s') same taken) refl)

-- A frame set from a header, whose command and transaction id are 32-bit words, and a payload,
-- serialized and written to an empty transport, is on the other side of the wire a complete frame
-- for a new protocol, whatever bytes follow it: it has the sender's command, transaction id and
-- payload, checksum 1, the length of the whole frame, and leaves all the following bytes. An int
-- can count the frame with what follows.
pub process_read-send_frame :
    (le : Bool) (h : FrameHeader) (payload rest : Bytes)
    → h.cmd < u32_mod
    → h.trid < u32_mod
    → Base.length payload + Base.length rest + 16 < int_sign
    → let (sent, b) = send_frame buffer_transport le h payload Buffer.make in
      let (r, p) = Frame.process_read le (received (b.buffer ++ rest)) in
      (sent ≡ ok true)
      × (r ≡ ok true)
      × (p.header ≡ wire_header h (Base.length payload))
      × (payload_view p ≡ ok payload)
      × (Frame.remaining_bytes p ≡ ok rest)
process_read-send_frame le h body rest hc ht room =
    let h' = wire_header h (Base.length body) in
    let i : IsHeader h' = omega arith in
    let (read, head, payload, behind) = process_read-frame le h' body rest i refl room in
    let sent =
      send_frame_lem buffer_transport le h body Buffer.make
        (record { buffer = on_wire le h body; read_pos = 0 }) (omega arith)
        (buffer-Takes (on_wire le h body) Buffer.make (omega arith)) in
    rw sent (ap (λ o. o.0) sent, read, head, payload, behind)
