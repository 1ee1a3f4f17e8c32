-- ===== src/Protocol/Strings/Cut.antt =====
-- A list of strings of Strings.antt whose first bytes are cut.
use coconut.Base
use coconut.Base.{
  ℕ, zero, suc, ◌+◌, ◌-◌, ◌%◌, ◌≤◌, ◌<◌, ◌≡◌, refl, sym, ap, ◌∙◌, arith, Bool, true, false, List,
  [], ◌∷◌, ◌++◌, append_assoc, append-nil, Bytes, length-append, u32_mod, int_sign, int_of_size,
  Result, size_add, ok, M, ◌>>=◌, ◌>>◌, pure, bind-ok, bind-throws, drop-all, resume,
}
use coconut.Buffer.Codec
use coconut.Buffer.RoundTrip.{read_exactly_short}
use coconut.Buffer.Valid.{IsValid, remaining}
use coconut.Buffer.{BufferedTransport}
use coconut.Protocol.Strings
use coconut.Protocol.Strings.{
  StringListProtocol, end, contents, is_read_complete, read_strings, on_transport,
}
use coconut.Wire
use coconut.Wire.Agree.{buffer_transport}

-- A new protocol, without a parent, is given fewer than the four bytes of the size: `processRead`
-- returns true all the same, as for a complete list, although the list is not complete; the bytes
-- are consumed and nothing is kept of them.
pub process_read-cut_size :
    (le : Bool) (b : BufferedTransport)
    → IsValid b
    → Base.length (remaining b) < 4
    → let (r, (p, b')) = Strings.process_read buffer_transport le (pure true) (Strings.make, b) in
      (r ≡ ok true) × (p ≡ Strings.make) × (is_read_complete p.state ≡ false) × (remaining b' ≡ [])
unfolding Strings.process_read Strings.read_size Wire.read_int32_into Codec.read_exactly
process_read-cut_size le b v few =
    let done : BufferedTransport = record b { read_pos = Base.length b.buffer } in
    let word =
      bind-throws (Wire.read_exactly buffer_transport 4)
        (λ bytes. pure (Codec.net32 le (Codec.value_of bytes), 4))
        (read_exactly_short 4 b v few (omega arith)) in
    let sized = λ (o : ℕ × ℕ). Strings.on_protocol buffer_transport le (λ y. record y {
      list_size = o.0;
      payload_pos = (y.payload_pos + o.1) % u32_mod;
      state = contents;
    }) in
    let first =
      bind-throws (on_transport buffer_transport le (Wire.read_int32_into buffer_transport le))
        sized (ap (λ o. (o.0, (Strings.make, o.1))) word) in
    let c =
      ap
        (λ o.
          Strings.caught {S = StringListProtocol × BufferedTransport}
            (resume (λ _. Strings.read_contents buffer_transport le) o))
        first in
    (
      ap (λ o. o.0) c,
      ap (λ o. o.1.0) c,
      ap (λ o. is_read_complete o.1.0.state) c,
      ap (λ o. remaining o.1.1) c ∙ drop-all (Base.length b.buffer) b.buffer (omega arith),
    )
