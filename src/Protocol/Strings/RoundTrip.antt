-- ===== src/Protocol/Strings/RoundTrip.antt =====
-- A list of strings is read back from what `processSerialize` of Strings.antt has written.
use coconut.Base
use coconut.Base.{
  ℕ, zero, suc, ◌+◌, ◌-◌, ◌%◌, ◌≤◌, ◌<◌, ◌≡◌, refl, sym, ap, ◌∙◌, arith, Bool, true, false, List,
  [], ◌∷◌, ◌++◌, append_assoc, append-nil, Bytes, length-append, u32_mod, int_sign, int_of_size,
  Result, size_add, ok, M, ◌>>=◌, ◌>>◌, pure, bind-ok, bind-throws, drop-all, resume,
}
use coconut.Buffer
use coconut.Buffer.Codec
use coconut.Buffer.RoundTrip.{
  Decodes, Decodes-bind, Decodes-read_exactly, encode32, advance, advance-IsValid, append,
}
use coconut.Buffer.Strings.{Encodes-write_string32}
use coconut.Buffer.Valid.{IsValid, remaining}
use coconut.Buffer.{BufferedTransport}
use coconut.Protocol.Frame.Parse.{Decodes-read_int32_into}
use coconut.Protocol.Strings
use coconut.Protocol.Strings.{
  StringListProtocol, end, contents, is_read_complete, read_strings, on_transport,
}
use coconut.Wire
use coconut.Wire.Agree.{buffer_transport, write-agrees}

-- A string and a list of strings on the wire.
abbrev pub encoded : Bool → Bytes → Bytes
encoded le str = encode32 le (Base.length str % u32_mod) ++ str

abbrev pub strings : Bool → List Bytes → Bytes
strings le [] = []
strings le (x ∷ xs) = encoded le x ++ strings le xs

-- The position behind them.
abbrev position : List Bytes → ℕ → ℕ
position [] pos = pos
position (x ∷ xs) pos = position xs ((pos + (4 + int_of_size (Base.length x)) % u32_mod) % u32_mod)

write_strings_lem :
    (le : Bool) (l : List Bytes) (pos : ℕ) (b : BufferedTransport)
    → Wire.write_strings buffer_transport le l pos b
      ≡ (ok (position l pos), append (strings le l) b)
unfolding Wire.write_strings
write_strings_lem le [] pos b =
    ap (λ x. (ok pos, record b { buffer = x })) (sym (append-nil b.buffer))
write_strings_lem le (x ∷ l) pos b =
    let next = λ (k : ℕ). Wire.write_strings buffer_transport le l ((pos + k) % u32_mod) in
    let (_, _, agrees, _) = write-agrees le x [] b in
    bind-ok (Wire.write_string32 buffer_transport le x) next
      (agrees ∙ Encodes-write_string32 x le b)
    ∙ write_strings_lem le l ((pos + (4 + int_of_size (Base.length x)) % u32_mod) % u32_mod)
        (append (encoded le x) b)
    ∙ ap (λ y. (ok (position (x ∷ l) pos), record b { buffer = y }))
        (append_assoc b.buffer (encoded le x) (strings le l))

Decodes-wire_exactly :
    (n : ℕ) (s : Bytes) → Base.length s ≡ n → Decodes (Wire.read_exactly buffer_transport n) s s
unfolding Codec.read_exactly
Decodes-wire_exactly n s h b rest v r = Decodes-read_exactly n s h b rest v r

Decodes-read_string32_into :
    (le : Bool) (s : Bytes)
    → Base.length s < u32_mod
    → Decodes
        (Wire.read_string32_into buffer_transport le)
        (encoded le s)
        (s, (4 + Base.length s % u32_mod) % u32_mod)
unfolding Wire.read_string32_into
Decodes-read_string32_into le s h =
    let n : Base.length s ≡ Base.length s % u32_mod = omega arith in
    let body = λ (x : ℕ × ℕ).
      Wire.read_exactly buffer_transport x.0 >>= λ value. pure (value, (x.1 + x.0) % u32_mod) in
    let size = Base.length s % u32_mod in
    Decodes-bind (Wire.read_int32_into buffer_transport le) body (encode32 le size) s (size, 4)
      (s, (4 + size) % u32_mod) (Decodes-read_int32_into le size (omega arith))
      (λ b rest v r.
        bind-ok (Wire.read_exactly buffer_transport size)
          (λ value. pure (value, (4 + size) % u32_mod)) (Decodes-wire_exactly size s n b rest v r))

-- The reader behind these strings.
abbrev got : List Bytes → StringListProtocol → StringListProtocol
got [] p = record p { state = end }
got (x ∷ xs) p = got xs (record p {
  payload_pos = (p.payload_pos + (4 + Base.length x % u32_mod) % u32_mod) % u32_mod;
  list = p.list ++ x ∷ [];
})

read_strings_lem :
    (le : Bool) (l : List Bytes) (p : StringListProtocol) (b : BufferedTransport) (rest : Bytes)
    → IsValid b
    → Base.length (strings le l) < int_sign
    → remaining b ≡ strings le l ++ rest
    → read_strings buffer_transport le (Base.length l) (p, b)
      ≡ (ok tt, (got l p, advance (Base.length (strings le l)) b))
unfolding read_strings
read_strings_lem le [] p b rest v few r =
    ap (λ (n : ℕ). (ok tt, (got [] p, record b { read_pos = n }))) (omega arith)
read_strings_lem le (x ∷ l) p b rest v few r =
    let e = encoded le x in
    let r' : remaining b ≡ e ++ (strings le l ++ rest) = r ∙ append_assoc e (strings le l) rest in
    let (v', q) = advance-IsValid b e (strings le l ++ rest) v r' in
    let k = (4 + Base.length x % u32_mod) % u32_mod in
    let p' : StringListProtocol = record p {
      payload_pos = (p.payload_pos + k) % u32_mod;
      list = p.list ++ x ∷ [];
    } in
    let n : b.read_pos + Base.length e + Base.length (strings le l)
        ≡ b.read_pos + Base.length (e ++ strings le l) =
      omega (arith, length-append e (strings le l)) in
    let m = length-append e (strings le l) in
    let next = λ (o : Bytes × ℕ).
      Strings.on_protocol buffer_transport le
        (λ y. record y { payload_pos = (y.payload_pos + o.1) % u32_mod; list = y.list ++ o.0 ∷ [] })
      >> read_strings buffer_transport le (Base.length l) in
    bind-ok (on_transport buffer_transport le (Wire.read_string32_into buffer_transport le)) next (
      ap (λ o. (o.0, (p, o.1)))
        (Decodes-read_string32_into le x (omega arith) b (strings le l ++ rest) v r'))
    ∙ read_strings_lem le l p' (advance (Base.length e) b) rest v' (omega arith) q
    ∙ ap (λ (i : ℕ). (ok tt, (got (x ∷ l) p, record b { read_pos = i }))) n

got_lem :
    (l : List Bytes) (p : StringListProtocol)
    → ((got l p).list ≡ p.list ++ l) × ((got l p).state ≡ end)
got_lem [] p = (sym (append-nil p.list), refl)
got_lem (x ∷ l) p =
    let k = (4 + Base.length x % u32_mod) % u32_mod in
    let (e, at_end) =
      got_lem l
        (record p { payload_pos = (p.payload_pos + k) % u32_mod; list = p.list ++ x ∷ [] }) in
    (e ∙ append_assoc p.list (x ∷ []) l, at_end)

count_le : (le : Bool) (l : List Bytes) → Base.length l ≤ Base.length (strings le l)
count_le le [] = omega arith
count_le le (x ∷ l) = omega (arith, count_le le l, length-append (encoded le x) (strings le l))

-- What `processSerialize` puts into the writing buffer.
abbrev pub listed : Bool → List Bytes → Bytes
listed le l = encode32 le (Base.length l % u32_mod) ++ strings le l

write_list_lem :
    (le : Bool) (l : List Bytes)
    → Wire.write_string32_list buffer_transport le l Buffer.make
      ≡ (ok (position l 4), record { buffer = listed le l; read_pos = 0 })
unfolding Wire.write_string32_list Wire.write_int32 Buffer.write
write_list_lem le l =
    write_strings_lem le l 4
      (record { buffer = encode32 le (Base.length l % u32_mod); read_pos = 0 })

process_serialize_lem :
    (le : Bool) (parent : ℕ → Result Bool) (size : ℕ) (p : StringListProtocol)
    → Strings.process_serialize le parent size p ≡ (
      parent (size_add (Base.length (listed le p.list)) size),
      record p { writebuffer = record { buffer = listed le p.list; read_pos = 0 } },
    )
unfolding Strings.process_serialize Buffer.clear Buffer.total_size
process_serialize_lem le parent size p =
    ap
      (λ o.
        resume
          (λ _ (q : StringListProtocol).
            (parent (size_add (Buffer.total_size q.writebuffer) size), q))
          (o.0, record p { writebuffer = o.1 }))
      (write_list_lem le p.list)

process_read_lem :
    (le : Bool) (l : List Bytes) (b : BufferedTransport) (rest : Bytes)
    → IsValid b
    → Base.length (listed le l) < int_sign
    → remaining b ≡ listed le l ++ rest
    → let (r, (p, b')) = Strings.process_read buffer_transport le (pure true) (Strings.make, b) in
      (r ≡ ok true) × (p.list ≡ l) × (p.state ≡ end) × (remaining b' ≡ rest)
unfolding Strings.process_read Strings.read_size Strings.read_contents
process_read_lem le l b rest v few r =
    let size = Base.length l % u32_mod in
    let head = encode32 le size in
    let r' : remaining b ≡ head ++ (strings le l ++ rest) =
      r ∙ append_assoc head (strings le l) rest in
    let (v', q) = advance-IsValid b head (strings le l ++ rest) v r' in
    let most = count_le le l in
    let room = length-append head (strings le l) in
    let p1 : StringListProtocol = record Strings.make {
      list_size = size;
      payload_pos = 4;
      state = contents;
    } in
    let n : size - 0 ≡ Base.length l = omega arith in
    let sized = λ (o : ℕ × ℕ). Strings.on_protocol buffer_transport le (λ y. record y {
      list_size = o.0;
      payload_pos = (y.payload_pos + o.1) % u32_mod;
      state = contents;
    }) in
    let first =
      bind-ok (on_transport buffer_transport le (Wire.read_int32_into buffer_transport le)) sized (
        ap (λ o. (o.0, (Strings.make, o.1)))
          (Decodes-read_int32_into le size (omega arith) b (strings le l ++ rest) v r')) in
    let e =
      ap (resume (λ _. Strings.read_contents buffer_transport le)) first
      ∙ ap (λ (k : ℕ). read_strings buffer_transport le k (p1, advance 4 b)) n
      ∙ read_strings_lem le l p1 (advance 4 b) rest v' (omega arith) q in
    let (all, at_end) = got_lem l p1 in
    let (v'', left) = advance-IsValid (advance 4 b) (strings le l) rest v' q in
    let c = ap (Strings.caught {S = StringListProtocol × BufferedTransport}) e in
    (
      ap (λ o. o.0) c,
      ap (λ o. o.1.0.list) c ∙ all,
      ap (λ o. o.1.0.state) c ∙ at_end,
      ap (λ o. remaining o.1.1) c ∙ left,
    )

-- A list of strings that `processSerialize` has written, without a parent protocol, is read back by
-- a new protocol from a buffer that holds what was written and any further bytes: `processRead`
-- returns true, the list is the same and complete, and the further bytes remain. An int can count
-- them all.
pub process_read-listed :
    (le : Bool) (size : ℕ) (p : StringListProtocol) (rest : Bytes)
    → Base.length (listed le p.list) + Base.length rest < int_sign
    → let (sent, q) = Strings.process_serialize le (λ n. ok true) size p in
      let b = record q.writebuffer { buffer = q.writebuffer.buffer ++ rest } in
      let (r, (p', b')) = Strings.process_read buffer_transport le (pure true) (Strings.make, b) in
      (sent ≡ ok true)
      × (r ≡ ok true)
      × (p'.list ≡ p.list)
      × (p'.state ≡ end)
      × (remaining b' ≡ rest)
process_read-listed le size p rest room =
    let e = process_serialize_lem le (λ n. ok true) size p in
    let b : BufferedTransport = record { buffer = listed le p.list ++ rest; read_pos = 0 } in
    let run = λ (x : StringListProtocol).
      Strings.process_read buffer_transport le (pure true)
        (Strings.make, record (x.writebuffer) { buffer = x.writebuffer.buffer ++ rest }) in
    let (r, all, at_end, left) =
      process_read_lem le p.list b rest (omega (arith, length-append (listed le p.list) rest))
        (omega arith) refl in
    (
      ap (λ o. o.0) e,
      ap (λ o. (run o.1).0) e ∙ r,
      ap (λ o. (run o.1).1.0.list) e ∙ all,
      ap (λ o. (run o.1).1.0.state) e ∙ at_end,
      ap (λ o. remaining (run o.1).1.1) e ∙ left,
    )
