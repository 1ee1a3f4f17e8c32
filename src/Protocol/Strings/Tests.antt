-- ===== src/Protocol/Strings/Tests.antt =====
-- Lists of strings at concrete values.
use coconut.Base.{◌≡◌, arith, true, false, [], ◌∷◌, ◌++◌, ok, pure}
use coconut.Buffer.Valid.{remaining}
use coconut.Buffer.{BufferedTransport}
use coconut.Protocol.Strings
use coconut.Protocol.Strings.{StringListProtocol, end, is_read_complete}
use coconut.Protocol.Strings.RoundTrip.{process_read-listed}
use coconut.Protocol.Strings.Cut.{process_read-cut_size}
use coconut.Wire.Agree.{buffer_transport}

abbrev two : StringListProtocol
two = record Strings.make { list = (65 ∷ []) ∷ [] ∷ [] }

process_read-listed_example :
    let (sent, q) = Strings.process_serialize false (λ n. ok true) 0 two in
    let b = record q.writebuffer { buffer = q.writebuffer.buffer ++ (7 ∷ []) } in
    let (r, (p, b')) = Strings.process_read buffer_transport false (pure true) (Strings.make, b) in
    (sent ≡ ok true)
    × (r ≡ ok true)
    × (p.list ≡ (65 ∷ []) ∷ [] ∷ [])
    × (p.state ≡ end)
    × (remaining b' ≡ 7 ∷ [])
process_read-listed_example = process_read-listed false 0 two (7 ∷ []) (omega arith)

abbrev cut : BufferedTransport
cut = record { buffer = 0 ∷ 0 ∷ 0 ∷ []; read_pos = 0 }

process_read-cut_size_example :
    let (r, (p, b)) = Strings.process_read buffer_transport false (pure true) (Strings.make, cut) in
    (r ≡ ok true) × (p ≡ Strings.make) × (is_read_complete p.state ≡ false) × (remaining b ≡ [])
process_read-cut_size_example =
    process_read-cut_size false cut (record { inside = omega arith; fits = omega arith })
      (omega arith)
