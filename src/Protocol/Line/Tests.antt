-- ===== src/Protocol/Line/Tests.antt =====
-- Lines at concrete bytes.
use coconut.Base
use coconut.Base.{
  ℕ, zero, suc, ◌≡◌, refl, arith, [], ◌∷◌, ◌++◌, true, false, Bytes, ok, fault, take,
}
use coconut.Protocol.Line
use coconut.Protocol.Line.Chunks.{received, process_read-process_serialize, process_read-long}
use coconut.Protocol.Line.Delivery.{process_read-line}
use coconut.Protocol.Line.{LineProtocol}

-- A line feed and a carriage return behind a line of two bytes: only one is kept.
process_read-line_example :
    let (r, p) = Line.process_read (received (79 ∷ 75 ∷ 10 ∷ 13 ∷ 33 ∷ [])) in
    (r ≡ ok true) × (p.line ≡ 79 ∷ []) × (Line.remaining_bytes p ≡ ok (33 ∷ []))
process_read-line_example =
    process_read-line (79 ∷ []) 75 (13 ∷ 33 ∷ []) (received (79 ∷ 75 ∷ 10 ∷ 13 ∷ 33 ∷ []))
      (refl, (refl, tt)) (omega arith) refl (omega arith)

process_read-process_serialize_example :
    let (s, q) = Line.process_serialize (record Line.make { line = 79 ∷ 75 ∷ [] }) in
    let (r, p) = Line.process_read (received (q.writebuffer.buffer ++ 33 ∷ [])) in
    (s ≡ ok true)
    × (r ≡ ok true)
    × (p.line ≡ 79 ∷ 75 ∷ [])
    × (Line.remaining_bytes p ≡ ok (33 ∷ []))
process_read-process_serialize_example =
    process_read-process_serialize (79 ∷ 75 ∷ []) (33 ∷ []) (refl, (refl, tt)) (omega arith)

-- `n` spaces.
abbrev spaces : ℕ → Bytes
spaces zero = []
spaces (suc n) = 32 ∷ spaces n

length-spaces : (n : ℕ) → Base.length (spaces n) ≡ n
length-spaces zero = refl
length-spaces (suc n) = omega (arith, length-spaces n)

abbrev long_input : LineProtocol
long_input = received (79 ∷ 13 ∷ 10 ∷ spaces 5000)

process_read-long_example :
    let (r, p) = Line.process_read long_input in
    (r ≡ ok true) × (p.line ≡ 79 ∷ []) × (Line.remaining_bytes p ≡ ok (take 4093 (spaces 5000)))
process_read-long_example =
    process_read-long (79 ∷ []) (spaces 5000) long_input (refl, tt)
      (omega (arith, length-spaces 5000)) refl (omega arith) (omega (arith, length-spaces 5000))
