-- ===== src/Protocol/Strings.antt =====
-- `StringListProtocol` (src/StringListProtocol.h and .cpp), a list of strings over any transport. What
-- its parent protocol answers, which reads before it and is serialized behind it, is an argument.
pub mod RoundTrip
pub mod Cut
mod Tests
use coconut.Base.{
  ℕ, zero, suc, ◌+◌, ◌-◌, ◌%◌, Bool, true, false, List, [], ◌∷◌, ◌++◌, Bytes, length, u32_mod,
  size_add, if◌then◌else◌, Result, ok, throws, fault, Exception, socket_exception,
  protocol_exception, M, ◌>>=◌, ◌>>◌, pure, gets, modify,
}
use coconut.Buffer
use coconut.Buffer.{BufferedTransport}
use coconut.Wire
use coconut.Wire.Agree.{buffer_transport}
use coconut.Wire.{Transport}

pub data State : Type 0 where
  init begin contents end : State

-- `isReadComplete`
abbrev pub is_read_complete : State → Bool
is_read_complete end = true
is_read_complete _ = false

pub record StringListProtocol : Type 0 where
  pub list : List Bytes
  pub state : State
  pub payload_pos : ℕ
  pub list_size : ℕ
  pub writebuffer : BufferedTransport

abbrev pub make : StringListProtocol
make = record { list = []; state = init; payload_pos = 0; list_size = 0; writebuffer = Buffer.make }

unfoldable pub add_string : Bytes → StringListProtocol → StringListProtocol
add_string str p = record p { list = p.list ++ str ∷ [] }

-- What is caught in `processRead`, which then returns true.
abbrev pub caught : {S : Type 0} → Result (Unit {0}) × S → Result Bool × S
caught (ok x, s) = (ok true, s)
caught (throws socket_exception, s) = (ok true, s)
caught (throws protocol_exception, s) = (ok true, s)
caught (throws e, s) = (throws e, s)
caught (fault, s) = (fault, s)

module _ {S : Type 0} (transport : Transport S) (le : Bool) where
  abbrev pub on_transport : {A : Type 0} → M S A → M (StringListProtocol × S) A
  on_transport m (p, s) = let (r, s') = m s in (r, (p, s'))

  abbrev pub on_protocol :
      (StringListProtocol → StringListProtocol) → M (StringListProtocol × S) (Unit {0})
  on_protocol f (p, s) = (ok tt, (f p, s))

  unfoldable pub read_size : M (StringListProtocol × S) (Unit {0})
  read_size = do
    (size, k) ← on_transport (Wire.read_int32_into transport le)
    on_protocol (λ p. record p {
      list_size = size;
      payload_pos = (p.payload_pos + k) % u32_mod;
      state = contents;
    })

  -- The loop, by the number of the strings that are missing.
  unfoldable pub read_strings : ℕ → M (StringListProtocol × S) (Unit {0})
  read_strings zero = on_protocol (λ p. record p { state = end })
  read_strings (suc n) = do
    (str, k) ← on_transport (Wire.read_string32_into transport le)
    on_protocol
        (λ p. record p { payload_pos = (p.payload_pos + k) % u32_mod; list = p.list ++ str ∷ [] })
    read_strings n

  unfoldable pub read_contents : M (StringListProtocol × S) (Unit {0})
  read_contents = do q ← gets (λ q. q); read_strings (q.0.list_size - length q.0.list)

  abbrev pub read_state : State → M (StringListProtocol × S) (Unit {0})
  read_state init = read_size >> read_contents
  read_state begin = read_size >> read_contents
  read_state contents = read_contents
  read_state end = pure tt

  -- `processRead`, with the parent's.
  unfoldable pub process_read : M S Bool → M (StringListProtocol × S) Bool
  process_read parent = do
    complete ← on_transport parent
    q ← gets (λ q. q)
    if complete then (λ r. caught (read_state q.0.state r)) else pure false

-- `processSerialize`, with the parent's for the size of all that is written.
unfoldable pub process_serialize : Bool → (ℕ → Result Bool) → ℕ → M StringListProtocol Bool
process_serialize le parent buffer_size = do
  modify (λ p. record p { writebuffer = (Buffer.clear p.writebuffer).1 })
  (λ p.
      let (r, b) = Wire.write_string32_list buffer_transport le p.list p.writebuffer in
      (r, record p { writebuffer = b }))
  (λ p. (parent (size_add (Buffer.total_size p.writebuffer) buffer_size), p))
