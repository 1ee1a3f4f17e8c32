-- ===== src/Client/Read.antt =====
-- `ClientController::onSocket_ReadEvent` and `onSocket_ReadFrom` (src/ClientController.cpp). The
-- `while(true)` of the first runs on fuel, and its exit says when that was not enough.
use coconut.Base.{
  ℕ, zero, suc, Bool, true, false, [], ◌∷◌, Option, none, some, Bytes, ltb, if◌then◌else◌, Result,
  ok, throws, fault, M, ◌>>=◌, ◌>>◌, pure, throw, gets,
}
use coconut.Client.{
  Protocol, ClientController, emit, set_protocol, got_protocol, received_protocol, received_data,
  received_datagram, socket_close,
}

-- Whether the loop has left by its `break`.
pub data Exit : Type 0 where
  left out_of_fuel : Exit

module _ {P : Type 0} (factory : Protocol P) where
  -- What follows the loop's `if`: the socket is closed on an invalid packet.
  unfoldable pub leave : P → M (ClientController P) Exit
  leave p =
      if factory.is_invalid_packet_received p then (do emit socket_close; pure left) else pure left

  -- A complete protocol: the observers first, then the controller's own callback.
  abbrev pub deliver : P → M (ClientController P) (Unit {0})
  deliver p = do emit (got_protocol p); emit (received_protocol p)

  -- The new protocol that takes over what is left.
  abbrev pub take_over :
      (P → M (ClientController P) Exit) → Result Bytes → M (ClientController P) Exit
  take_over next (ok rest) = do
    set_protocol (factory.add_to_reading_buffer rest factory.make_protocol)
    next (factory.add_to_reading_buffer rest factory.make_protocol)
  take_over next (throws e) = throw e
  take_over next fault = λ c. (fault, c)

  -- One turn of the loop behind `processReadFromReadingBuffer`.
  abbrev pub turn :
      (P → M (ClientController P) Exit) → Result Bool × P → M (ClientController P) Exit
  turn next (ok true, p) = do
    set_protocol p
    deliver p
    if ltb 0 (factory.remaining_buffer_size p)
        then take_over next (factory.remaining_bytes p)
        else leave p
  turn next (ok false, p) = set_protocol p >> leave p
  turn next (throws e, p) = set_protocol p >> throw e
  turn next (fault, p) = set_protocol p >> (λ c. (fault, c))

  unfoldable pub read_loop : ℕ → P → M (ClientController P) Exit
  read_loop zero p = pure out_of_fuel
  read_loop (suc fuel) p = turn (read_loop fuel) (factory.process_read_from_reading_buffer p)

  -- The protocol that goes on, or a new one.
  abbrev pub current : Option P → P
  current none = factory.make_protocol
  current (some p) = if factory.is_read_complete p then factory.make_protocol else p

  -- `chunk` is what `socket()->read` has put into the chunk; it is empty for a result up to 0.
  unfoldable pub on_read_event : ℕ → Bytes → M (ClientController P) Exit
  on_read_event fuel [] = pure left
  on_read_event fuel (b ∷ bs) = do
    c ← gets (λ c. c)
    if c.protocol_factory
        then (do
          set_protocol (factory.add_to_reading_buffer (b ∷ bs) (current c.protocol))
          read_loop fuel (factory.add_to_reading_buffer (b ∷ bs) (current c.protocol)))
        else (do emit (received_data (b ∷ bs)); pure left)

  -- A datagram: the reading buffer holds nothing else.
  abbrev pub datagram_read : Result Bool × P → M (ClientController P) (Unit {0})
  datagram_read (ok true, p) = do set_protocol p; emit (received_protocol p)
  datagram_read (ok false, p) = set_protocol p
  datagram_read (throws e, p) = set_protocol p >> throw e
  datagram_read (fault, p) = set_protocol p >> (λ c. (fault, c))

  unfoldable pub on_read_from : Bytes → M (ClientController P) (Unit {0})
  on_read_from datagram = do
    c ← gets (λ c. c)
    if c.protocol_factory
        then datagram_read (
            factory.process_read_from_reading_buffer
              (factory.add_to_reading_buffer datagram (factory.reset_buffer (current c.protocol))))
        else emit (received_datagram datagram)
