-- ===== src/Client.antt =====
-- `ClientController` (src/ClientController.h and .cpp) with the timer part of `BaseController`
-- (src/BaseController.h and .cpp). What the controller calls outside of itself is the log `events`,
-- in order: callbacks of the user's subclass, observers, the socket and the deferred calls. A user's
-- callback is not followed: it is taken not to change the controller. The socket is a parameter by
-- what its calls give back, and the protocols are a record of the virtual methods of `BaseProtocol`.
pub mod Read
pub mod Frames
pub mod Stream
pub mod Chunks
pub mod Endless
pub mod Datagram
pub mod Rearm
pub mod Reconnect
mod Tests
use coconut.Base.{
  ℕ, zero, suc, ◌+◌, ◌/◌, ◌%◌, Bool, true, false, not, ◌&&◌, ◌||◌, List, [], ◌∷◌, ◌++◌, Option,
  none, some, Bytes, length, ltb, if◌then◌else◌, ◌==◌, Result, ok, throws, fault, Exception, M,
  ◌>>=◌, ◌>>◌, pure, throw, gets, modify, reads,
}

-- The virtual methods of `BaseProtocol` that the controller calls, and `makeProtocol`.
pub record Protocol (P : Type 0) : Type 0 where
  pub make_protocol : P
  pub is_read_complete : P → Bool
  pub add_to_reading_buffer : Bytes → P → P
  pub process_read_from_reading_buffer : M P Bool
  pub remaining_buffer_size : P → ℕ
  pub remaining_bytes : P → Result Bytes
  pub is_invalid_packet_received : P → Bool
  pub reset_buffer : P → P

pub data Event (P : Type 0) : Type 0 where
  got_protocol received_protocol : P → Event P
  received_data received_datagram : Bytes → Event P
  connected initialized : Event P
  deferred_closed : Event P
  deferred_error closed_connection : ℕ → Event P
  socket_close socket_connect : Event P
  set_reconnect_timer kill_reconnect_timer : Event P
  timer : ℕ → Event P

pub record ClientController (P : Type 0) : Type 0 where
  pub protocol_factory : Bool
  pub protocol : Option P
  pub reconnectable : Bool
  pub init_flag : Bool
  pub retry_connect_cnt : ℕ
  pub timer_obj : Bool
  pub events : List (Event P)

-- The constructor, and what `setProtocolFactory` sets.
abbrev pub make : {P : Type 0} → Bool → ClientController P
make factory = record {
  protocol_factory = factory;
  protocol = none;
  reconnectable = true;
  init_flag = false;
  retry_connect_cnt = 0;
  timer_obj = false;
  events = [];
}

abbrev pub internal_timer_bit : ℕ
internal_timer_bit = 1073741824

-- TIMERID_RECONNECT
abbrev pub reconnect_id : ℕ
reconnect_id = 1073741825

module _ {P : Type 0} where
  abbrev pub emit : Event P → M (ClientController P) (Unit {0})
  emit e = modify (λ c. record c { events = c.events ++ e ∷ [] })

  abbrev pub set_protocol : P → M (ClientController P) (Unit {0})
  set_protocol p = modify (λ c. record c { protocol = some p })

  -- `setReconnectable` and `processReconnect`
  unfoldable pub set_reconnectable : Bool → M (ClientController P) (Unit {0})
  set_reconnectable enable = do
    modify (λ c. record c { reconnectable = enable })
    exists ← gets (λ c. c.timer_obj)
    if not enable && exists then emit kill_reconnect_timer else pure tt

  unfoldable pub process_reconnect : M (ClientController P) (Unit {0})
  process_reconnect = do
    on ← gets (λ c. c.reconnectable)
    if on
        then (do modify (λ c. record c { timer_obj = true }); emit set_reconnect_timer)
        else pure tt

  unfoldable pub on_socket_initialized : M (ClientController P) (Unit {0})
  on_socket_initialized = do
    done ← gets (λ c. c.init_flag)
    if done then pure tt else (do modify (λ c. record c { init_flag = true }); emit initialized)

  unfoldable pub on_socket_connected : M (ClientController P) (Unit {0})
  on_socket_connected = emit connected

  unfoldable pub on_socket_error : ℕ → M (ClientController P) (Unit {0})
  on_socket_error error = do
    emit (deferred_error error)
    process_reconnect
    emit (closed_connection error)

  unfoldable pub on_socket_close : M (ClientController P) (Unit {0})
  on_socket_close = do emit deferred_closed; process_reconnect; emit (closed_connection 0)

  -- The reconnect timer's part of `onTimer_Timer`; `connects` says whether `connect` returned.
  abbrev pub reconnect : Bool → M (ClientController P) (Unit {0})
  reconnect connects = do
    modify (λ c. record c { retry_connect_cnt = c.retry_connect_cnt + 1 })
    emit socket_connect
    if connects then emit kill_reconnect_timer else pure tt

  -- `onTimer_Timer`, with `BaseController::onTimer_Timer` for the other timers.
  unfoldable pub on_timer : ℕ → Bool → M (ClientController P) (Unit {0})
  on_timer id connects =
      if id == reconnect_id
      then reconnect connects
      else if (id / internal_timer_bit) % 2 == 0
      then emit (timer id)
      else pure tt
