-- ===== src/Server.antt =====
-- The set of clients of a server: src/ServerController.cpp. A client is a number, and a set of clients
-- is the list of its members in their order. `hook`, `accepted` and `mounted` are what `onHookAccept`,
-- `onAccept` and the thread of a client's service answer.
pub mod Removal
mod Tests
use coconut.Base.{
  ℕ, ◌/◌, ◌%◌, Bool, true, false, not, ◌||◌, List, [], ◌∷◌, ◌++◌, Option, none, some, ltb, ◌==◌,
  if◌then◌else◌, Result, ok, fault, M, ◌>>=◌, ◌>>◌, pure, gets, modify,
}
use coconut.Client.{reconnect_id, internal_timer_bit}

-- What is done with a new client, and the callbacks of the server.
pub data Call : Type 0 where
  set_socket set_not_reconnectable set_event_handler register_observer install : ℕ → Call
  attach_socket_handle : ℕ → ℕ → Call
  on_error timer : ℕ → Call
  closed_connection : ℕ → ℕ → Call

pub record ServerController : Type 0 where
  pub clients : List ℕ
  pub delay_remove_clients : List ℕ
  pub delayed_remove_timer : Bool
  -- The calls of `onDelayedClientRemove` that the services of the clients have still to make.
  pub deferred : List ℕ
  pub calls : List Call

abbrev pub make : ServerController
make = record {
  clients = [];
  delay_remove_clients = [];
  delayed_remove_timer = false;
  deferred = [];
  calls = [];
}

-- `find`, `insert` and `erase` of a set.
abbrev pub has : ℕ → List ℕ → Bool
has x [] = false
has x (y ∷ ys) = (x == y) || has x ys

abbrev pub insert : ℕ → List ℕ → List ℕ
insert x [] = x ∷ []
insert x (y ∷ ys) =
    let rest = insert x ys in if ltb x y then x ∷ y ∷ ys else (if x == y then y ∷ ys else y ∷ rest)

abbrev pub erase : ℕ → List ℕ → List ℕ
erase x [] = []
erase x (y ∷ ys) = let rest = erase x ys in if x == y then ys else y ∷ rest

abbrev pub log : Call → M ServerController (Unit {0})
log c = modify (λ s. record s { calls = s.calls ++ c ∷ [] })

-- `onDelayedClientRemove`, with its assertion.
unfoldable pub on_delayed_client_remove : Bool → ℕ → M ServerController (Unit {0})
on_delayed_client_remove mounted client s =
    if has client s.clients
    then (if mounted then (ok tt, record s { clients = erase client s.clients }) else (fault, s))
    else (ok tt, s)

-- The removal of one client, in the thread of its service.
unfoldable pub remove_client : (ℕ → Bool) → ℕ → M ServerController (Unit {0})
remove_client mounted client = modify (λ s.
    if has client s.clients
    then (if mounted client
        then record s { clients = erase client s.clients }
        else record s { deferred = s.deferred ++ client ∷ [] })
    else s)

-- The loop over the set of the clients to remove.
unfoldable pub remove_loop : (ℕ → Bool) → List ℕ → M ServerController (Unit {0})
remove_loop mounted [] = pure tt
remove_loop mounted (c ∷ cs) = do remove_client mounted c; remove_loop mounted cs

-- `processDelayedRemoveClientFromSet`
unfoldable pub process_delayed_remove : (ℕ → Bool) → M ServerController (Unit {0})
process_delayed_remove mounted = do
  cs ← gets (λ s. s.delay_remove_clients)
  remove_loop mounted cs
  modify (λ s. record s { delay_remove_clients = [] })

-- What `onConnectionListener_Accept` does with a new client.
unfoldable pub set_up : ℕ → ℕ → M ServerController (Unit {0})
set_up new_socket client = do
  modify (λ s. record s { clients = insert client s.clients })
  log (set_socket client)
  log (set_not_reconnectable client)
  log (set_event_handler client)
  log (register_observer client)
  log (attach_socket_handle client new_socket)
  log (install client)

unfoldable pub on_accept : Bool → Option ℕ → ℕ → M ServerController (Unit {0})
on_accept hook accepted new_socket =
    if hook
    then pure tt
    else elim accepted [ none ↦ pure tt | some client ↦ set_up new_socket client ]

-- `onConnectionListener_Error`
unfoldable pub on_listener_error : ℕ → M ServerController (Unit {0})
on_listener_error error = log (on_error error)

-- TIMERID_DELAYED_REMOVE is the same number as TIMERID_RECONNECT of a client.
abbrev pub delayed_remove_id : ℕ
delayed_remove_id = reconnect_id

-- `onTimer_Timer`, of a timer that does not repeat, and `BaseController::onTimer_Timer` for others.
unfoldable pub on_timer : (ℕ → Bool) → ℕ → M ServerController (Unit {0})
on_timer mounted id =
    if id == delayed_remove_id
    then (do
      modify (λ s. record s { delayed_remove_timer = false })
      process_delayed_remove mounted)
    else (if (id / internal_timer_bit) % 2 == 0 then log (timer id) else pure tt)

-- `_onPreControllerEvent_ClosedConnection`
unfoldable pub on_closed_connection : ℕ → ℕ → M ServerController (Unit {0})
on_closed_connection client error = do
  modify (λ s. record s { delayed_remove_timer = true })
  modify (λ s. record s { delay_remove_clients = insert client s.delay_remove_clients })
  log (closed_connection client error)

-- `_onPreControllerEvent_OccuredError`
unfoldable pub on_occured_error : ℕ → ℕ → M ServerController (Unit {0})
on_occured_error client error = on_closed_connection client error
