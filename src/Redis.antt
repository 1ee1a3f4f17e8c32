-- ===== src/Redis.antt =====
-- The client of a Redis server: src/RedisRequest.cpp with src/RedisRequest.h. Here are its state and
-- its commands; `Connection` has the connection and the timers.
-- hiredis is what the code passes to it and what it answers: `accepts` says for which commands
-- redisAsyncCommandArgv returns REDIS_OK. A context of hiredis is its error number.
pub mod Connection
pub mod Once
pub mod History
pub mod Reserved
pub mod Cancel
pub mod Ttl
pub mod Split
pub mod Trim
mod Tests
use coconut.Base.{
  ℕ, ◌+◌, ◌-◌, ◌%◌, Bool, true, false, not, List, [], ◌∷◌, ◌++◌, Option, none, some, Bytes, ltb,
  ◌==◌, if◌then◌else◌, u32_mod, int_lt, Result, ok, fault, M, ◌>>=◌, ◌>>◌, pure, throw, gets,
  modify, Exception, redis_exception,
}

-- `RedisRequestState`
pub data RequestState : Type 0 where
  init connecting connected connectfailed closed reconectready : RequestState

abbrev pub is_connected : RequestState → Bool
is_connected connected = true
is_connected _ = false

-- `requestContext`, its handler being the calls for its ticket.
pub record RequestContext : Type 0 where
  pub ticket : ℕ
  pub args : List Bytes
  pub ttl : ℕ

-- What hiredis is asked, and the calls of the handlers, with a response or with an error.
pub data Call : Type 0 where
  sent : ℕ → List Bytes → Call
  answered : ℕ → Call
  failed : ℕ → ℕ → Call
  freed disconnected : Call

-- A command and its ticket.
abbrev pub Command : Type 0
Command = ℕ × List Bytes

-- `map_callback` is in the order of its tickets.
pub record RedisRequest : Type 0 where
  pub s_ticket : ℕ
  pub stopped : Bool
  pub redis_context : Option ℕ
  pub state : RequestState
  pub map_callback : List RequestContext
  pub reserved_commands : List Command
  pub deferred : List Command
  pub timer_reconnect : Bool
  pub timer_connection_timeout : Bool
  pub timer_command_ttl : Bool
  pub calls : List Call

abbrev pub make : RedisRequest
make = record {
  s_ticket = 1;
  stopped = false;
  redis_context = none;
  state = init;
  map_callback = [];
  reserved_commands = [];
  deferred = [];
  timer_reconnect = false;
  timer_connection_timeout = false;
  timer_command_ttl = false;
  calls = [];
}

abbrev pub log : Call → M RedisRequest (Unit {0})
log c = modify (λ s. record s { calls = s.calls ++ c ∷ [] })

unfoldable pub issue_ticket : M RedisRequest ℕ
issue_ticket = do
  modify (λ s. record s { s_ticket = (s.s_ticket + 1) % u32_mod })
  gets (λ s. s.s_ticket)

-- `find` and `insert` of the map, which keeps a context that is there, and `erase`.
abbrev pub find : ℕ → List RequestContext → Option RequestContext
find t [] = none
find t (c ∷ cs) = if t == c.ticket then some c else find t cs

abbrev pub insert : RequestContext → List RequestContext → List RequestContext
insert x [] = x ∷ []
insert x (c ∷ cs) =
    let rest = insert x cs in
    if ltb x.ticket c.ticket
    then x ∷ c ∷ cs
    else (if x.ticket == c.ticket then c ∷ cs else c ∷ rest)

abbrev pub erase : ℕ → List RequestContext → List RequestContext
erase t [] = []
erase t (c ∷ cs) = let rest = erase t cs in if t == c.ticket then cs else c ∷ rest

-- The first reserved command with a ticket is erased.
abbrev pub unreserve : ℕ → List Command → List Command
unreserve t [] = []
unreserve t ((u, a) ∷ cs) = let rest = unreserve t cs in if u == t then cs else (u, a) ∷ rest

unfoldable pub remove_context : ℕ → M RedisRequest (Unit {0})
remove_context t = do
  modify (λ s. record s { map_callback = erase t s.map_callback })
  modify (λ s. record s { reserved_commands = unreserve t s.reserved_commands })

unfoldable pub cancel : ℕ → M RedisRequest (Unit {0})
cancel t = remove_context t

-- redisAsyncCommandArgv reads through the context.
abbrev pub command_argv : Bool → ℕ → List Bytes → M RedisRequest Bool
command_argv accepted t args s = elim s.redis_context [
  | none ↦ (fault, s)
  | some e ↦
      (ok accepted, record s { calls = if accepted then s.calls ++ sent t args ∷ [] else s.calls })
]

module _ (accepts : ℕ → List Bytes → Bool) where
  unfoldable pub do_command : ℕ → List Bytes → M RedisRequest (Unit {0})
  do_command t args = do
    b ← command_argv (accepts t args) t args
    if b then pure tt else (do cancel t; throw redis_exception)

  -- `_command`
  unfoldable pub run_command : Command → M RedisRequest (Unit {0})
  run_command (t, args) = do
    x ← gets (λ s. s.state)
    if is_connected x
        then do_command t args
        else modify (λ s. record s { reserved_commands = s.reserved_commands ++ (t, args) ∷ [] })

  -- `command` of a list of arguments, called in the thread of the service or in another one.
  unfoldable pub command : Bool → List Bytes → ℕ → M RedisRequest ℕ
  command mounted args timeout = do
    t ← issue_ticket
    modify (λ s. record s {
      timer_command_ttl = if int_lt 0 timeout then true else s.timer_command_ttl;
    })
    modify (λ s. record s {
      map_callback =
          insert
            (record {
              ticket = t;
              args = args;
              ttl = if int_lt 0 timeout then timeout else u32_mod - 1;
            })
            s.map_callback;
    })
    if mounted
        then (do run_command (t, args); pure t)
        else (do modify (λ s. record s { deferred = s.deferred ++ (t, args) ∷ [] }); pure t)

  -- The deferred caller runs its first call in the thread of the service.
  unfoldable pub run_deferred : List Command → M RedisRequest (Unit {0})
  run_deferred [] = pure tt
  run_deferred (c ∷ cs) = do modify (λ s. record s { deferred = cs }); run_command c

  -- The reserved commands from a number on, as `fire_onRedisRequest_Connected` calls them.
  unfoldable pub call_reserved : List Command → M RedisRequest (Unit {0})
  call_reserved [] = pure tt
  call_reserved (c ∷ cs) = do run_command c; call_reserved cs

-- A handler is called with a response or with an error, and its context is removed.
unfoldable pub handle : ℕ → Call → M RedisRequest (Unit {0})
handle t c = do
  found ← gets (λ s. find t s.map_callback)
  elim found [ none ↦ pure tt | some context ↦ do log c; remove_context t ]

-- `fire_onRedisRequest_Response`
unfoldable pub fire_response : ℕ → M RedisRequest (Unit {0})
fire_response t = handle t (answered t)

-- `fire_onRedisRequest_Error`, with a ticket or NULL.
unfoldable pub fire_error : ℕ → ℕ → M RedisRequest (Unit {0})
fire_error e t = if t == 0 then pure tt else handle t (failed t e)

-- `getCallback`, with a reply or with NULL and the error of the context.
unfoldable pub get_callback : Option ℕ → ℕ → M RedisRequest (Unit {0})
get_callback none t = fire_response t
get_callback (some e) t = fire_error e t
