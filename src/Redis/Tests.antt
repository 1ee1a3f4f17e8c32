-- ===== src/Redis/Tests.antt =====
-- A client of a Redis server at concrete values.
use coconut.Base.{ℕ, ◌+◌, ◌≤◌, ◌≡◌, refl, arith, Bool, true, List, [], ◌∷◌, none, some, Bytes, ok}
use coconut.Redis
use coconut.Redis.Connection
use coconut.Redis.{RedisRequest, find, Call, sent, answered, connected}
use coconut.Redis.Once.{waiting, called}
use coconut.Redis.History
use coconut.Redis.History.{run, Reachable, start, step, called-Reachable}
use coconut.Redis.Ttl.{ticks, ticks-on_command_ttl}
use coconut.Redis.Split.{split_command, split_command_lem}
use coconut.Redis.Reserved.{command_all, fire_connected_lem}

-- hiredis accepts every command.
abbrev every : ℕ → List Bytes → Bool
every t args = true

abbrev get : List Bytes
get = (71 ∷ 69 ∷ 84 ∷ []) ∷ (107 ∷ []) ∷ []

abbrev ping : List Bytes
ping = (80 ∷ 73 ∷ 78 ∷ 71 ∷ []) ∷ []

abbrev connecting : RedisRequest
connecting = (run every (History.connect 0) Redis.make).1

abbrev asked : RedisRequest
asked = (run every (History.command true get 0) connecting).1

abbrev replied : RedisRequest
replied = (run every (History.reply none 2) asked).1

-- A reply to the first ticket.
called-Reachable_example : waiting 2 replied.map_callback + called 2 replied.calls ≤ 1
unfolding Connection.connect Redis.command Redis.issue_ticket Redis.run_command
called-Reachable_example = called-Reachable every replied 2 (
    step asked (History.reply none 2) (omega arith) (
      step connecting (History.command true get 0) (omega arith)
        (step Redis.make (History.connect 0) (omega arith) start)))

fire_connected_lem_example :
    let s1 = command_all every ((get, 0) ∷ (ping, 3) ∷ []) connecting in
    let (r, s2) = Connection.connect_callback every true s1 in
    (s1.calls ≡ [])
    × (r ≡ ok tt)
    × (s2.state ≡ connected)
    × (s2.calls ≡ sent 2 get ∷ sent 3 ping ∷ [])
unfolding Connection.connect
fire_connected_lem_example =
    fire_connected_lem every ((get, 0) ∷ (ping, 3) ∷ []) connecting 0 (λ t a. refl) refl refl

-- A command with a timeout of three seconds.
abbrev timed : RedisRequest
timed = (run every (History.command true get 3) connecting).1

ticks-on_command_ttl_example :
    let s1 = ticks 2 timed in
    let s2 = (Connection.on_command_ttl s1).1 in
    (find 2 s1.map_callback ≡ some (record { ticket = 2; args = get; ttl = 1 }))
    × (called 2 s1.calls ≡ 0)
    × (find 2 s2.map_callback ≡ none)
    × (called 2 s2.calls ≡ 1)
unfolding Connection.connect Redis.command Redis.issue_ticket Redis.run_command
ticks-on_command_ttl_example =
    ticks-on_command_ttl 2 2 (record { ticket = 2; args = get; ttl = 3 }) timed (ground arith) refl
      (omega arith) refl (omega arith)

-- "k  v\t " behind "GET".
split_command_lem_example :
    split_command (71 ∷ 69 ∷ 84 ∷ []) (107 ∷ 32 ∷ 32 ∷ 11 ∷ 118 ∷ 9 ∷ 32 ∷ [])
    ≡ some ((71 ∷ 69 ∷ 84 ∷ []) ∷ (107 ∷ []) ∷ (118 ∷ []) ∷ [])
split_command_lem_example =
    split_command_lem (71 ∷ 69 ∷ 84 ∷ []) (107 ∷ 32 ∷ 32 ∷ 11 ∷ 118 ∷ 9 ∷ 32 ∷ [])
