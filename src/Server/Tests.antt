-- ===== src/Server/Tests.antt =====
-- A server at concrete values.
use coconut.Base.{true, [], ◌∷◌}
use coconut.Server
use coconut.Server.{ServerController}

-- Of three clients the second, in the thread of the server, and the third are closed.
abbrev closing : ServerController
closing = record Server.make {
  clients = 1 ∷ 2 ∷ 3 ∷ [];
  delay_remove_clients = 2 ∷ 3 ∷ [];
  delayed_remove_timer = true;
}
