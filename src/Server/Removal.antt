-- ===== src/Server/Removal.antt =====
-- The delayed removal of the clients of Server.antt.
use coconut.Base.{
  ℕ, ◌≡◌, refl, arith, Bool, true, not, ◌&&◌, ◌||◌, List, [], ◌∷◌, ◌==◌, ok, M, ◌>>◌, pure,
}
use coconut.Server
use coconut.Server.{ServerController, has, insert}

-- No client is twice in a set.
abbrev pub distinct : List ℕ → Bool
distinct [] = true
distinct (x ∷ xs) = not (has x xs) && distinct xs

has-insert : (x y : ℕ) (xs : List ℕ) → has x (insert y xs) ≡ ((x == y) || has x xs)
has-insert x y [] = refl
has-insert x y (z ∷ xs) = ground (arith, has-insert x y xs)

-- The clients that stay once their services have made the calls that they have still to make.
abbrev pub left : ℕ → ServerController → Bool
left x s = has x s.clients && not (has x s.deferred)

-- The services make these calls, each in its own thread.
abbrev pub make_deferred : List ℕ → M ServerController (Unit {0})
make_deferred [] = pure tt
make_deferred (c ∷ cs) = Server.on_delayed_client_remove true c >> make_deferred cs

-- A step ends and keeps the clients distinct, and those that stay are told by `stays`.
record Leaves (m : M ServerController (Unit {0})) (s : ServerController) (stays : ℕ → Bool)
    : Type 0 where
  pub done : (m s).0 ≡ ok tt
  pub distinct : distinct (m s).1.clients ≡ true
  pub left : (x : ℕ) → left x (m s).1 ≡ stays x
  pub same : (m s).1.delay_remove_clients ≡ s.delay_remove_clients
