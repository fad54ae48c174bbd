-- ===== src/Pool/Histories.antt =====
-- The pool over any history of its methods.
use mini_api_gateway.Common.{
  ℕ, ◌≤◌, ◌≡◌, refl, Option, some, List, [], ◌∷◌, length, arith, ◌<◌, ◌∙◌,
}
use mini_api_gateway.Config.{SocketAddr}
use mini_api_gateway.Pool.{
  ConnectionPool, new, get_connection, return_connection, cleanup_expired, remove_first,
}
use mini_api_gateway.Pool.Laws.{
  Keeps, get_connection-Keeps, return_connection-Keeps, cleanup_expired-Keeps, addr_eq_refl,
}

-- A call of a method: the clock's readings, and whether connecting succeeds.
pub data Call : Type 0 where
  get : SocketAddr → (now created used : ℕ) → (connected : Option (Unit {0})) → Call
  give : SocketAddr → (created used : ℕ) → Call
  cleanup : (now : ℕ) → Call

unfoldable pub step : Call → ConnectionPool → ConnectionPool
step (get addr now created used connected) pool =
    (get_connection addr now created used connected pool).1
step (give addr created used) pool = return_connection addr created used pool
step (cleanup now) pool = cleanup_expired now pool

pub run : List Call → ConnectionPool → ConnectionPool
run [] pool = pool
run (c ∷ cs) pool = run cs (step c pool)

step-Keeps :
    (c : Call) (pool : ConnectionPool)
    → length pool.connections ≤ pool.max_connections
    → Keeps pool (step c pool)
unfolding step
step-Keeps (get addr now created used connected) pool h =
    get_connection-Keeps addr now created used connected pool h
step-Keeps (give addr created used) pool h = return_connection-Keeps addr created used pool h
step-Keeps (cleanup now) pool h = cleanup_expired-Keeps now pool h

run-Keeps :
    (cs : List Call) (pool : ConnectionPool)
    → length pool.connections ≤ pool.max_connections
    → Keeps pool (run cs pool)
unfolding run
run-Keeps [] pool h = record { limit = refl; timeout = refl; bounded = h }
run-Keeps (c ∷ cs) pool h =
    let k = step-Keeps c pool h in
    let l = run-Keeps cs (step c pool) (omega (arith, k.limit, k.bounded)) in
    record {
      limit = l.limit ∙ k.limit;
      timeout = l.timeout ∙ k.timeout;
      bounded = omega (arith, k.limit, l.bounded);
    }

-- After any history of its methods, whatever the clock and the network do, a new pool lists at
-- most `max_connections` connections and has kept its limit and its time-out.
pub run-new :
    (max timeout : ℕ) (cs : List Call)
    → let pool = run cs (new max timeout) in
      (length pool.connections ≤ max) × (pool.max_connections ≡ max) × (pool.idle_timeout ≡ timeout)
unfolding new
run-new max timeout cs =
    let k = run-Keeps cs (new max timeout) (omega arith) in (k.bounded, k.limit, k.timeout)

-- The limit bounds the list and not the connections that are in use: from an empty pool with a
-- positive limit and a positive time-out, two calls at one instant for one address that can be
-- reached both get a connection, though none was returned. After the first, one connection is
-- listed; after the second, the pool is as it was at the start.
get_connection_twice :
    {S : Type 0} (pool : ConnectionPool) (addr : SocketAddr) (now : ℕ) (s : S)
    → pool.connections ≡ []
    → 0 < pool.max_connections
    → 0 < pool.idle_timeout
    → let first = get_connection addr now now now (some s) pool in
      let second = get_connection addr now now now (some s) first.1 in
      (first.0 ≡ some s)
      × (length first.1.connections ≡ 1)
      × (second.0 ≡ some s)
      × (second.1 ≡ pool)
unfolding get_connection remove_first
get_connection_twice pool addr now s e m t = ground (arith, addr_eq_refl addr)
