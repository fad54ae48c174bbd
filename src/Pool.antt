-- ===== src/Pool.antt =====
-- src/pool.rs: the pool of upstream connections. An instant is a number of milliseconds; each call
-- of the clock is an argument. The lock is held for the whole of each method, also while it waits
-- for a connection, so that a method is one step.
pub mod Bodies
pub mod Laws
pub mod Reuse
pub mod Histories
use mathlib.Core.Option
use mini_api_gateway.Common.{
  ℕ, ◌+◌, ◌-◌, Bool, ◌&&◌, Option, none, some, List, [], ◌∷◌, ◌++◌, length, ltb, ◌==◌, retain,
  if◌then◌else◌, text_eq,
}
use mini_api_gateway.Config.{SocketAddr}

pub record PooledConnection : Type 0 where
  pub addr : SocketAddr
  pub created_at : ℕ
  pub last_used : ℕ

pub record ConnectionPool : Type 0 where
  pub max_connections : ℕ
  pub idle_timeout : ℕ
  pub connections : List PooledConnection

unfoldable pub new : ℕ → ℕ → ConnectionPool
new max_connections idle_timeout = record {
  max_connections = max_connections;
  idle_timeout = idle_timeout;
  connections = [];
}

unfoldable pub addr_eq : SocketAddr → SocketAddr → Bool
addr_eq a b = text_eq a.ip b.ip && a.port == b.port

-- `now.duration_since(last_used) < idle_timeout`, where the difference stops at zero.
abbrev pub is_fresh : ℕ → ℕ → PooledConnection → Bool
is_fresh now timeout c = ltb (now - c.last_used) timeout

abbrev pub drop_expired : ℕ → ConnectionPool → ConnectionPool
drop_expired now pool = record pool {
  connections = retain (is_fresh now pool.idle_timeout) pool.connections;
}

-- `iter().position(|conn| conn.addr == addr)` followed by `remove(pos)`: the list without its first
-- connection to the address, if it has one.
unfoldable pub remove_first : SocketAddr → List PooledConnection → Option (List PooledConnection)
remove_first addr [] = none
remove_first addr (c ∷ cs) =
    let rest = Option.map (◌∷◌ c) (remove_first addr cs) in
    if addr_eq c.addr addr then some cs else rest

abbrev pub push : SocketAddr → (created used : ℕ) → ConnectionPool → ConnectionPool
push addr created used pool = record pool {
  connections =
      pool.connections ++ (record { addr = addr; created_at = created; last_used = used }) ∷ [];
}

-- The new connection is listed, if connecting succeeded.
abbrev pub list_new {ℓ} :
    {S : Type ℓ}
    → SocketAddr
    → (created used : ℕ) → Option S
    → ConnectionPool
    → Option S × ConnectionPool
list_new addr created used none pool = (none, pool)
list_new addr created used (some s) pool = (some s, push addr created used pool)

-- A new connection, if there is room: `connected` is what connecting to the address yields.
unfoldable pub connect_new {ℓ} :
    {S : Type ℓ}
    → SocketAddr
    → (created used : ℕ) → (connected : Option S) → ConnectionPool
    → Option S × ConnectionPool
connect_new addr created used connected pool =
    if ltb (length pool.connections) pool.max_connections
    then list_new addr created used connected pool
    else (none, pool)

unfoldable pub get_connection {ℓ} :
    {S : Type ℓ}
    → SocketAddr
    → (now created used : ℕ) → (connected : Option S) → ConnectionPool
    → Option S × ConnectionPool
unfolding connect_new
get_connection addr now created used connected pool =
    let live = drop_expired now pool in
    elim (remove_first addr live.connections) [
      | some rest ↦ (connected, record live { connections = rest })
      | none ↦ connect_new addr created used connected live
    ]

unfoldable pub return_connection : SocketAddr → (created used : ℕ) → ConnectionPool → ConnectionPool
return_connection addr created used pool =
    if ltb (length pool.connections) pool.max_connections then push addr created used pool else pool

unfoldable pub cleanup_expired : (now : ℕ) → ConnectionPool → ConnectionPool
cleanup_expired now pool = drop_expired now pool
