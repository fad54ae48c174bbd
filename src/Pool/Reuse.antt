-- ===== src/Pool/Reuse.antt =====
-- `get_connection` of src/pool.rs: which connection of the pool a call takes, and when it makes one.
use mini_api_gateway.Common.{
  ℕ, ◌-◌, ◌<◌, ◌≤◌, ◌≡◌, ◌≢◌, refl, ◌⊎◌, inl, inr, Option, none, some, List, [], ◌∷◌, ◌++◌, length,
  ltb, retain, All, true, false, arith, Bool-cases,
}
use mini_api_gateway.Config.{SocketAddr}
use mini_api_gateway.Pool.{
  PooledConnection, ConnectionPool, addr_eq, is_fresh, drop_expired, connect_new, get_connection,
}
use mini_api_gateway.Pool.Laws.{addr_eq_refl, get_connection-remove_first}

-- What is left of a list, in its order, without the connections that have been idle for the time-out.
abbrev pub IsPruned : (now timeout : ℕ) → List PooledConnection → List PooledConnection → Type 0
IsPruned now timeout [] left = left ≡ []
IsPruned now timeout (c ∷ cs) left =
    ((now - c.last_used < timeout)
      × ((rest : List PooledConnection) × IsPruned now timeout cs rest × (left ≡ c ∷ rest)))
    ⊎ ((timeout ≤ now - c.last_used) × IsPruned now timeout cs left)

retain-IsPruned :
    (now timeout : ℕ) (cs : List PooledConnection)
    → IsPruned now timeout cs (retain (is_fresh now timeout) cs)
retain-IsPruned now timeout [] = refl
retain-IsPruned now timeout (c ∷ cs) = elim (Bool-cases (ltb (now - c.last_used) timeout)) [
  | inl fresh ↦ rw fresh (inl (ground arith, (_, retain-IsPruned now timeout cs, refl)))
  | inr idle ↦ rw idle (inr (ground arith, retain-IsPruned now timeout cs))
]

addr_eq-others :
    (addr : SocketAddr) (cs : List PooledConnection)
    → All (λ d. addr_eq d.addr addr ≡ false) cs
    → All (λ d. d.addr ≢ addr) cs
addr_eq-others addr [] h = tt
addr_eq-others addr (c ∷ cs) (n, h) = (
  (λ e. let same : addr_eq c.addr addr ≡ true = rw e (addr_eq_refl addr) in cc),
  addr_eq-others addr cs h,
)

module _ {S : Type 0} (addr : SocketAddr) (now created used : ℕ) (connected : Option S)
    (pool : ConnectionPool) where
  -- What a call can yield, where `live` is left of the listed connections.
  pub data Gets (live : List PooledConnection) (result : Option S × ConnectionPool) : Type 0 where
    reused :
        (pre : List PooledConnection) (c : PooledConnection) (post : List PooledConnection)
        → live ≡ pre ++ c ∷ post
        → c.addr ≡ addr
        → All (λ d. d.addr ≢ addr) pre
        → result ≡ (connected, record pool { connections = pre ++ post })
        → Gets live result
    made :
        All (λ d. d.addr ≢ addr) live
        → length live < pool.max_connections
        → (s : S) → connected ≡ some s
        → result ≡ (
          some s,
          record pool {
            connections =
                live ++ (record { addr = addr; created_at = created; last_used = used }) ∷ [];
          },
        )
        → Gets live result
    unreachable :
        All (λ d. d.addr ≢ addr) live
        → length live < pool.max_connections
        → connected ≡ none
        → result ≡ (none, record pool { connections = live })
        → Gets live result
    full :
        All (λ d. d.addr ≢ addr) live
        → pool.max_connections ≤ length live
        → result ≡ (none, record pool { connections = live })
        → Gets live result

connect_new-Gets :
    {S : Type 0} (addr : SocketAddr) (now created used : ℕ) (connected : Option S)
    (pool : ConnectionPool) (live : List PooledConnection)
    → All (λ d. d.addr ≢ addr) live
    → Gets addr now created used connected pool live
        (connect_new addr created used connected (record pool { connections = live }))
unfolding connect_new
connect_new-Gets addr now created used none pool live others =
    elim (Bool-cases (ltb (length live) pool.max_connections)) [
      | inl room ↦ rw room (unreachable others (ground arith) refl refl)
      | inr full_ ↦ rw full_ (full others (ground arith) refl)
    ]
connect_new-Gets addr now created used (some s) pool live others =
    elim (Bool-cases (ltb (length live) pool.max_connections)) [
      | inl room ↦ rw room (made others (ground arith) s refl refl)
      | inr full_ ↦ rw full_ (full others (ground arith) refl)
    ]

-- `get_connection` first forgets exactly the connections that have been idle for the time-out. If
-- one to the address is left, the first such and no other is removed, and the answer is what
-- connecting to the address again yields. If none is left and fewer than `max_connections` are
-- listed, the answer is what connecting yields, and a connection that is made is listed at the end.
-- If none is left and the list is full, there is no answer and nothing is listed. The limit and the
-- time-out stay.
pub get_connection-Gets :
    {S : Type 0} (addr : SocketAddr) (now created used : ℕ) (connected : Option S)
    (pool : ConnectionPool)
    → (live : List PooledConnection) × IsPruned now pool.idle_timeout pool.connections live
      × Gets addr now created used connected pool live
          (get_connection addr now created used connected pool)
get_connection-Gets addr now created used connected pool = (
  (drop_expired now pool).connections,
  retain-IsPruned now pool.idle_timeout pool.connections,
  elim (get_connection-remove_first addr now created used connected pool) [
    | inl (pre, c, post, split, same, before, e) ↦
        reused pre c post split same (addr_eq-others addr pre before) e
    | inr (others, e) ↦
        rw e
          (connect_new-Gets addr now created used connected pool _ (addr_eq-others addr _ others))
  ],
)
