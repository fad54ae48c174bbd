-- ===== src/Pool/Laws.antt =====
-- What each method of the pool does to the connections.
use mathlib.Core.Option
use mathlib.Core.Option.{some-injective, none-ne-some, some-ne-none}
use mini_api_gateway.Common.{
  ℕ, suc, ◌≤◌, ◌≡◌, refl, sym, ap, ◌∙◌, ◌⊎◌, inl, inr, true, false, Option, none, some, List, [],
  ◌∷◌, ◌++◌, length, length-append, length-retain-le, All, arith, Option-cases, Bool-cases,
  text_eq_iff, text_eq_refl,
}
use mini_api_gateway.Config.{SocketAddr}
use mini_api_gateway.Pool.{
  PooledConnection, ConnectionPool, addr_eq, is_fresh, drop_expired, remove_first, connect_new,
  get_connection, return_connection, cleanup_expired,
}

pub addr_eq_sound : (a b : SocketAddr) → addr_eq a b ≡ true → a ≡ b
unfolding addr_eq
addr_eq_sound a b h = ground (arith, text_eq_iff a.ip b.ip)

pub addr_eq_refl : (a : SocketAddr) → addr_eq a a ≡ true
unfolding addr_eq
addr_eq_refl a = ground (arith, text_eq_refl a.ip)

cons_parts :
    (o : Option (List PooledConnection)) (c : PooledConnection) {rest : List PooledConnection}
    → Option.map (◌∷◌ c) o ≡ some rest
    → (tail : List PooledConnection) × (o ≡ some tail) × (c ∷ tail ≡ rest)
cons_parts none c e = cc
cons_parts (some tail) c e = (tail, refl, some-injective _ _ e)

-- What is removed is the first connection to the address.
pub remove_first-eq-some :
    (addr : SocketAddr) (cs : List PooledConnection) {rest : List PooledConnection}
    → remove_first addr cs ≡ some rest
    → (pre : List PooledConnection) × (c : PooledConnection) × (post : List PooledConnection) × (cs
        ≡ pre ++ c ∷ post)
      × (rest ≡ pre ++ post)
      × (c.addr ≡ addr)
      × All (λ d. addr_eq d.addr addr ≡ false) pre
unfolding remove_first
remove_first-eq-some addr [] h = absurd (none-ne-some _ h)
remove_first-eq-some addr (c ∷ cs) {rest} h = elim (Bool-cases (addr_eq c.addr addr)) [
  | inl hit ↦ ([], c, cs, refl, ground arith, addr_eq_sound c.addr addr hit, tt)
  | inr miss ↦
      let (tail, e, same) = cons_parts (remove_first addr cs) c (rw (miss, remove_first) at h) in
      let (pre, d, post, split, left, hit, others) = remove_first-eq-some addr cs e in
      (c ∷ pre, d, post, ap (◌∷◌ c) split, sym same ∙ ap (◌∷◌ c) left, hit, (miss, others))
]

pub remove_first-eq-none :
    (addr : SocketAddr) (cs : List PooledConnection)
    → remove_first addr cs ≡ none
    → All (λ d. addr_eq d.addr addr ≡ false) cs
unfolding remove_first
remove_first-eq-none addr [] h = tt
remove_first-eq-none addr (c ∷ cs) h = elim (Bool-cases (addr_eq c.addr addr)) [
  | inl hit ↦ absurd (some-ne-none _ (rw (hit, remove_first) at h))
  | inr miss ↦ (
    miss,
    remove_first-eq-none addr cs ((Option.map-eq-none_iff _ _).0 (rw (miss, remove_first) at h)),
  )
]

length-middle :
    (pre post : List PooledConnection) (c : PooledConnection)
    → length (pre ++ c ∷ post) ≡ suc (length (pre ++ post))
length-middle pre post c = omega (arith, length-append pre (c ∷ post), length-append pre post)

-- The methods keep the limit and the time-out, and the number of connections within the limit.
pub record Keeps (pool pool' : ConnectionPool) : Type 0 where
  pub limit : pool'.max_connections ≡ pool.max_connections
  pub timeout : pool'.idle_timeout ≡ pool.idle_timeout
  pub bounded : length pool'.connections ≤ pool.max_connections

connect_new-Keeps :
    {S : Type 0} (addr : SocketAddr) (created used : ℕ) (connected : Option S)
    (pool : ConnectionPool)
    → length pool.connections ≤ pool.max_connections
    → Keeps pool (connect_new addr created used connected pool).1
unfolding connect_new
connect_new-Keeps addr created used none pool h = ground arith
connect_new-Keeps addr created used (some s) pool h = ground (
  arith,
  length-append pool.connections
      (record { addr = addr; created_at = created; last_used = used } ∷ []),
)

module _ {S : Type 0} (addr : SocketAddr) (now created used : ℕ) (connected : Option S)
    (pool : ConnectionPool) where
  -- The call by what `remove_first` finds among the connections that have not expired.
  pub get_connection-remove_first :
      let live = drop_expired now pool in
      ((pre : List PooledConnection) × (c : PooledConnection) × (post : List PooledConnection)
        × (live.connections ≡ pre ++ c ∷ post)
        × (c.addr ≡ addr)
        × All (λ d. addr_eq d.addr addr ≡ false) pre
        × (get_connection addr now created used connected pool
            ≡ (connected, record live { connections = pre ++ post })))
      ⊎ (All (λ d. addr_eq d.addr addr ≡ false) live.connections
          × (get_connection addr now created used connected pool
              ≡ connect_new addr created used connected live))
  unfolding get_connection
  get_connection-remove_first =
      elim (Option-cases (remove_first addr (drop_expired now pool).connections)) [
        | inl e ↦ inr (remove_first-eq-none addr _ e, rw (e, get_connection) refl)
        | inr (rest, e) ↦
            let (pre, c, post, split, left, same, others) = remove_first-eq-some addr _ e in
            inl (
              pre,
              c,
              post,
              split,
              same,
              others,
              rw (e, get_connection)
                  (ap (λ r. (connected, record (drop_expired now pool) { connections = r })) left),
            )
      ]

  pub get_connection-Keeps :
      length pool.connections ≤ pool.max_connections
      → Keeps pool (get_connection addr now created used connected pool).1
  get_connection-Keeps h =
      let less = length-retain-le (is_fresh now pool.idle_timeout) pool.connections in
      elim get_connection-remove_first [
        | inl (pre, c, post, split, same, before, e) ↦ rw e (record {
          limit = refl;
          timeout = refl;
          bounded = omega (arith, less, ap length split, length-middle pre post c);
        })
        | inr (others, e) ↦
            let k =
              connect_new-Keeps addr created used connected (drop_expired now pool)
                (omega (arith, less)) in
            rw e (record { limit = k.limit; timeout = k.timeout; bounded = k.bounded })
      ]

pub return_connection-Keeps :
    (addr : SocketAddr) (created used : ℕ) (pool : ConnectionPool)
    → length pool.connections ≤ pool.max_connections
    → Keeps pool (return_connection addr created used pool)
unfolding return_connection
return_connection-Keeps addr created used pool h = ground (
  arith,
  length-append pool.connections
      (record { addr = addr; created_at = created; last_used = used } ∷ []),
)

pub cleanup_expired-Keeps :
    (now : ℕ) (pool : ConnectionPool)
    → length pool.connections ≤ pool.max_connections
    → Keeps pool (cleanup_expired now pool)
unfolding cleanup_expired
cleanup_expired-Keeps now pool h =
    omega (arith, length-retain-le (is_fresh now pool.idle_timeout) pool.connections)
