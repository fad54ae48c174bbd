-- ===== src/Cache/Redis.antt =====
-- src/cache/redis.rs: the cache in a Redis server.
pub mod Commands
pub mod Histories
use mini_api_gateway.Common.{
  ℕ, ◌≡◌, ◌≢◌, ◌⊎◌, Option, none, some, Text, text, ◌++◌, Result, ok, err, map_err, ◌>>=?◌,
}
use mini_api_gateway.Error.{GatewayError, cache, serialization}
use mini_api_gateway.Cache.{CachedResponse, CacheBackendTrait}

-- The `redis` and `serde_json` crates, which the gateway uses and does not implement. `stored` is what
-- a server holds: a command changes it as Redis documents, an entry may expire at any time, and a
-- command that fails may or may not have been carried out.
pub record RedisLib : Type 1 where
  pub Client : Type 0
  pub Conn : Type 0
  pub Server : Type 0
  pub stored : Server → Text → Option Text
  pub open_client : (url : Text) → Result Text Client
  pub connect : Client → Server → Result Text Conn × Server
  pub get : Conn → Text → Server → Result Text (Option Text) × Server
  pub set_ex : Conn → (key value : Text) → (secs : ℕ) → Server → Result Text (Unit {0}) × Server
  pub del : Conn → Text → Server → Result Text (Unit {0}) × Server
  pub flushdb : Conn → Server → Result Text (Unit {0}) × Server
  pub to_vec : CachedResponse → Result Text Text
  pub from_slice : Text → Result Text CachedResponse
  pub from_slice-to_vec : (v : CachedResponse) (b : Text) → to_vec v ≡ ok b → from_slice b ≡ ok v
  pub stored-connect :
      (c : Client) (s : Server) (j u : Text)
      → stored (connect c s).1 j ≡ some u
      → stored s j ≡ some u
  pub stored-get :
      (c : Conn) (k : Text) (s : Server) (j u : Text)
      → stored (get c k s).1 j ≡ some u
      → stored s j ≡ some u
  pub get_sound :
      (c : Conn) (k : Text) (s : Server) (u : Text)
      → (get c k s).0 ≡ ok (some u)
      → stored s k ≡ some u
  pub stored-set_ex :
      (c : Conn) (k v : Text) (secs : ℕ) (s : Server) (j u : Text)
      → stored (set_ex c k v secs s).1 j ≡ some u
      → ((k ≡ j) × (u ≡ v))
        ⊎ ((((set_ex c k v secs s).0 ≢ ok tt) ⊎ (k ≢ j)) × (stored s j ≡ some u))
  pub stored-del :
      (c : Conn) (k : Text) (s : Server) (j u : Text)
      → stored (del c k s).1 j ≡ some u
      → (((del c k s).0 ≢ ok tt) ⊎ (k ≢ j)) × (stored s j ≡ some u)
  pub stored-flushdb :
      (c : Conn) (s : Server) (j u : Text)
      → stored (flushdb c s).1 j ≡ some u
      → ((flushdb c s).0 ≢ ok tt) × (stored s j ≡ some u)

module _ (lib : RedisLib) where
  open lib use {
    Client, Conn, Server, open_client, connect, set_ex, del, flushdb, to_vec, from_slice,
  }

  -- The connection of a cache, if it has been made, and the server.
  pub record RedisState : Type 0 where
    pub conn : Option Conn
    pub server : Server

  -- `RedisCache::new`: the client. No connection is made yet.
  unfoldable pub new : Text → Result GatewayError Client
  new url = map_err (λ e. cache (text "Invalid Redis URL: " ++ e)) (open_client url)

  unfoldable pub connected : Result Text Conn × Server → Result GatewayError Conn × RedisState
  connected (err e, server) =
      (err (cache (text "Redis connection failed: " ++ e)), record { conn = none; server = server })
  connected (ok c, server) = (ok c, record { conn = some c; server = server })

  -- `get_conn`: the connection that there is, or a new one.
  unfoldable pub get_conn : Client → RedisState → Result GatewayError Conn × RedisState
  unfolding connected
  get_conn client s = elim s.conn [
    | some c ↦ (ok c, s)
    | none ↦ connected (connect client s.server)
  ]

  unfoldable pub serialize : CachedResponse → Result GatewayError Text
  serialize value = map_err serialization (to_vec value)

  unfoldable pub deserialize : Text → Result GatewayError CachedResponse
  deserialize bytes = map_err serialization (from_slice bytes)

  -- The rest of a method, on its connection.
  unfoldable pub on_conn :
      {A : Type 0}
      → (Conn → Server → Result GatewayError A × Server)
      → Result GatewayError Conn × RedisState
      → Result GatewayError A × RedisState
  on_conn f (err e, s) = (err e, s)
  on_conn f (ok c, s) = let (r, server) = f c s.server in (r, record s { server = server })

  unfoldable pub read_value : Option Text → Result GatewayError (Option CachedResponse)
  unfolding deserialize
  read_value none = ok none
  read_value (some bytes) = deserialize bytes >>=? λ v. ok (some v)

  unfoldable pub get_on :
      Text → Conn → Server → Result GatewayError (Option CachedResponse) × Server
  unfolding read_value
  get_on key c server =
      let (found, server') = lib.get c key server in
      ((map_err (λ e. cache (text "Redis GET failed: " ++ e)) found >>=? read_value), server')

  -- A value that cannot be serialized is not sent.
  unfoldable pub set_on :
      Text → Result GatewayError Text → ℕ → Conn → Server → Result GatewayError (Unit {0}) × Server
  set_on key (err e) ttl c server = (err e, server)
  set_on key (ok bytes) ttl c server =
      let (done, server') = set_ex c key bytes ttl server in
      (map_err (λ e. cache (text "Redis SET failed: " ++ e)) done, server')

  unfoldable pub del_on : Text → Conn → Server → Result GatewayError (Unit {0}) × Server
  del_on key c server =
      let (done, server') = del c key server in
      (map_err (λ e. cache (text "Redis DEL failed: " ++ e)) done, server')

  unfoldable pub flush_on : Conn → Server → Result GatewayError (Unit {0}) × Server
  flush_on c server =
      let (done, server') = flushdb c server in
      (map_err (λ e. cache (text "Redis FLUSHDB failed: " ++ e)) done, server')

  module _ (client : Client) where
    unfoldable pub redis_get :
        RedisState → Text → Result GatewayError (Option CachedResponse) × RedisState
    unfolding on_conn get_on
    redis_get s key = on_conn (get_on key) (get_conn client s)

    unfoldable pub redis_set :
        RedisState → Text → CachedResponse → (ttl : ℕ) → Result GatewayError (Unit {0}) × RedisState
    unfolding on_conn set_on
    redis_set s key value ttl = on_conn (set_on key (serialize value) ttl) (get_conn client s)

    unfoldable pub redis_delete : RedisState → Text → Result GatewayError (Unit {0}) × RedisState
    unfolding on_conn del_on
    redis_delete s key = on_conn (del_on key) (get_conn client s)

    unfoldable pub redis_clear : RedisState → Result GatewayError (Unit {0}) × RedisState
    unfolding on_conn flush_on
    redis_clear s = on_conn flush_on (get_conn client s)

    -- `impl CacheBackendTrait for RedisCache`
    abbrev pub redis_backend : CacheBackendTrait
    redis_backend = record {
      Store = RedisState;
      get = redis_get;
      set = redis_set;
      delete = redis_delete;
      clear = redis_clear;
    }
