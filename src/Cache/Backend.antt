-- ===== src/Cache/Backend.antt =====
-- src/cache/mod.rs: `CacheLayer::new`, which chooses the backend.
use mini_api_gateway.Common.{Text, text, ◌++◌, Result, ok, map_err, ◌>>=?◌ as ◌>>=◌}
use mini_api_gateway.Config.{CacheConfig, memory, redis}
use mini_api_gateway.Error.{GatewayError, cache}
use mini_api_gateway.Error
use mini_api_gateway.Cache.Memory.{Moka}
use mini_api_gateway.Cache.Memory
use mini_api_gateway.Cache.Redis.{RedisLib}
use mini_api_gateway.Cache.Redis

module _ (moka : Moka) (lib : RedisLib) where
  open moka use {Cache}
  open lib use {Client}

  -- The backend behind `dyn CacheBackendTrait`.
  pub data DynCache : Type 0 where
    memory_cache : Cache → DynCache
    redis_cache : Client → DynCache

  pub record CacheLayer : Type 0 where
    pub backend : DynCache
    pub config : CacheConfig

  unfoldable pub open_redis : (url : Text) → Result GatewayError DynCache
  open_redis url = do
    client ←
        map_err (λ e. cache (text "Redis cache init failed: " ++ Error.display e))
          (Redis.new lib url)
    ok (redis_cache client)

  unfoldable pub open_backend : CacheConfig → Result GatewayError DynCache
  unfolding open_redis
  open_backend config = elim config.backend [
    | memory ↦ ok (memory_cache (Memory.new moka config.max_capacity))
    | redis url ↦ open_redis url
  ]

  -- `CacheLayer::new`
  unfoldable pub new : CacheConfig → Result GatewayError CacheLayer
  new config = do backend ← open_backend config; ok (record { backend = backend; config = config })
