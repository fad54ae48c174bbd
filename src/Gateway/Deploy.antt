-- ===== src/Gateway/Deploy.antt =====
-- src/gateway.rs and src/cache/mod.rs: the gateway that was built, as the tasks of its connections use
-- it, with the backend of its cache behind `dyn CacheBackendTrait`.
use mini_api_gateway.Common.{ℕ, Option, none, some, Text, Result}
use mini_api_gateway.Error.{GatewayError}
use mini_api_gateway.Http.{Http}
use mini_api_gateway.Client.{HttpClient}
use mini_api_gateway.Discovery.{ServiceDiscovery}
use mini_api_gateway.Config.{CacheConfig}
use mini_api_gateway.RateLimit.{RateLimitLayer}
use mini_api_gateway.Cache.{CachedResponse, CacheBackendTrait}
use mini_api_gateway.Cache.Memory.{Moka, memory_get, memory_set, memory_delete, memory_clear}
use mini_api_gateway.Cache.Redis.{
  RedisLib, RedisState, redis_get, redis_set, redis_delete, redis_clear,
}
use mini_api_gateway.Cache.Backend.{DynCache, memory_cache, redis_cache, CacheLayer}
use mini_api_gateway.Platform.{Platform, World}
use mini_api_gateway.Gateway.{Gateway}
use mini_api_gateway.Gateway.Build.{Libraries, Assembly}

module _ (moka : Moka) (lib : RedisLib) where
  -- The backend, and what a cache on a Redis server shares with its clones.
  abbrev pub DynStore : Type 0
  DynStore = DynCache moka lib × RedisState lib

  -- A call of the memory cache, and one of the Redis cache.
  abbrev in_memory : {A : Type 0} → RedisState lib → A × moka.Cache → A × DynStore
  in_memory r (a, c) = (a, (memory_cache c, r))

  abbrev in_redis : {A : Type 0} → lib.Client → A × RedisState lib → A × DynStore
  in_redis client (a, r) = (a, (redis_cache client, r))

  unfoldable pub dyn_get : DynStore → Text → Result GatewayError (Option CachedResponse) × DynStore
  dyn_get (memory_cache c, r) key = in_memory r (memory_get moka c key)
  dyn_get (redis_cache client, r) key = in_redis client (redis_get lib client r key)

  unfoldable pub dyn_set :
      DynStore → Text → CachedResponse → (ttl : ℕ) → Result GatewayError (Unit {0}) × DynStore
  dyn_set (memory_cache c, r) key v ttl = in_memory r (memory_set moka c key v ttl)
  dyn_set (redis_cache client, r) key v ttl = in_redis client (redis_set lib client r key v ttl)

  unfoldable pub dyn_delete : DynStore → Text → Result GatewayError (Unit {0}) × DynStore
  dyn_delete (memory_cache c, r) key = in_memory r (memory_delete moka c key)
  dyn_delete (redis_cache client, r) key = in_redis client (redis_delete lib client r key)

  unfoldable pub dyn_clear : DynStore → Result GatewayError (Unit {0}) × DynStore
  dyn_clear (memory_cache c, r) = in_memory r (memory_clear moka c)
  dyn_clear (redis_cache client, r) = in_redis client (redis_clear lib client r)

  -- `Arc<dyn CacheBackendTrait>`
  abbrev pub dyn_backend : CacheBackendTrait
  dyn_backend = record {
    Store = DynStore;
    get = dyn_get;
    set = dyn_set;
    delete = dyn_delete;
    clear = dyn_clear;
  }

-- What the gateway meets outside its process: HTTP messages, the upstream servers, and the discovery
-- that its router asks.
pub record Surroundings : Type 1 where
  pub http : Http
  pub client : HttpClient http.HeaderMap
  pub discovery : ServiceDiscovery
  pub lossy : Text → Text

module _ (L : Libraries) (around : Surroundings) where
  abbrev pub platform : Platform
  platform = record {
    http = around.http;
    client = around.client;
    regex = L.regex;
    discovery = around.discovery;
    jwt = L.jwt;
    limiter = L.limiter;
    cache = dyn_backend L.moka L.redis;
    lossy = around.lossy;
  }

  abbrev limits : Option (RateLimitLayer × L.limiter.State) → Option RateLimitLayer
  limits none = none
  limits (some (layer, s)) = some layer

  abbrev cached : Option (CacheLayer L.moka L.redis) → Option CacheConfig
  cached none = none
  cached (some layer) = some layer.config

  -- What a clone of the gateway reads.
  abbrev pub gateway_of : Assembly L → Gateway platform
  gateway_of g = record {
    request_id_header = g.config.logging.request_id_header;
    router = g.router;
    auth_layer = g.auth_layer;
    rate_limit_layer = limits g.rate_limit_layer;
    cors_layer = g.cors_layer;
    cache_layer = cached g.cache_layer;
  }

  abbrev limiter_state :
      L.limiter.State → Option (RateLimitLayer × L.limiter.State) → L.limiter.State
  limiter_state s none = s
  limiter_state s (some (layer, s')) = s'

  abbrev pub store_of :
      DynStore L.moka L.redis → Option (CacheLayer L.moka L.redis) → DynStore L.moka L.redis
  store_of s none = s
  store_of (c, r) (some layer) = (layer.backend, r)

  -- The state that the clones share: the limiter and the cache are the gateway's own, if it has them.
  abbrev pub world_of : Assembly L → World platform → World platform
  world_of g w = record w {
    limiter = limiter_state w.limiter g.rate_limit_layer;
    cache = store_of w.cache g.cache_layer;
  }
