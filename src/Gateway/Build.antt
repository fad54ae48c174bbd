-- ===== src/Gateway/Build.antt =====
-- src/gateway.rs: `Gateway::new`, which builds each part that its section of the configuration enables.
pub mod Stages
pub mod Parts
use mini_api_gateway.Common.{
  ℕ, Bool, Option, none, some, List, [], ◌∷◌, if◌then◌else◌, Text, Result, ok, ◌>>=?◌, Run, ◌>>=◌,
  ◌>>◌, pure, unwrap, modify, try,
}
use mini_api_gateway.Config.{
  GatewayConfig, RouteConfig, UpstreamConfig, static, service, load_balance, DiscoveryConfig,
  consul, etcd, AuthConfig, RateLimitConfig, CorsConfig, PoolConfig, MetricsConfig,
}
use mini_api_gateway.Error.{GatewayError}
use mini_api_gateway.Router.Regex.{RegexLib}
use mini_api_gateway.Router.{Router, with_discovery}
use mini_api_gateway.Router
use mini_api_gateway.Discovery.Shared.{QueryClient, Shared}
use mini_api_gateway.Discovery.Consul.{ConsulDiscovery, ConsulService}
use mini_api_gateway.Discovery.Consul
use mini_api_gateway.Discovery.Etcd.{EtcdDiscovery, EtcdCodec}
use mini_api_gateway.Discovery.Etcd
use mini_api_gateway.Tls.{TlsLib, create_tls_acceptor}
use mini_api_gateway.Auth.{JwtLib, AuthLayer}
use mini_api_gateway.Auth
use mini_api_gateway.RateLimit.{Limiter, RateLimitLayer}
use mini_api_gateway.RateLimit
use mini_api_gateway.Cors.{CorsLayer}
use mini_api_gateway.Cors
use mini_api_gateway.Cache.Memory.{Moka}
use mini_api_gateway.Cache.Redis.{RedisLib}
use mini_api_gateway.Cache.Backend.{CacheLayer}
use mini_api_gateway.Cache.Backend

-- The libraries that the parts are built on. `services` reads the answer of a Consul server;
-- `build_pool` builds a `reqwest` client with a number of idle connections and their timeout, and
-- `install_recorder` is what installing the metrics recorder yields.
pub record Libraries : Type 1 where
  pub regex : RegexLib
  pub jwt : JwtLib
  pub limiter : Limiter
  pub tls : TlsLib
  pub moka : Moka
  pub redis : RedisLib
  pub codec : EtcdCodec
  pub query : QueryClient
  pub services : Text → Result Text (List ConsulService)
  pub HttpPool : Type 0
  pub build_pool : (max_idle idle_secs : ℕ) → Option HttpPool
  pub Recorder : Type 0
  pub install_recorder : Option Recorder

-- The discovery behind `dyn ServiceDiscovery`.
pub data DynServiceDiscovery : Type 0 where
  by_consul : ConsulDiscovery → DynServiceDiscovery
  by_etcd : EtcdDiscovery → DynServiceDiscovery

-- The fields of the gateway that is built. The limiter's state stands beside its layer.
pub record Assembly (L : Libraries) : Type 0 where
  pub config : GatewayConfig
  pub router : Router L.regex.Regex
  pub proxy_client : L.HttpPool
  pub metrics : Option L.Recorder
  pub tls_acceptor : Option L.tls.ServerConfig
  pub auth_layer : Option (AuthLayer L.jwt.DecodingKey)
  pub rate_limit_layer : Option (RateLimitLayer × L.limiter.State)
  pub cors_layer : Option CorsLayer
  pub cache_layer : Option (CacheLayer L.moka L.redis)

module _ (L : Libraries) where
  open L use {query, services, codec, HttpPool, build_pool, Recorder, install_recorder}
  open query use {Net}

  -- Code of `Gateway::new`: it changes what the discovery's clones share.
  abbrev pub Build : Type 0 → Type 0
  Build A = Run (Shared Net) GatewayError A

  -- A part that its section enables.
  unfoldable pub optionally :
      {C A : Type 0} → (C → Bool) → (C → Build A) → Option C → Build (Option A)
  optionally enabled build none = pure none
  optionally enabled build (some c) =
      if enabled c then build c >>= (λ a. pure (some a)) else pure none

  unfoldable pub open_discovery : DiscoveryConfig → Result GatewayError DynServiceDiscovery
  open_discovery config = elim config.provider [
    | consul address datacenter ↦ Consul.new query services config >>=? λ d. ok (by_consul d)
    | etcd endpoints ↦ Etcd.new codec query config >>=? λ d. ok (by_etcd d)
  ]

  unfoldable pub watch_name : DynServiceDiscovery → Text → Shared Net → Shared Net
  watch_name (by_consul d) name s = (Consul.watch query services name s).1
  watch_name (by_etcd d) name s = (Etcd.watch codec query name s).1

  unfoldable pub watch_upstream : DynServiceDiscovery → UpstreamConfig → Shared Net → Shared Net
  watch_upstream d (static url) s = s
  watch_upstream d (service name via) s = watch_name d name s
  watch_upstream d (load_balance endpoints strategy) s = s

  -- The loop over the routes.
  unfoldable pub watch_routes : DynServiceDiscovery → List RouteConfig → Shared Net → Shared Net
  watch_routes d [] s = s
  watch_routes d (route ∷ routes) s = watch_routes d routes (watch_upstream d route.upstream s)

  unfoldable pub start_discovery : List RouteConfig → DiscoveryConfig → Build DynServiceDiscovery
  unfolding open_discovery watch_upstream watch_name
  start_discovery routes config = do
    d ← try (open_discovery config)
    modify (watch_routes d routes)
    pure d

  abbrev pub attach : {R : Type 0} → Option DynServiceDiscovery → Router R → Router R
  attach none router = router
  attach (some d) router = with_discovery router

  unfoldable pub build_auth : AuthConfig → Build (AuthLayer L.jwt.DecodingKey)
  build_auth config = pure (Auth.new L.jwt config)

  unfoldable pub build_rate_limit : RateLimitConfig → Build (RateLimitLayer × L.limiter.State)
  build_rate_limit c =
      pure (RateLimit.new L.limiter c.requests_per_second c.burst_size c.key_strategy)

  unfoldable pub build_cors : CorsConfig → Build CorsLayer
  build_cors c = pure (
      Cors.new c.allow_origins c.allow_methods c.allow_headers c.allow_credentials c.max_age
        c.expose_headers)

  -- `ProxyClient::new` and `ProxyClient::with_pool`, which panic where no client can be built.
  unfoldable pub default_client : Build HttpPool
  default_client = unwrap (build_pool 100 60)

  unfoldable pub with_pool : (max_idle idle_secs : ℕ) → Build HttpPool
  with_pool max_idle idle_secs = unwrap (build_pool max_idle idle_secs)

  unfoldable pub pooled_client : Option PoolConfig → Build HttpPool
  unfolding default_client with_pool
  pooled_client none = default_client
  pooled_client (some c) =
      if c.enabled then with_pool c.max_connections c.idle_timeout_secs else default_client

  -- `MetricsExporter::new`, which panics where no recorder can be installed.
  unfoldable pub build_metrics : MetricsConfig → Build Recorder
  build_metrics c = unwrap install_recorder

  -- `Gateway::new`
  unfoldable pub new : GatewayConfig → Build (Assembly L)
  unfolding optionally start_discovery build_auth build_rate_limit build_cors pooled_client
      build_metrics
  new config = do
    router ← try (Router.new L.regex config.routes)
    discovery ← optionally (λ c. c.enabled) (start_discovery config.routes) config.discovery
    tls ← optionally (λ c. c.enabled) (λ c. try (create_tls_acceptor L.tls c)) config.tls
    auth ← optionally (λ c. c.enabled) build_auth config.auth
    rate_limit ← optionally (λ c. c.enabled) build_rate_limit config.rate_limit
    cors ← optionally (λ c. c.enabled) build_cors config.cors
    cache ← optionally (λ c. c.enabled) (λ c. try (Backend.new L.moka L.redis c)) config.cache
    client ← pooled_client config.pool
    metrics ← optionally (λ c. c.enabled) build_metrics config.metrics
    pure (record {
      config = config;
      router = attach discovery router;
      proxy_client = client;
      metrics = metrics;
      tls_acceptor = tls;
      auth_layer = auth;
      rate_limit_layer = rate_limit;
      cors_layer = cors;
      cache_layer = cache;
    })

  -- The section by which `Gateway::run` starts the metrics server, if it starts one.
  unfoldable pub metrics_server : Assembly L → Option MetricsConfig
  metrics_server g = elim g.metrics [ none ↦ none | some m ↦ g.config.metrics ]
