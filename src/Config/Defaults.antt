-- ===== src/Config/Defaults.antt =====
-- src/config.rs and src/main.rs: the default configuration, the configuration of the demo routes,
-- and what `load` does to a configuration that was read. `cpus` is what `num_cpus::get` returns.
use mini_api_gateway.Common.{ℕ, ◌*◌, true, false, none, some, [], ◌∷◌, Text, List, text, Option}
use mini_api_gateway.Config.{
  SocketAddr, ServerConfig, CorsConfig, MetricsConfig, LoggingConfig, PoolConfig, RouteConfig,
  RateLimitConfig, CacheConfig, GatewayConfig, LogFormat, LogOutput, UpstreamConfig,
  RateLimitKeyStrategy, CacheBackend, CacheKeyStrategy,
}

abbrev any_host : ℕ → SocketAddr
any_host port = record { ip = text "0.0.0.0"; port = port }

abbrev common_methods : List Text
common_methods = text "GET" ∷ text "POST" ∷ text "PUT" ∷ text "DELETE" ∷ text "OPTIONS" ∷ []

abbrev open_cors : Option (List Text) → CorsConfig
open_cors expose = record {
  enabled = true;
  allow_origins = text "*" ∷ [];
  allow_methods = common_methods;
  allow_headers = text "*" ∷ [];
  allow_credentials = false;
  max_age = some 3600;
  expose_headers = expose;
}

abbrev default_metrics : MetricsConfig
default_metrics = record { enabled = true; listen = any_host 9090; endpoint = text "/metrics" }

abbrev default_logging : LoggingConfig
default_logging = record {
  level = text "info";
  format = LogFormat.json;
  output = LogOutput.stdout;
  request_id_header = some (text "x-request-id");
}

abbrev default_pool : PoolConfig
default_pool = record {
  enabled = true;
  max_connections = 100;
  idle_timeout_secs = 60;
  connection_timeout_ms = 5000;
}

abbrev default_server : Option ℕ → ServerConfig
default_server workers = record {
  listen = any_host 8080;
  workers = workers;
  request_timeout_secs = 30;
  keepalive_secs = 75;
  max_body_size = 10 * 1024 * 1024;
}

-- `GatewayConfig::default()`
unfoldable pub default : GatewayConfig
default = record {
  server = default_server none;
  tls = none;
  routes = [];
  rate_limit = none;
  cors = some (open_cors none);
  auth = none;
  cache = none;
  metrics = some default_metrics;
  discovery = none;
  logging = default_logging;
  pool = some default_pool;
}

abbrev pub filled : ℕ → GatewayConfig → (workers : Option ℕ) → GatewayConfig
filled cpus config none = record config { server = record (config.server) { workers = some cpus } }
filled cpus config (some n) = config

-- The end of `GatewayConfig::load`: the number of workers is filled in where it is missing.
unfoldable pub fill_workers : ℕ → GatewayConfig → GatewayConfig
fill_workers cpus config = filled cpus config config.server.workers

abbrev pub demo_api : RouteConfig
demo_api = record {
  id = text "api";
  path = text "/api/**";
  methods = none;
  upstream = UpstreamConfig.static (text "http://localhost:3000");
  strip_prefix = some (text "/api");
  retry = some (record { max_attempts = 3; backoff_ms = 100 });
  timeout_ms = some 30000;
  cache_enabled = some false;
  auth_required = some false;
  rate_limit_key = none;
}

abbrev pub demo_health : RouteConfig
demo_health = record {
  id = text "health";
  path = text "/health";
  methods = some (text "GET" ∷ []);
  upstream = UpstreamConfig.static (text "http://localhost:3000");
  strip_prefix = none;
  retry = none;
  timeout_ms = some 5000;
  cache_enabled = some false;
  auth_required = some false;
  rate_limit_key = none;
}

abbrev demo_rate_limit : RateLimitConfig
demo_rate_limit = record {
  enabled = true;
  requests_per_second = 100;
  burst_size = 200;
  key_strategy = RateLimitKeyStrategy.ip;
  paths = none;
}

abbrev pub demo_cache : CacheConfig
demo_cache = record {
  enabled = true;
  backend = CacheBackend.memory;
  default_ttl_secs = 300;
  max_capacity = some 10000;
  cacheable_methods = text "GET" ∷ [];
  cacheable_statuses = 200 ∷ 301 ∷ 404 ∷ [];
  key_strategy = CacheKeyStrategy.uri_with_method;
  excluded_paths = text "/api/auth/**" ∷ [];
}

-- `create_demo_config()`
unfoldable pub create_demo_config : ℕ → GatewayConfig
create_demo_config cpus = record {
  server = default_server (some cpus);
  tls = none;
  routes = demo_api ∷ demo_health ∷ [];
  rate_limit = some demo_rate_limit;
  cors = some (open_cors (some (text "X-Request-ID" ∷ [])));
  auth = none;
  cache = some demo_cache;
  metrics = some default_metrics;
  discovery = none;
  logging = default_logging;
  pool = some default_pool;
}
