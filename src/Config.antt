-- ===== src/Config.antt =====
-- src/config.rs: the configuration records and enumerations. Sizes and durations are numbers; a
-- path of the file system is its text, and a socket address is its host and port.
pub mod Defaults
pub mod Loading
use mini_api_gateway.Common.{ℕ, Bool, Text, Option, List}

pub record SocketAddr : Type 0 where
  pub ip : Text
  pub port : ℕ

pub record ServerConfig : Type 0 where
  pub listen : SocketAddr
  pub workers : Option ℕ
  pub request_timeout_secs : ℕ
  pub keepalive_secs : ℕ
  pub max_body_size : ℕ

pub record ClientAuthConfig : Type 0 where
  pub enabled : Bool
  pub ca_path : Text

pub record TlsConfig : Type 0 where
  pub enabled : Bool
  pub cert_path : Text
  pub key_path : Text
  pub client_auth : Option ClientAuthConfig

pub data LoadBalanceStrategy : Type 0 where
  round_robin random least_connections ip_hash : LoadBalanceStrategy

pub data UpstreamConfig : Type 0 where
  static : (url : Text) → UpstreamConfig
  service : (name discovery : Text) → UpstreamConfig
  load_balance : (endpoints : List Text) → LoadBalanceStrategy → UpstreamConfig

pub record RetryConfig : Type 0 where
  pub max_attempts : ℕ
  pub backoff_ms : ℕ

pub record RouteConfig : Type 0 where
  pub id : Text
  pub path : Text
  pub methods : Option (List Text)
  pub upstream : UpstreamConfig
  pub strip_prefix : Option Text
  pub retry : Option RetryConfig
  pub timeout_ms : Option ℕ
  pub cache_enabled : Option Bool
  pub auth_required : Option Bool
  pub rate_limit_key : Option Text

pub data RateLimitKeyStrategy : Type 0 where
  global ip : RateLimitKeyStrategy
  header : Text → RateLimitKeyStrategy
  custom : Text → RateLimitKeyStrategy

pub record RateLimitConfig : Type 0 where
  pub enabled : Bool
  pub requests_per_second : ℕ
  pub burst_size : ℕ
  pub key_strategy : RateLimitKeyStrategy
  pub paths : Option (List Text)

pub record CorsConfig : Type 0 where
  pub enabled : Bool
  pub allow_origins : List Text
  pub allow_methods : List Text
  pub allow_headers : List Text
  pub allow_credentials : Bool
  pub max_age : Option ℕ
  pub expose_headers : Option (List Text)

pub data AuthProvider : Type 0 where
  jwt : (secret : Text) (issuer audience : Option Text) → AuthProvider
  oauth2 :
      (client_id client_secret token_url : Text) (authorize_url : Option Text)
      (scopes : Option (List Text))
      → AuthProvider

pub record AuthConfig : Type 0 where
  pub enabled : Bool
  pub provider : AuthProvider
  pub excluded_paths : List Text

pub data CacheBackend : Type 0 where
  memory : CacheBackend
  redis : (url : Text) → CacheBackend

pub data CacheKeyStrategy : Type 0 where
  uri uri_with_method : CacheKeyStrategy
  uri_with_headers : List Text → CacheKeyStrategy

pub record CacheConfig : Type 0 where
  pub enabled : Bool
  pub backend : CacheBackend
  pub default_ttl_secs : ℕ
  pub max_capacity : Option ℕ
  pub cacheable_methods : List Text
  pub cacheable_statuses : List ℕ
  pub key_strategy : CacheKeyStrategy
  pub excluded_paths : List Text

pub record MetricsConfig : Type 0 where
  pub enabled : Bool
  pub listen : SocketAddr
  pub endpoint : Text

pub data DiscoveryProvider : Type 0 where
  consul : (address : Text) (datacenter : Option Text) → DiscoveryProvider
  etcd : (endpoints : List Text) → DiscoveryProvider

pub record DiscoveryConfig : Type 0 where
  pub enabled : Bool
  pub provider : DiscoveryProvider
  pub refresh_interval_secs : ℕ

pub data LogFormat : Type 0 where
  json pretty compact : LogFormat

pub data LogOutput : Type 0 where
  stdout stderr : LogOutput
  file : (path : Text) (rotation : Option Text) → LogOutput

pub record LoggingConfig : Type 0 where
  pub level : Text
  pub format : LogFormat
  pub output : LogOutput
  pub request_id_header : Option Text

pub record PoolConfig : Type 0 where
  pub enabled : Bool
  pub max_connections : ℕ
  pub idle_timeout_secs : ℕ
  pub connection_timeout_ms : ℕ

pub record GatewayConfig : Type 0 where
  pub server : ServerConfig
  pub tls : Option TlsConfig
  pub routes : List RouteConfig
  pub rate_limit : Option RateLimitConfig
  pub cors : Option CorsConfig
  pub auth : Option AuthConfig
  pub cache : Option CacheConfig
  pub metrics : Option MetricsConfig
  pub discovery : Option DiscoveryConfig
  pub logging : LoggingConfig
  pub pool : Option PoolConfig
