-- ===== src/Platform.antt =====
-- What the gateway runs on: the libraries that it uses, the backends behind its interfaces, and the
-- state that a request changes.
use mathlib.Core.List.{reverse}
use mini_api_gateway.Common.{ℕ, List, ◌++◌, Text}
use mini_api_gateway.Http.{Http}
use mini_api_gateway.Client.{HttpClient, ProxyRequest}
use mini_api_gateway.Router.Regex.{RegexLib}
use mini_api_gateway.Discovery.{ServiceDiscovery}
use mini_api_gateway.Auth.{JwtLib}
use mini_api_gateway.RateLimit.{Limiter}
use mini_api_gateway.Cache.{CacheBackendTrait}
use mini_api_gateway.Metrics.{Metric}

-- `lossy` is `String::from_utf8_lossy`.
pub record Platform : Type 1 where
  pub http : Http
  pub client : HttpClient http.HeaderMap
  pub regex : RegexLib
  pub discovery : ServiceDiscovery
  pub jwt : JwtLib
  pub limiter : Limiter
  pub cache : CacheBackendTrait
  pub lossy : Text → Text

-- The shared states of the rate limiter, the cache, the service discovery and the network, and the
-- trace of what the gateway did, newest first.
pub record World (p : Platform) : Type 0 where
  pub limiter : p.limiter.State
  pub cache : p.cache.Store
  pub discovery : p.discovery.State
  pub net : p.client.Net
  -- The requests that were sent to upstream servers.
  pub sent : List (ProxyRequest p.http.HeaderMap)
  -- The milliseconds that were slept between tries.
  pub slept : List ℕ
  -- The calls of the metrics library.
  pub metrics : List Metric

-- The metrics calls of one method, made in order.
abbrev pub note : {p : Platform} → List Metric → World p → World p
note calls w = record w { metrics = reverse calls ++ w.metrics }
