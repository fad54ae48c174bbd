-- ===== src/Lib.antt =====
-- Verification of the mini API gateway: an HTTP gateway that routes a request, guards it by CORS,
-- authentication and a rate limit, answers it from a cache, or forwards it to an upstream server
-- with retries.
--
-- The parts and how they interact. `Gateway::handle_request` (src/gateway.rs) puts a request ID on a
-- request, asks the router (src/router.rs) for a match, and passes the request through its stages in
-- order: the CORS preflight, the authentication, the rate limit, the cache, and the proxy
-- (src/proxy.rs). Each stage can end the request with a response. The same checks exist as tower
-- services around any inner service (src/middleware). Every stage notes calls of the metrics
-- library (src/metrics.rs). The router asks a discovery for the upstream of a service, which is
-- Consul (src/discovery/consul.rs) or etcd (src/discovery/etcd.rs) and has background tasks that
-- refresh its table. `Gateway::new` builds the parts that the configuration enables, TLS (src/tls.rs)
-- and the backend of the cache (src/cache) among them, and `Gateway::run` serves each connection in
-- a task of its own. The connection pool (src/pool.rs), the choice of an endpoint
-- (`select_endpoint`) and the services for caching, logging and metrics stand beside, and are called
-- by none of these.
--
-- Which file models which part. A file of this library holds the definitions of a part, and its
-- child modules hold what is proved of them.
--   Common    texts, lists, tests and the control flow of handlers: `Result` for `?`, and `Flow` for
--             code that goes on, returns early or panics, with a state that is passed along
--   Config    the records of src/config.rs; Config/Defaults their default and the demo configuration
--             of src/main.rs, Config/Loading `load` and `from_yaml`
--   Error     src/error.rs
--   Http      the `http` crate as an interface; Http/Fields tables of header fields
--   Client, Platform
--             the `reqwest` client, and all that the gateway runs on, with the state `World` that a
--             request changes: limiter, cache, discovery, network, and the trace of the requests
--             sent, the pauses and the metrics calls
--   Discovery src/discovery/mod.rs; Discovery/Shared the table and the client that both discoveries
--             have, Discovery/Steps what callers, background tasks and the network can do, as a step
--             relation. Discovery/Consul src/discovery/consul.rs, with Health its endpoints, Reach its
--             reachable states, Routing the router beside it, and Tasks calls and rounds that
--             overlap, with Overlap and Stale what they bring about; Discovery/Etcd
--             src/discovery/etcd.rs, with Range the range of keys, Values what is registered, and
--             Reach its reachable states
--   Router    src/router.rs, over the `regex` crate (Router/Regex); Router/Globs the meaning of a
--             route's path, Router/Entries building a router, Router/Matching its answers
--   Cors      src/middleware/cors.rs; Cors/Headers the tables of CORS headers, Cors/Laws the service
--   Auth      src/middleware/auth.rs over the `jsonwebtoken` crate; Auth/Tokens the token of a
--             request, Auth/Exclusion the excluded paths, Auth/Laws the service
--   RateLimit src/middleware/rate_limit.rs over the `governor` crate
--   Metrics   src/metrics.rs, as lists of calls; Metrics/Descriptions the registered descriptions,
--             Metrics/Server the metrics server as events, with Connections what one is answered
--   Cache     src/cache/mod.rs; Cache/Keys the keys, Cache/Rules what is cached,
--             Cache/Backend the choice of the backend, Cache/Memory src/cache/memory.rs over the
--             `moka` crate, Cache/Redis src/cache/redis.rs over the `redis` and `serde_json` crates
--             with Commands one command and Histories any history of calls, Cache/Service
--             src/middleware/cache.rs with Laws hits and misses
--   Tls       src/tls.rs over the `rustls` crates; Tls/Laws what an acceptor offers
--   Middleware
--             src/middleware/logging.rs in Logging and src/middleware/metrics.rs in Recording
--   Proxy     src/proxy.rs; Proxy/Headers, Proxy/Retry, Proxy/Target, Proxy/Forward and Proxy/Balance
--             what is proved of the headers, the retries, the upstream's URL, the whole of `proxy`
--             and the choice of an endpoint
--   Pool      src/pool.rs; Pool/Bodies its utilities for bodies, Pool/Laws and Pool/Reuse one call, Pool/Histories any
--             history of calls
--   Gateway   `handle_request` of src/gateway.rs; Gateway/Stages the built responses, Gateway/Quiet
--             and Gateway/Answers the early answers, Gateway/Access who gets past the stages,
--             Gateway/Replies what becomes of the proxy's result, Gateway/Logs the line that a
--             request leaves in the log, Gateway/Services and Gateway/Preflights the stages beside
--             the services for tokens and for preflight requests. Gateway/Build `Gateway::new`,
--             with Stages what each stage of it leaves as it was and Parts what is built.
--             Gateway/Serving `Gateway::run` and `serve_connection` as events, with Kept and
--             Requests what a request keeps, Gauge the gauge of the connections, Hits the answers
--             from the cache, Listening when the loop goes on, and Histories any history of
--             connections. Gateway/Safety what cannot panic, with Routes the pauses of a route,
--             Forwarding the proxy, Stages the stages, Requests and Histories one request and any
--             history, and Built the gateway that is built. Gateway/Observed the gateway with its
--             metrics server. Gateway/Deploy the gateway that was built as the tasks use it, with
--             the cache behind `dyn CacheBackendTrait` (src/cache/mod.rs)
--   Startup   `main` of src/main.rs, from what the process finds to how it ends; Startup/Loaded the
--             process whose gateway is built, Startup/Demo the one that finds no configuration file
--   Tests     examples on small implementations of the libraries
--
-- State and panics. The state of a middleware is the wrapped service's, and for the rate limit also
-- the limiter's. An `unwrap` that can fail is the end `panic` of a `Flow`, or `none`. Texts are lists
-- of bytes; headers are compared without regard to case, as the `http` crate does.
--
-- Bounds and fuel. `execute_with_retry` counts rounds down from `max_attempts`, the number of
-- rounds of the source's loop, so that no round is cut off. The back-off's product panics where its
-- seconds pass 64 bits. The counter of the round robin wraps at 2^64. All other loops are recursion
-- on a list.
--
-- Concurrency. The background tasks of a discovery interleave with its callers, and the tasks of
-- the connections with each other: an order of whole steps is one round, one call or one request. The
-- calls and the rounds of the Consul discovery are also split where they await (Consul/Tasks); two
-- requests that overlap are not.
--
-- Libraries. `Http`, `RegexLib`, `HttpClient`, `QueryClient`, `EtcdCodec`, `JwtLib`, `Limiter`, `Moka`,
-- `RedisLib`, `TlsLib`, `ConfigLib` and `Collector` are records of the calls that the source makes,
-- with the documented behaviour that the theorems use as named laws; `Libraries` is what a gateway is built on.
--
-- Not modelled: the HTTP/1 connections themselves, the recorder of the metrics, the set-up of
-- logging and the logs but for the lines of completed requests, which are input and output, the
-- resolution of addresses, and the time that a request takes.
pub mod Common
pub mod Config
pub mod Error
pub mod Http
pub mod Discovery
pub mod Router
pub mod Cors
pub mod Auth
pub mod RateLimit
pub mod Metrics
pub mod Cache
pub mod Platform
pub mod Proxy
pub mod Client
pub mod Gateway
pub mod Pool
pub mod Tls
pub mod Startup
pub mod Middleware
pub mod Tests
