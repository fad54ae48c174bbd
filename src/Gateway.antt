-- ===== src/Gateway.antt =====
-- src/gateway.rs: how a request passes through the layers of the gateway.
pub mod Stages
pub mod Access
pub mod Quiet
pub mod Replies
pub mod Answers
pub mod Build
pub mod Logs
pub mod Observed
pub mod Services
pub mod Preflights
pub mod Deploy
pub mod Serving
pub mod Safety
use mini_api_gateway.Common.{
  Bool, true, false, not, ◌&&◌, Option, none, some, List, [], ◌∷◌, ◌++◌, is_empty, if◌then◌else◌,
  Text, text, text_eq, decimal, Result, ok, err, Flow, next, stop, panic, Run, ◌>>=◌, ◌>>◌, pure,
  unwrap, modify,
}
use mini_api_gateway.Config.{CacheConfig}
use mini_api_gateway.Error.{GatewayError, status_code}
use mini_api_gateway.Error
use mini_api_gateway.Http.{Request, Response}
use mini_api_gateway.Router.{Router, RouteMatch, match_route}
use mini_api_gateway.Cors.{
  CorsLayer, is_origin_allowed, build_preflight_response, add_cors_headers, origin_of,
}
use mini_api_gateway.Auth.{
  AuthLayer, AuthError, Claims, is_excluded_path, extract_token, validate_jwt, unauthorized,
}
use mini_api_gateway.Auth
use mini_api_gateway.RateLimit.{RateLimitLayer, request_key, too_many_requests}
use mini_api_gateway.Cache.{CachedResponse}
use mini_api_gateway.Cache
use mini_api_gateway.Metrics.{
  RequestMetrics, record_auth_failure, record_rate_limited, record_cache_hit,
}
use mini_api_gateway.Metrics
use mini_api_gateway.Platform.{Platform, World, note}
use mini_api_gateway.Proxy.{forward}

-- The layers that are configured. `cache_layer` is the configuration that the layer keeps beside its
-- backend, which is the platform's.
pub record Gateway (p : Platform) : Type 0 where
  pub request_id_header : Option Text
  pub router : Router p.regex.Regex
  pub auth_layer : Option (AuthLayer p.jwt.DecodingKey)
  pub rate_limit_layer : Option RateLimitLayer
  pub cors_layer : Option CorsLayer
  pub cache_layer : Option CacheConfig

-- The text of a JSON error body.
unfoldable pub error_body : GatewayError → Text
error_body e =
    text "{\"error\":\""
    ++ (decimal (status_code e) ++ (text "\",\"message\":\"" ++ (Error.display e ++ text "\"}")))

unfoldable pub not_found_body : Text
not_found_body = text "{\"error\":\"Not Found\",\"message\":\"No route matches the request\"}"

module _ (p : Platform) where
  open p use {http, lossy}
  open p.http use {HeaderMap, Builder, insert, from_str, valid_name, status, header, body}

  abbrev pub Handler : Type 0 → Type 0
  Handler = Run (World p) (Response HeaderMap)

  -- The request ID, put on the request where the configured name and the value are valid.
  unfoldable pub add_request_id : Option Text → (id : Text) → Request HeaderMap → Request HeaderMap
  add_request_id none id req = req
  add_request_id (some name) id req =
      if valid_name name
      then elim (from_str id) [
        | none ↦ req
        | some v ↦ record req { headers = insert (req.headers) name v }
      ]
      else req

  -- `return Ok(response)`, where building the response may panic.
  unfoldable pub answer_with : {A : Type 0} → Option (Response HeaderMap) → Handler A
  answer_with none w = (panic, w)
  answer_with (some r) w = (stop r, w)

  unfoldable pub not_found : Option (Response HeaderMap)
  not_found =
      body (header (status 404) (text "Content-Type") (text "application/json")) not_found_body

  unfoldable pub cors_stage : Option CorsLayer → Request HeaderMap → Handler (Unit {0})
  cors_stage none req = pure tt
  cors_stage (some cors) req =
      let origin = origin_of http req.headers in
      if text_eq req.method (text "OPTIONS") && is_origin_allowed cors origin
      then answer_with (build_preflight_response http cors origin)
      else pure tt

  unfoldable pub refuse : RequestMetrics → Text → Handler (Request HeaderMap)
  refuse m message =
      modify (note (record_auth_failure m)) >> answer_with (unauthorized http message)

  -- The user's name is put on the request where it can stand in a header.
  unfoldable pub with_user : Request HeaderMap → Claims → Request HeaderMap
  with_user req claims = elim (from_str claims.sub) [
    | none ↦ req
    | some v ↦ record req { headers = insert (req.headers) (text "x-user-id") v }
  ]

  unfoldable pub check_claims :
      RequestMetrics → Request HeaderMap → Result AuthError Claims → Handler (Request HeaderMap)
  check_claims m req (ok claims) = pure (with_user req claims)
  check_claims m req (err e) = refuse m (Auth.display e)

  unfoldable pub check_token :
      AuthLayer p.jwt.DecodingKey
      → RequestMetrics
      → Request HeaderMap
      → Option Text
      → Handler (Request HeaderMap)
  check_token auth m req none = refuse m (text "Missing or invalid token")
  check_token auth m req (some token) = check_claims m req (validate_jwt p.jwt auth token)

  unfoldable pub auth_stage :
      Option (AuthLayer p.jwt.DecodingKey)
      → RequestMetrics
      → Request HeaderMap
      → Handler (Request HeaderMap)
  auth_stage none m req = pure req
  auth_stage (some auth) m req =
      if auth.config.enabled && not (is_excluded_path auth req.path)
      then check_token auth m req (extract_token http req)
      else pure req

  unfoldable pub admitted : RequestMetrics → Bool → Handler (Unit {0})
  admitted m true = pure tt
  admitted m false = modify (note (record_rate_limited m)) >> answer_with (too_many_requests http)

  unfoldable pub rate_limit_stage :
      Option RateLimitLayer → RequestMetrics → Request HeaderMap → Handler (Unit {0})
  rate_limit_stage none m req w = (next tt, w)
  rate_limit_stage (some layer) m req w =
      let (granted, s') =
        p.limiter.check_key w.limiter (request_key http layer.key_strategy req.headers) in
      admitted m granted (record w { limiter = s' })

  -- The headers of a cached response, one by one.
  unfoldable pub cached_headers : List (Text × Text) → Builder → Builder
  cached_headers [] b = b
  cached_headers ((name, value) ∷ hs) b = cached_headers hs (header b name value)

  unfoldable pub cached_response : CachedResponse → Option (Response HeaderMap)
  cached_response c =
      body (header (cached_headers c.headers (status c.status)) (text "X-Cache") (text "HIT"))
        c.body

  unfoldable pub serve_cached :
      RequestMetrics → Result GatewayError (Option CachedResponse) → Handler (Unit {0})
  serve_cached m (err e) = pure tt
  serve_cached m (ok none) = pure tt
  serve_cached m (ok (some cached)) =
      modify (note (record_cache_hit m)) >> answer_with (cached_response cached)

  unfoldable pub look_up : CacheConfig → RequestMetrics → Request HeaderMap → Handler (Unit {0})
  look_up config m req w =
      let (found, s') = p.cache.get w.cache (Cache.build_key http lossy config.key_strategy req) in
      serve_cached m found (record w { cache = s' })

  unfoldable pub cache_stage :
      Option CacheConfig → RouteMatch → RequestMetrics → Request HeaderMap → Handler (Unit {0})
  cache_stage none route m req = pure tt
  cache_stage (some config) route m req =
      if route.cache_enabled && text_eq req.method (text "GET")
      then look_up config m req
      else pure tt

  unfoldable pub error_response : GatewayError → Option (Response HeaderMap)
  error_response e =
      body (header (status (status_code e)) (text "Content-Type") (text "application/json"))
        (error_body e)

  -- The CORS headers of an upstream's response, by the Origin that the response names.
  unfoldable pub decorate : Option CorsLayer → Response HeaderMap → Handler (Response HeaderMap)
  decorate none r = pure r
  decorate (some cors) r =
      let origin = origin_of http r.headers in
      if not (is_empty origin) && is_origin_allowed cors origin
      then unwrap (add_cors_headers http cors r origin)
      else pure r

  -- What becomes of the proxy's result.
  unfoldable pub proxied :
      Option CorsLayer → Flow GatewayError (Response HeaderMap) → Handler (Response HeaderMap)
  unfolding decorate
  proxied cors (next r) w = decorate cors r w
  proxied cors (stop e) w = unwrap (error_response e) w
  proxied cors panic w = (panic, w)

  unfoldable pub proxy_stage :
      Option CorsLayer
      → RouteMatch
      → RequestMetrics
      → Request HeaderMap
      → Handler (Response HeaderMap)
  unfolding proxied
  proxy_stage cors route m req w = let (f, w') = forward p route m req w in proxied cors f w'

  -- The request after its route is known.
  unfoldable pub routed : Gateway p → RouteMatch → Request HeaderMap → Handler (Response HeaderMap)
  routed gateway route req =
      let m = Metrics.new req.method req.path route.route_id in
      do
        cors_stage gateway.cors_layer req
        req' ← auth_stage gateway.auth_layer m req
        rate_limit_stage gateway.rate_limit_layer m req'
        cache_stage gateway.cache_layer route m req'
        proxy_stage gateway.cors_layer route m req'

  unfoldable pub handle_routed :
      Gateway p → Request HeaderMap → Option RouteMatch → Handler (Response HeaderMap)
  unfolding routed
  handle_routed gateway req none = answer_with not_found
  handle_routed gateway req (some route) = routed gateway route req

  -- `handle_request`: an answer is what it goes on with or returns early with. `id` is the new
  -- request ID.
  unfoldable pub handle_request :
      Gateway p → (id : Text) → Request HeaderMap → Handler (Response HeaderMap)
  unfolding handle_routed
  handle_request gateway id req w =
      let req' = add_request_id gateway.request_id_header id req in
      let (route, s') = match_route p.discovery p.regex gateway.router w.discovery req' in
      handle_routed gateway req' route (record w { discovery = s' })
