-- ===== src/Gateway/Serving/Requests.antt =====
-- What handling a request keeps: a property of the world that each of its effects keeps.
use mini_api_gateway.Common.{
  Bool, true, false, Option, none, some, Text, Result, ok, err, Flow, next, stop, panic,
}
use mini_api_gateway.Error.{GatewayError}
use mini_api_gateway.Config.{CacheConfig}
use mini_api_gateway.Http.{Request, Response}
use mini_api_gateway.Router.{RouteMatch, match_route}
use mini_api_gateway.Cors.{CorsLayer}
use mini_api_gateway.Auth.{AuthLayer, AuthError, Claims}
use mini_api_gateway.Auth
use mini_api_gateway.RateLimit.{RateLimitLayer, request_key}
use mini_api_gateway.Metrics.{RequestMetrics, record_auth_failure, record_rate_limited}
use mini_api_gateway.Metrics
use mini_api_gateway.Platform.{Platform, World, note}
use mini_api_gateway.Proxy.{forward}
use mini_api_gateway.Gateway.{
  Gateway, add_request_id, answer_with, cors_stage, refuse, check_claims, check_token, auth_stage,
  admitted, rate_limit_stage, cache_stage, decorate, proxied, proxy_stage, routed, handle_routed,
  handle_request,
}
use mini_api_gateway.Gateway.Serving.Kept.{
  Keeps, Steady, >>=-Steady, if-Steady, unwrap-Steady, forward-Steady,
}

module _ (p : Platform) (P : World p → Type 0) (keeps : Keeps p P) where
  open p.http use {HeaderMap}

  answer_with-Steady :
      (A : Type 0) (o : Option (Response HeaderMap)) → Steady p P {A = A} (answer_with p o)
  unfolding answer_with
  answer_with-Steady A none w h = h
  answer_with-Steady A (some r) w h = h

  refuse-Steady : (m : RequestMetrics) (e : Text) → Steady p P (refuse p m e)
  unfolding refuse
  refuse-Steady m e w h =
      answer_with-Steady (Request HeaderMap) _ (note (record_auth_failure m) w)
        (keeps.auth_failure m w h)

  cors_stage-Steady :
      (cors : Option CorsLayer) (req : Request HeaderMap) → Steady p P (cors_stage p cors req)
  unfolding cors_stage
  cors_stage-Steady none req = λ w h. h
  cors_stage-Steady (some cors) req =
      if-Steady p P _ _ _ (answer_with-Steady (Unit {0}) _) (λ w h. h)

  check_claims-Steady :
      (m : RequestMetrics) (req : Request HeaderMap) (c : Result AuthError Claims)
      → Steady p P (check_claims p m req c)
  unfolding check_claims
  check_claims-Steady m req (ok claims) = λ w h. h
  check_claims-Steady m req (err e) = refuse-Steady m (Auth.display e)

  check_token-Steady :
      (auth : AuthLayer p.jwt.DecodingKey) (m : RequestMetrics) (req : Request HeaderMap)
      (t : Option Text)
      → Steady p P (check_token p auth m req t)
  unfolding check_token
  check_token-Steady auth m req none = refuse-Steady m _
  check_token-Steady auth m req (some t) = check_claims-Steady m req _

  auth_stage-Steady :
      (auth : Option (AuthLayer p.jwt.DecodingKey)) (m : RequestMetrics) (req : Request HeaderMap)
      → Steady p P (auth_stage p auth m req)
  unfolding auth_stage
  auth_stage-Steady none m req = λ w h. h
  auth_stage-Steady (some auth) m req =
      if-Steady p P _ _ _ (check_token-Steady auth m req _) (λ w h. h)

  admitted-Steady : (m : RequestMetrics) (b : Bool) → Steady p P (admitted p m b)
  unfolding admitted
  admitted-Steady m true w h = h
  admitted-Steady m false w h =
      answer_with-Steady (Unit {0}) _ (note (record_rate_limited m) w) (keeps.rate_limited m w h)

  rate_limit_stage-Steady :
      (layer : Option RateLimitLayer) (m : RequestMetrics) (req : Request HeaderMap)
      → Steady p P (rate_limit_stage p layer m req)
  unfolding rate_limit_stage
  rate_limit_stage-Steady none m req w h = h
  rate_limit_stage-Steady (some layer) m req w h =
      let (granted, s') =
        p.limiter.check_key w.limiter (request_key p.http layer.key_strategy req.headers) in
      admitted-Steady m granted (record w { limiter = s' }) (keeps.limiter w s' h)

  cache_stage-Steady :
      (config : Option CacheConfig) (route : RouteMatch) (m : RequestMetrics)
      (req : Request HeaderMap)
      → Steady p P (cache_stage p config route m req)
  unfolding cache_stage
  cache_stage-Steady none route m req = λ w h. h
  cache_stage-Steady (some config) route m req =
      if-Steady p P _ _ _ (keeps.look_up config m req) (λ w h. h)

  decorate-Steady :
      (cors : Option CorsLayer) (r : Response HeaderMap) → Steady p P (decorate p cors r)
  unfolding decorate
  decorate-Steady none r = λ w h. h
  decorate-Steady (some cors) r =
      if-Steady p P _ _ _ (unwrap-Steady p P (Response HeaderMap) _) (λ w h. h)

  proxied-Steady :
      (cors : Option CorsLayer) (f : Flow GatewayError (Response HeaderMap))
      → Steady p P (proxied p cors f)
  unfolding proxied
  proxied-Steady cors (next r) = decorate-Steady cors r
  proxied-Steady cors (stop e) = unwrap-Steady p P (Response HeaderMap) _
  proxied-Steady cors panic = λ w h. h

  proxy_stage-Steady :
      (cors : Option CorsLayer) (route : RouteMatch) (m : RequestMetrics) (req : Request HeaderMap)
      → Steady p P (proxy_stage p cors route m req)
  unfolding proxy_stage
  proxy_stage-Steady cors route m req w h =
      let (f, w') = forward p route m req w in
      proxied-Steady cors f w' (forward-Steady p P keeps route m req w h)

  routed-Steady :
      (gateway : Gateway p) (route : RouteMatch) (req : Request HeaderMap)
      → Steady p P (routed p gateway route req)
  unfolding routed
  routed-Steady gateway route req =
      let m = Metrics.new req.method req.path route.route_id in
      >>=-Steady p P (cors_stage p gateway.cors_layer req) _
        (cors_stage-Steady gateway.cors_layer req)
        λ u.
          >>=-Steady p P (auth_stage p gateway.auth_layer m req) _
            (auth_stage-Steady gateway.auth_layer m req)
            λ req'.
              >>=-Steady p P (rate_limit_stage p gateway.rate_limit_layer m req') _
                (rate_limit_stage-Steady gateway.rate_limit_layer m req')
                λ u.
                  >>=-Steady p P (cache_stage p gateway.cache_layer route m req') _
                    (cache_stage-Steady gateway.cache_layer route m req')
                    λ u. proxy_stage-Steady gateway.cors_layer route m req'

  handle_routed-Steady :
      (gateway : Gateway p) (req : Request HeaderMap) (route : Option RouteMatch)
      → Steady p P (handle_routed p gateway req route)
  unfolding handle_routed
  handle_routed-Steady gateway req none = answer_with-Steady (Response HeaderMap) _
  handle_routed-Steady gateway req (some route) = routed-Steady gateway route req

  pub handle_request-Steady :
      (gateway : Gateway p) (id : Text) (req : Request HeaderMap)
      → Steady p P (handle_request p gateway id req)
  unfolding handle_request
  handle_request-Steady gateway id req w h =
      let req' = add_request_id p gateway.request_id_header id req in
      let (route, s') = match_route p.discovery p.regex gateway.router w.discovery req' in
      handle_routed-Steady gateway req' route (record w { discovery = s' })
        (keeps.discovery gateway.router req' w h)
