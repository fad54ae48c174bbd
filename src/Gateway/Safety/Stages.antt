-- ===== src/Gateway/Safety/Stages.antt =====
-- The stages of the gateway that do not panic, where the CORS headers can be built.
use mini_api_gateway.Common.{
  ◌≡◌, Bool, true, false, not, ◌&&◌, Option, none, some, is_empty, Text, text, text_eq, Result, ok,
  err, Flow, next, stop, panic, pure, unwrap,
}
use mini_api_gateway.Error.{GatewayError}
use mini_api_gateway.Config.{CacheConfig}
use mini_api_gateway.Http.{Request, Response}
use mini_api_gateway.Router.{RouteMatch}
use mini_api_gateway.Cors.{CorsLayer, is_origin_allowed, origin_of}
use mini_api_gateway.Cors.Headers.{
  IsServable, build_preflight_response-fields, add_cors_headers-Decorates,
}
use mini_api_gateway.Cors.Laws.{origin_of-visible}
use mini_api_gateway.Auth.{AuthLayer, AuthError, Claims, is_excluded_path, extract_token}
use mini_api_gateway.Auth
use mini_api_gateway.RateLimit.{RateLimitLayer, request_key}
use mini_api_gateway.Metrics.{RequestMetrics, record_auth_failure, record_rate_limited}
use mini_api_gateway.Platform.{Platform, World, note}
use mini_api_gateway.Gateway.{
  answer_with, cors_stage, refuse, check_claims, check_token, auth_stage, admitted,
  rate_limit_stage, look_up, cache_stage, decorate, proxied,
}
use mini_api_gateway.Gateway.Stages.{unauthorized-Says, too_many_requests-Says, error_response-Says}
use mini_api_gateway.Gateway.Serving.Kept.{Keeps}
use mini_api_gateway.Gateway.Safety.{IsSafe, Safe, if-Safe}

-- The lists of the layer, if there is one, can stand in a header.
abbrev pub CorsIsServable : Option CorsLayer → Type 0
CorsIsServable none = Unit {0}
CorsIsServable (some cors) = IsServable cors

module _ (p : Platform) (P : World p → Type 0) where
  open p.http use {HeaderMap}

  pub answer_with-Safe :
      (A : Type 0) (o : Option (Response HeaderMap)) {r : Response HeaderMap}
      → o ≡ some r
      → Safe p P {A = A} (answer_with p o)
  unfolding answer_with
  answer_with-Safe A none e w h = cc
  answer_with-Safe A (some r) e w h = h

module _ (p : Platform) (P : World p → Type 0) (keeps : Keeps p P) where
  open p use {http}
  open p.http use {HeaderMap}

  unwrap-Safe :
      (R : Type 0) {A : Type 0} (o : Option A) {a : A} → o ≡ some a → Safe p P {R = R} (unwrap o)
  unwrap-Safe R none e w h = cc
  unwrap-Safe R (some a) e w h = h

  pub cors_stage-Safe :
      (cors : Option CorsLayer) (req : Request HeaderMap)
      → CorsIsServable cors
      → Safe p P (cors_stage p cors req)
  unfolding cors_stage
  cors_stage-Safe none req v = λ w h. h
  cors_stage-Safe (some cors) req v =
      let origin = origin_of p.http req.headers in
      let built =
        build_preflight_response-fields p.http cors origin v
          (origin_of-visible p.http req.headers) in
      if-Safe p P (text_eq req.method (text "OPTIONS") && is_origin_allowed cors origin) _ _
        (λ e. answer_with-Safe p P (Unit {0}) _ built) (λ w h. h)

  refuse-Safe : (m : RequestMetrics) (e : Text) → Safe p P (refuse p m e)
  unfolding refuse
  refuse-Safe m e w h =
      let (r, built, says) = unauthorized-Says p.http e in
      answer_with-Safe p P (Request HeaderMap) _ built (note (record_auth_failure m) w)
        (keeps.auth_failure m w h)

  check_claims-Safe :
      (m : RequestMetrics) (req : Request HeaderMap) (c : Result AuthError Claims)
      → Safe p P (check_claims p m req c)
  unfolding check_claims
  check_claims-Safe m req (ok claims) = λ w h. h
  check_claims-Safe m req (err e) = refuse-Safe m (Auth.display e)

  check_token-Safe :
      (auth : AuthLayer p.jwt.DecodingKey) (m : RequestMetrics) (req : Request HeaderMap)
      (t : Option Text)
      → Safe p P (check_token p auth m req t)
  unfolding check_token
  check_token-Safe auth m req none = refuse-Safe m _
  check_token-Safe auth m req (some t) = check_claims-Safe m req _

  pub auth_stage-Safe :
      (auth : Option (AuthLayer p.jwt.DecodingKey)) (m : RequestMetrics) (req : Request HeaderMap)
      → Safe p P (auth_stage p auth m req)
  unfolding auth_stage
  auth_stage-Safe none m req = λ w h. h
  auth_stage-Safe (some auth) m req =
      if-Safe p P (auth.config.enabled && not (is_excluded_path auth req.path))
        (check_token p auth m req (extract_token p.http req)) (pure req)
        (λ e. check_token-Safe auth m req (extract_token p.http req)) (λ w h. h)

  admitted-Safe : (m : RequestMetrics) (b : Bool) → Safe p P (admitted p m b)
  unfolding admitted
  admitted-Safe m true w h = h
  admitted-Safe m false w h =
      let (r, built, says) = too_many_requests-Says p.http in
      answer_with-Safe p P (Unit {0}) _ built (note (record_rate_limited m) w)
        (keeps.rate_limited m w h)

  pub rate_limit_stage-Safe :
      (layer : Option RateLimitLayer) (m : RequestMetrics) (req : Request HeaderMap)
      → Safe p P (rate_limit_stage p layer m req)
  unfolding rate_limit_stage
  rate_limit_stage-Safe none m req w h = h
  rate_limit_stage-Safe (some layer) m req w h =
      let (granted, s') =
        p.limiter.check_key w.limiter (request_key p.http layer.key_strategy req.headers) in
      admitted-Safe m granted (record w { limiter = s' }) (keeps.limiter w s' h)

  pub cache_stage-Safe :
      (config : Option CacheConfig) (route : RouteMatch) (m : RequestMetrics)
      (req : Request HeaderMap)
      → ((c : CacheConfig) → Safe p P (look_up p c m req))
      → Safe p P (cache_stage p config route m req)
  unfolding cache_stage
  cache_stage-Safe none route m req looks = λ w h. h
  cache_stage-Safe (some config) route m req looks =
      if-Safe p P (route.cache_enabled && text_eq req.method (text "GET")) (look_up p config m req)
        (pure tt) (λ e. looks config) (λ w h. h)

  decorate-Safe :
      (cors : Option CorsLayer) (r : Response HeaderMap)
      → CorsIsServable cors
      → Safe p P (decorate p cors r)
  unfolding decorate
  decorate-Safe none r v = λ w h. h
  decorate-Safe (some cors) r v =
      let origin = origin_of p.http r.headers in
      let (s, built, d) =
        add_cors_headers-Decorates p.http cors r origin v (origin_of-visible p.http r.headers) in
      if-Safe p P (not (is_empty origin) && is_origin_allowed cors origin) _ _
        (λ e. unwrap-Safe (Response HeaderMap) _ built) (λ w h. h)

  pub proxied-Safe :
      (cors : Option CorsLayer) (f : Flow GatewayError (Response HeaderMap)) (w : World p)
      → CorsIsServable cors
      → IsSafe p P (f, w)
      → IsSafe p P (proxied p cors f w)
  unfolding proxied
  proxied-Safe cors (next r) w v h = decorate-Safe cors r v w h
  proxied-Safe cors (stop e) w v h =
      let (r, built, says, b) = error_response-Says p e in
      unwrap-Safe (Response HeaderMap) _ built w h
  proxied-Safe cors panic w v h = absurd h
