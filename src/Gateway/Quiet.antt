-- ===== src/Gateway/Quiet.antt =====
-- No stage before the proxy touches the network.
use mini_api_gateway.Common.{
  ◌≡◌, refl, ◌∙◌, inl, inr, Bool, true, false, not, ◌&&◌, Option, none, some, Text, text, text_eq,
  Result, ok, err, Bool-cases,
}
use mini_api_gateway.Error.{GatewayError}
use mini_api_gateway.Config.{CacheConfig}
use mini_api_gateway.Http.{Request, Response}
use mini_api_gateway.Router.{RouteMatch}
use mini_api_gateway.Cors.{CorsLayer, origin_of, is_origin_allowed}
use mini_api_gateway.Auth.{AuthLayer, AuthError, Claims, is_excluded_path, unauthorized}
use mini_api_gateway.Auth
use mini_api_gateway.RateLimit.{RateLimitLayer, request_key, too_many_requests}
use mini_api_gateway.Cache.{CachedResponse}
use mini_api_gateway.Cache
use mini_api_gateway.Metrics.{
  RequestMetrics, record_auth_failure, record_rate_limited, record_cache_hit,
}
use mini_api_gateway.Platform.{Platform, World, note}
use mini_api_gateway.Gateway.{
  Handler, answer_with, cors_stage, refuse, check_claims, check_token, auth_stage, admitted,
  rate_limit_stage, serve_cached, cached_response, look_up, cache_stage,
}

module _ (p : Platform) where
  open p use {http}
  open p.http use {HeaderMap}

  -- Nothing was sent and nobody slept.
  pub record SameNet (w w' : World p) : Type 0 where
    pub sent : w'.sent ≡ w.sent
    pub net : w'.net ≡ w.net
    pub slept : w'.slept ≡ w.slept

  pub SameNet-trans : {a b c : World p} → SameNet a b → SameNet b c → SameNet a c
  SameNet-trans f g = record {
    sent = g.sent ∙ f.sent;
    net = g.net ∙ f.net;
    slept = g.slept ∙ f.slept;
  }

  abbrev pub Quiet : {A : Type 0} → Handler p A → Type 0
  Quiet m = (w : World p) → SameNet w (m w).1

  pub same : {w : World p} → SameNet w w
  same = record { sent = refl; net = refl; slept = refl }

  answer_with-Quiet :
      (A : Type 0) (o : Option (Response HeaderMap)) → Quiet {A = A} (answer_with p o)
  unfolding answer_with
  answer_with-Quiet A none w = same
  answer_with-Quiet A (some r) w = same

  refuse-Quiet : (m : RequestMetrics) (e : Text) → Quiet (refuse p m e)
  unfolding refuse
  refuse-Quiet m e w =
      let q =
        answer_with-Quiet (Request HeaderMap) (unauthorized p.http e)
          (note (record_auth_failure m) w) in
      record { sent = q.sent; net = q.net; slept = q.slept }

  pub cors_stage-Quiet :
      (cors : Option CorsLayer) (req : Request HeaderMap) → Quiet (cors_stage p cors req)
  unfolding cors_stage
  cors_stage-Quiet none req w = same
  cors_stage-Quiet (some cors) req w =
      elim (Bool-cases (
        text_eq req.method (text "OPTIONS")
        && is_origin_allowed cors (origin_of p.http req.headers))) [
          | inl y ↦ rw y (answer_with-Quiet (Unit {0}) _ w)
          | inr n ↦ rw n same
        ]

  check_claims-Quiet :
      (m : RequestMetrics) (req : Request HeaderMap) (c : Result AuthError Claims)
      → Quiet (check_claims p m req c)
  unfolding check_claims
  check_claims-Quiet m req (ok claims) w = same
  check_claims-Quiet m req (err e) w = refuse-Quiet m (Auth.display e) w

  check_token-Quiet :
      (auth : AuthLayer p.jwt.DecodingKey) (m : RequestMetrics) (req : Request HeaderMap)
      (t : Option Text)
      → Quiet (check_token p auth m req t)
  unfolding check_token
  check_token-Quiet auth m req none w = refuse-Quiet m _ w
  check_token-Quiet auth m req (some t) w = check_claims-Quiet m req _ w

  pub auth_stage-Quiet :
      (auth : Option (AuthLayer p.jwt.DecodingKey)) (m : RequestMetrics) (req : Request HeaderMap)
      → Quiet (auth_stage p auth m req)
  unfolding auth_stage
  auth_stage-Quiet none m req w = same
  auth_stage-Quiet (some auth) m req w =
      elim (Bool-cases (auth.config.enabled && not (is_excluded_path auth req.path))) [
        | inl y ↦ rw y (check_token-Quiet auth m req _ w)
        | inr n ↦ rw n same
      ]

  admitted-Quiet : (m : RequestMetrics) (b : Bool) → Quiet (admitted p m b)
  unfolding admitted
  admitted-Quiet m true w = same
  admitted-Quiet m false w =
      let q =
        answer_with-Quiet (Unit {0}) (too_many_requests p.http) (note (record_rate_limited m) w) in
      record { sent = q.sent; net = q.net; slept = q.slept }

  pub rate_limit_stage-Quiet :
      (layer : Option RateLimitLayer) (m : RequestMetrics) (req : Request HeaderMap)
      → Quiet (rate_limit_stage p layer m req)
  unfolding rate_limit_stage
  rate_limit_stage-Quiet none m req w = same
  rate_limit_stage-Quiet (some layer) m req w =
      let (granted, s') =
        p.limiter.check_key w.limiter (request_key p.http layer.key_strategy req.headers) in
      let q = admitted-Quiet m granted (record w { limiter = s' }) in
      record { sent = q.sent; net = q.net; slept = q.slept }

  serve_cached-Quiet :
      (m : RequestMetrics) (c : Result GatewayError (Option CachedResponse))
      → Quiet (serve_cached p m c)
  unfolding serve_cached
  serve_cached-Quiet m (err e) w = same
  serve_cached-Quiet m (ok none) w = same
  serve_cached-Quiet m (ok (some c)) w =
      let q = answer_with-Quiet (Unit {0}) (cached_response p c) (note (record_cache_hit m) w) in
      record { sent = q.sent; net = q.net; slept = q.slept }

  pub cache_stage-Quiet :
      (config : Option CacheConfig) (route : RouteMatch) (m : RequestMetrics)
      (req : Request HeaderMap)
      → Quiet (cache_stage p config route m req)
  unfolding cache_stage look_up
  cache_stage-Quiet none route m req w = same
  cache_stage-Quiet (some config) route m req w =
      let (found, s') =
        p.cache.get w.cache (Cache.build_key p.http p.lossy config.key_strategy req) in
      elim (Bool-cases (route.cache_enabled && text_eq req.method (text "GET"))) [
        | inl y ↦
            let q = serve_cached-Quiet m found (record w { cache = s' }) in
            rw y (record { sent = q.sent; net = q.net; slept = q.slept })
        | inr n ↦ rw n same
      ]
