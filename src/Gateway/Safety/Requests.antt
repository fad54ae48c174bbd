-- ===== src/Gateway/Safety/Requests.antt =====
-- Handling a request ends in an answer, where the configuration and the cache hold nothing that makes
-- the code panic.
use mini_api_gateway.Common.{
  ◌≡◌, refl, ◌∙◌, ap, Option, none, some, List, [], ◌∷◌, All, Text, text, Result, ok, err, Flow,
  next, stop, panic,
}
use mini_api_gateway.Error.{GatewayError}
use mini_api_gateway.Config.{CacheConfig}
use mini_api_gateway.Http.{Request, Response}
use mini_api_gateway.Router.{RouteMatch, match_route}
use mini_api_gateway.Cache.{CachedResponse}
use mini_api_gateway.Cache
use mini_api_gateway.Cache.Service.{put_headers}
use mini_api_gateway.Cache.Service.Laws.{IsSendable, hit_visible, rebuilt}
use mini_api_gateway.Metrics.{RequestMetrics, record_cache_hit}
use mini_api_gateway.Metrics
use mini_api_gateway.Platform.{Platform, World, note}
use mini_api_gateway.Gateway.{
  Gateway, add_request_id, cors_stage, auth_stage, rate_limit_stage, cached_headers,
  cached_response, serve_cached, look_up, cache_stage, proxy_stage, routed, handle_routed,
  handle_request,
}
use mini_api_gateway.Proxy.{forward}
use mini_api_gateway.Gateway.Stages.{not_found-Says}
use mini_api_gateway.Gateway.Serving.Kept.{Keeps}
use mini_api_gateway.Gateway.Safety.{IsSafe, Safe, >>=-Safe}
use mini_api_gateway.Gateway.Safety.Routes.{IsShort, MatchIsShort, match_route-MatchIsShort}
use mini_api_gateway.Gateway.Safety.Forwarding.{forward-Safe}
use mini_api_gateway.Gateway.Safety.Stages.{
  CorsIsServable, answer_with-Safe, cors_stage-Safe, auth_stage-Safe, rate_limit_stage-Safe,
  cache_stage-Safe, proxied-Safe,
}

-- What a backend answers to a look-up, if it is a stored response, can be sent.
abbrev pub FoundIsSendable : (p : Platform) → Result GatewayError (Option CachedResponse) → Type 0
FoundIsSendable p (ok (some c)) = IsSendable p.http c
FoundIsSendable p (ok none) = Unit {0}
FoundIsSendable p (err e) = Unit {0}

-- The configuration of a gateway that answers: the CORS lists can stand in headers, and the pauses of
-- the routes can be represented.
pub record GatewayIsServable (p : Platform) (gateway : Gateway p) : Type 0 where
  pub cors : CorsIsServable gateway.cors_layer
  pub pauses : All (λ e. IsShort e.config.retry) gateway.router.routes

module _ (p : Platform) (IsSound : p.cache.Store → Type 0)
    (sound_get : (s : p.cache.Store) (key : Text)
      → IsSound s
      → FoundIsSendable p (p.cache.get s key).0 × IsSound (p.cache.get s key).1) where
  open p.http use {HeaderMap, Builder, status, header, body}

  -- What the cache holds can be sent.
  abbrev pub HoldsSound : World p → Type 0
  HoldsSound w = IsSound w.cache

  cached_headers-put :
      (es : List (Text × Text)) (b : Builder)
      → cached_headers p es b ≡ put_headers p.http p.lossy p.cache es b
  unfolding cached_headers put_headers
  cached_headers-put [] b = refl
  cached_headers-put ((k, v) ∷ es) b = cached_headers-put es (header b k v)

  cached_response-built :
      (c : CachedResponse)
      → IsSendable p.http c
      → (r : Response HeaderMap) × (cached_response p c ≡ some r)
  unfolding cached_response
  cached_response-built c v =
      let (r, built, replays) = rebuilt p.http p.lossy p.cache (text "HIT") c v hit_visible in
      (
        r,
        ap (λ (b : Builder). body (header b (text "X-Cache") (text "HIT")) c.body)
              (cached_headers-put c.headers (status c.status))
            ∙ built,
      )

  serve_cached-Safe :
      (m : RequestMetrics) (c : Result GatewayError (Option CachedResponse)) (w : World p)
      → FoundIsSendable p c
      → HoldsSound w
      → IsSafe p HoldsSound (serve_cached p m c w)
  unfolding serve_cached
  serve_cached-Safe m (err e) w v h = h
  serve_cached-Safe m (ok none) w v h = h
  serve_cached-Safe m (ok (some c)) w v h =
      let (r, built) = cached_response-built c v in
      answer_with-Safe p HoldsSound (Unit {0}) _ built (note (record_cache_hit m) w) h

  look_up-Safe :
      (config : CacheConfig) (m : RequestMetrics) (req : Request HeaderMap)
      → Safe p HoldsSound (look_up p config m req)
  unfolding look_up
  look_up-Safe config m req w h =
      let key = Cache.build_key p.http p.lossy config.key_strategy req in
      let (sendable, still) = sound_get w.cache key h in
      serve_cached-Safe m _ (record w { cache = (p.cache.get w.cache key).1 }) sendable still

  -- A safe end keeps the property.
  pub IsSafe-kept : {R A : Type 0} (x : Flow R A × World p) → IsSafe p HoldsSound x → HoldsSound x.1
  IsSafe-kept (next a, w) h = h
  IsSafe-kept (stop r, w) h = h
  IsSafe-kept (panic, w) h = absurd h

  pub HoldsSound-Keeps : Keeps p HoldsSound
  HoldsSound-Keeps = record {
    limiter = λ w s h. h;
    discovery = λ router req w h. h;
    look_up = λ config m req w h. IsSafe-kept _ (look_up-Safe config m req w h);
    sent = λ r n w h. h;
    slept = λ ms w h. h;
    auth_failure = λ m w h. h;
    rate_limited = λ m w h. h;
    success = λ m status size w h. h;
  }

  module _ (gateway : Gateway p) (servable : GatewayIsServable p gateway) where
    proxy_stage-Safe :
        (route : RouteMatch) (m : RequestMetrics) (req : Request HeaderMap)
        → IsShort route.retry
        → Safe p HoldsSound (proxy_stage p gateway.cors_layer route m req)
    unfolding proxy_stage
    proxy_stage-Safe route m req short w h =
        let (f, w') = forward p route m req w in
        proxied-Safe p HoldsSound HoldsSound-Keeps gateway.cors_layer f w' servable.cors
          (forward-Safe p HoldsSound HoldsSound-Keeps route m req short w h)

    routed-Safe :
        (route : RouteMatch) (req : Request HeaderMap)
        → IsShort route.retry
        → Safe p HoldsSound (routed p gateway route req)
    unfolding routed
    routed-Safe route req short =
        let m = Metrics.new req.method req.path route.route_id in
        >>=-Safe p HoldsSound (cors_stage p gateway.cors_layer req) _
          (cors_stage-Safe p HoldsSound HoldsSound-Keeps gateway.cors_layer req servable.cors)
          λ u.
            >>=-Safe p HoldsSound (auth_stage p gateway.auth_layer m req) _
              (auth_stage-Safe p HoldsSound HoldsSound-Keeps gateway.auth_layer m req)
              λ req'.
                >>=-Safe p HoldsSound (rate_limit_stage p gateway.rate_limit_layer m req') _
                  (rate_limit_stage-Safe p HoldsSound HoldsSound-Keeps gateway.rate_limit_layer m
                    req')
                  λ u.
                    >>=-Safe p HoldsSound (cache_stage p gateway.cache_layer route m req') _
                      (cache_stage-Safe p HoldsSound HoldsSound-Keeps gateway.cache_layer route m
                        req' (λ config. look_up-Safe config m req'))
                      λ u. proxy_stage-Safe route m req' short

    handle_routed-Safe :
        (req : Request HeaderMap) (route : Option RouteMatch)
        → MatchIsShort route
        → Safe p HoldsSound (handle_routed p gateway req route)
    unfolding handle_routed
    handle_routed-Safe req none short =
        let (r, built, says, _) = not_found-Says p in
        answer_with-Safe p HoldsSound (Response HeaderMap) _ built
    handle_routed-Safe req (some route) short = routed-Safe route req short

    pub handle_request-Safe :
        (id : Text) (req : Request HeaderMap) → Safe p HoldsSound (handle_request p gateway id req)
    unfolding handle_request
    handle_request-Safe id req w h =
        let req' = add_request_id p gateway.request_id_header id req in
        let (route, s') = match_route p.discovery p.regex gateway.router w.discovery req' in
        handle_routed-Safe req' route
          (match_route-MatchIsShort p.discovery p.regex gateway.router w.discovery req'
            servable.pauses)
          (record w { discovery = s' }) h
