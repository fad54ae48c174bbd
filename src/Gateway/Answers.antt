-- ===== src/Gateway/Answers.antt =====
-- Every early answer of the gateway is quiet.
use mini_api_gateway.Common.{
  ◌≡◌, subst, inl, inr, not, ◌&&◌, Option, none, some, Text, Flow, next, stop, panic, ◌>>=◌, ◌>>◌,
  unwrap, Bool-cases, is_empty,
}
use mini_api_gateway.Error.{GatewayError}
use mini_api_gateway.Http.{Request, Response}
use mini_api_gateway.Router.{RouteMatch, match_route}
use mini_api_gateway.Cors.{CorsLayer, origin_of, is_origin_allowed}
use mini_api_gateway.Metrics.{RequestMetrics}
use mini_api_gateway.Metrics
use mini_api_gateway.Platform.{Platform, World}
use mini_api_gateway.Proxy.{forward}
use mini_api_gateway.Gateway.{
  Gateway, Handler, add_request_id, answer_with, cors_stage, auth_stage, rate_limit_stage,
  cache_stage, decorate, proxied, proxy_stage, routed, handle_routed, handle_request,
}
use mini_api_gateway.Gateway.Quiet.{
  SameNet, Quiet, SameNet-trans, same, cors_stage-Quiet, auth_stage-Quiet, rate_limit_stage-Quiet,
  cache_stage-Quiet,
}
use mini_api_gateway.Gateway.Stages.{not_found-Says}

module _ (p : Platform) where
  open p use {http}
  open p.http use {HeaderMap}

  -- An early return is quiet; nothing is said of another end.
  abbrev StopsQuiet : {A : Type 0} → World p → Flow (Response HeaderMap) A × World p → Type 0
  StopsQuiet w (next a, w') = Unit {0}
  StopsQuiet w (stop r, w') = SameNet p w w'
  StopsQuiet w (panic, w') = Unit {0}

  pass-StopsQuiet :
      {A : Type 0} (w w' : World p) (x : Flow (Response HeaderMap) A × World p)
      → SameNet p w w'
      → StopsQuiet w' x
      → StopsQuiet w x
  pass-StopsQuiet w w' (next a, u) q s = tt
  pass-StopsQuiet w w' (stop r, u) q s = SameNet-trans p q s
  pass-StopsQuiet w w' (panic, u) q s = tt

  bind-StopsQuiet :
      (A B : Type 0) (m : Handler p A) (k : A → Handler p B)
      → Quiet p m
      → ((a : A) (w : World p) → StopsQuiet w (k a w))
      → (w : World p) → StopsQuiet w ((m >>= k) w)
  bind-StopsQuiet A B m k q s w = go (m w) (q w)
    where
      go :
          (x : Flow (Response HeaderMap) A × World p)
          → SameNet p w x.1
          → StopsQuiet w (((λ (u : World p). x) >>= k) w)
      go (next a, w') e = pass-StopsQuiet w w' (k a w') e (s a w')
      go (stop r, w') e = e
      go (panic, w') e = tt

  -- The proxy's end is never an early return.
  abbrev NoStop : {A : Type 0} → Flow (Response HeaderMap) A × World p → Type 0
  NoStop (next a, w) = Unit {0}
  NoStop (stop r, w) = ⊥
  NoStop (panic, w) = Unit {0}

  unwrap-NoStop : {A : Type 0} (o : Option A) (w : World p) → NoStop (unwrap o w)
  unwrap-NoStop none w = tt
  unwrap-NoStop (some a) w = tt

  proxied-NoStop :
      (cors : Option CorsLayer) (f : Flow GatewayError (Response HeaderMap)) (w : World p)
      → NoStop (proxied p cors f w)
  unfolding proxied decorate
  proxied-NoStop none (next r) w = tt
  proxied-NoStop (some cors) (next r) w =
      elim (Bool-cases (
        not (is_empty (origin_of p.http r.headers))
        && is_origin_allowed cors (origin_of p.http r.headers))) [
          | inl y ↦ rw y (unwrap-NoStop _ w)
          | inr n ↦ rw n tt
        ]
  proxied-NoStop cors (stop e) w = unwrap-NoStop _ w
  proxied-NoStop cors panic w = tt

  NoStop-StopsQuiet :
      (w : World p) (x : Flow (Response HeaderMap) (Response HeaderMap) × World p)
      → NoStop x
      → StopsQuiet w x
  NoStop-StopsQuiet w (next a, u) n = tt
  NoStop-StopsQuiet w (stop r, u) n = absurd n
  NoStop-StopsQuiet w (panic, u) n = tt

  proxy_stage-StopsQuiet :
      (cors : Option CorsLayer) (route : RouteMatch) (m : RequestMetrics) (req : Request HeaderMap)
      (w : World p)
      → StopsQuiet w (proxy_stage p cors route m req w)
  unfolding proxy_stage
  proxy_stage-StopsQuiet cors route m req w =
      let (f, w') = forward p route m req w in
      NoStop-StopsQuiet w (proxied p cors f w') (proxied-NoStop cors f w')

  routed-StopsQuiet :
      (gateway : Gateway p) (route : RouteMatch) (req : Request HeaderMap) (w : World p)
      → StopsQuiet w (routed p gateway route req w)
  unfolding routed
  routed-StopsQuiet gateway route req =
      let m = Metrics.new req.method req.path route.route_id in
      let answered = λ (r : Request HeaderMap). proxy_stage p gateway.cors_layer route m r in
      let looked_up =
        λ (r : Request HeaderMap). cache_stage p gateway.cache_layer route m r >> answered r in
      let limited =
        λ (r : Request HeaderMap). rate_limit_stage p gateway.rate_limit_layer m r >> looked_up r in
      bind-StopsQuiet (Unit {0}) (Response HeaderMap) (cors_stage p gateway.cors_layer req)
        (λ _. auth_stage p gateway.auth_layer m req >>= limited)
        (cors_stage-Quiet p gateway.cors_layer req)
        (λ _.
          bind-StopsQuiet (Request HeaderMap) (Response HeaderMap)
            (auth_stage p gateway.auth_layer m req) limited
            (auth_stage-Quiet p gateway.auth_layer m req)
            (λ r.
              bind-StopsQuiet (Unit {0}) (Response HeaderMap)
                (rate_limit_stage p gateway.rate_limit_layer m r) (λ _. looked_up r)
                (rate_limit_stage-Quiet p gateway.rate_limit_layer m r)
                (λ _.
                  bind-StopsQuiet (Unit {0}) (Response HeaderMap)
                    (cache_stage p gateway.cache_layer route m r) (λ _. answered r)
                    (cache_stage-Quiet p gateway.cache_layer route m r)
                    (λ _. proxy_stage-StopsQuiet gateway.cors_layer route m r))))

  handle_routed-StopsQuiet :
      (gateway : Gateway p) (req : Request HeaderMap) (route : Option RouteMatch) (w : World p)
      → StopsQuiet w (handle_routed p gateway req route w)
  unfolding handle_routed answer_with
  handle_routed-StopsQuiet gateway req none w =
      let (r, built, says, _) = not_found-Says p in rw built (same p)
  handle_routed-StopsQuiet gateway req (some route) w = routed-StopsQuiet gateway route req w

  -- An answer that a layer returns early (for a missing route, a preflight request, a refused token, a
  -- full rate limit or a cache hit) sends nothing to any upstream server and waits for nothing.
  pub handle_request-early :
      (gateway : Gateway p) (id : Text) (req : Request HeaderMap) (w w' : World p)
      {r : Response HeaderMap}
      → handle_request p gateway id req w ≡ (stop r, w')
      → SameNet p w w'
  unfolding handle_request
  handle_request-early gateway id req w w' {r} e =
      let (route, s) =
        match_route p.discovery p.regex gateway.router w.discovery
          (add_request_id p gateway.request_id_header id req) in
      let q = subst (StopsQuiet (record w { discovery = s })) e (
        handle_routed-StopsQuiet gateway (add_request_id p gateway.request_id_header id req) route
          (record w { discovery = s })) in
      record { sent = q.sent; net = q.net; slept = q.slept }
