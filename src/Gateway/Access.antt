-- ===== src/Gateway/Access.antt =====
-- Which requests get past the route, the CORS, the authentication and the rate limit stages.
use mini_api_gateway.Common.{
  ◌≡◌, refl, ◌⊎◌, inl, inr, true, false, not, ◌&&◌, Option, none, some, Text, text, text_eq, err,
  ok, List, All, next, stop, Bool-cases, Option-cases,
}
use mini_api_gateway.Http.{Request, Response}
use mini_api_gateway.Http.Fields.{field_value}
use mini_api_gateway.Config.{RouteConfig}
use mini_api_gateway.Router.{Router, RouteMatch, new, with_discovery, match_route}
use mini_api_gateway.Router.Matching.{Accepts, match_route-unmatched}
use mini_api_gateway.Cors.{CorsLayer, is_origin_allowed, origin_of}
use mini_api_gateway.Cors.Headers.{IsServable, preflight_fields}
use mini_api_gateway.Cors.Laws.{origin_of-visible, build_preflight_response-table}
use mini_api_gateway.Auth.{AuthLayer, AuthError, is_excluded_path, extract_token, validate_jwt}
use mini_api_gateway.RateLimit.{RateLimitLayer, request_key}
use mini_api_gateway.Metrics.{RequestMetrics, record_auth_failure, record_rate_limited}
use mini_api_gateway.Metrics
use mini_api_gateway.Platform.{Platform, World, note}
use mini_api_gateway.Gateway.{
  Gateway, add_request_id, answer_with, cors_stage, refuse, check_claims, check_token, auth_stage,
  admitted, rate_limit_stage, routed, handle_routed, handle_request,
}
use mini_api_gateway.Gateway.Stages.{
  Says, unauthorized-Says, too_many_requests-Says, not_found-Says,
}

module _ (p : Platform) where
  open p use {http}
  open p.http use {HeaderMap}

  -- A request with a token that the library does not accept, or without one, to a path that the
  -- authentication layer guards.
  pub record IsDenied (auth : AuthLayer p.jwt.DecodingKey) (req : Request HeaderMap) : Type 0 where
    pub enabled : auth.config.enabled ≡ true
    pub guarded : is_excluded_path auth req.path ≡ false
    pub no_token :
        (extract_token p.http req ≡ none)
        ⊎ ((t : Text) × (extract_token p.http req ≡ some t)
            × ((e : AuthError) × (validate_jwt p.jwt auth t ≡ err e)))

  add_request_id-path :
      (name : Option Text) (id : Text) (req : Request HeaderMap)
      → ((add_request_id p name id req).path ≡ req.path)
        × ((add_request_id p name id req).method ≡ req.method)
  unfolding add_request_id
  add_request_id-path none id req = (refl, refl)
  add_request_id-path (some name) id req = elim (Bool-cases (p.http.valid_name name)) [
    | inl v ↦ elim (Option-cases (p.http.from_str id)) [
      | inl e ↦ rw (v, e) (refl, refl)
      | inr (x, e) ↦ rw (v, e) (refl, refl)
    ]
    | inr n ↦ rw n (refl, refl)
  ]

  refuse-Says :
      (m : _) (e : Text) (w : World p)
      → (r : Response HeaderMap) × (refuse p m e w ≡ (stop r, note (record_auth_failure m) w))
        × Says p.http 401 (text "WWW-Authenticate") (text "Bearer") r
  unfolding refuse answer_with
  refuse-Says m e w = let (r, built, says) = unauthorized-Says p.http e in (r, rw built refl, says)

  IsDenied-guards :
      (auth : AuthLayer p.jwt.DecodingKey) (req : Request HeaderMap)
      → IsDenied auth req
      → (auth.config.enabled && not (is_excluded_path auth req.path)) ≡ true
  IsDenied-guards auth req d = rw (d.guarded, d.enabled) refl

  auth_stage-IsDenied :
      (auth : AuthLayer p.jwt.DecodingKey) (m : RequestMetrics) (req : Request HeaderMap)
      (w : World p)
      → IsDenied auth req
      → (r : Response HeaderMap) × (auth_stage p (some auth) m req w
          ≡ (stop r, note (record_auth_failure m) w))
        × Says p.http 401 (text "WWW-Authenticate") (text "Bearer") r
  unfolding auth_stage check_token check_claims
  auth_stage-IsDenied auth m req w d = elim d.no_token [
    | inl e ↦ rw (IsDenied-guards auth req d, e) (refuse-Says m _ w)
    | inr (t, e, (f, g)) ↦ rw (IsDenied-guards auth req d, e, g) (refuse-Says m _ w)
  ]

  cors_stage-actual :
      (cors : Option CorsLayer) (req : Request HeaderMap) (w : World p)
      → text_eq req.method (text "OPTIONS") ≡ false
      → cors_stage p cors req w ≡ (next tt, w)
  unfolding cors_stage
  cors_stage-actual none req w e = refl
  cors_stage-actual (some cors) req w e = rw e refl

  -- Where the gateway's router is built from a list of routes, with a discovery attached or without,
  -- and no route of the list accepts the request by its path pattern and its methods, the request is
  -- answered with the status 404, the content type `application/json` as the one header, and a fixed
  -- JSON body that names the error and says that no route matches. The world is as before: nothing
  -- was asked of the discovery, sent, counted or looked up.
  pub handle_request-unmatched :
      (gateway : Gateway p) (cs : List RouteConfig) (router : Router p.regex.Regex) (id : Text)
      (req : Request HeaderMap) (w : World p)
      → new p.regex cs ≡ ok router
      → (gateway.router ≡ router) ⊎ (gateway.router ≡ with_discovery router)
      → All (λ c. ¬ Accepts c req) cs
      → (r : Response HeaderMap) × (handle_request p gateway id req w ≡ (stop r, w))
        × Says p.http 404 (text "Content-Type") (text "application/json") r
        × (r.body ≡ text "{\"error\":\"Not Found\",\"message\":\"No route matches the request\"}")
  unfolding handle_request handle_routed answer_with
  handle_request-unmatched gateway cs router id req w built attached u =
      let (same_path, same_method) = add_request_id-path gateway.request_id_header id req in
      let req' = add_request_id p gateway.request_id_header id req in
      let unmatched =
        match_route-unmatched p.discovery p.regex cs router gateway.router w.discovery req' built
          attached (rw (same_path, same_method) u) in
      let (r, made, says, b) = not_found-Says p in (r, rw (unmatched, made) refl, says, b)

  -- A request that matches a route, is no OPTIONS request, and is denied by the authentication layer
  -- is answered with the status 401 and a challenge, and the failure is counted. But for
  -- the service discovery nothing else has changed: the request is not counted by the rate limiter,
  -- not looked up in the cache and not sent to an upstream server.
  pub handle_request-IsDenied :
      (gateway : Gateway p) (id : Text) (req : Request HeaderMap) (w : World p)
      {auth : AuthLayer p.jwt.DecodingKey} {route : RouteMatch} {s : p.discovery.State}
      → gateway.auth_layer ≡ some auth
      → match_route p.discovery p.regex gateway.router w.discovery
          (add_request_id p gateway.request_id_header id req)
        ≡ (some route, s)
      → text_eq req.method (text "OPTIONS") ≡ false
      → IsDenied auth (add_request_id p gateway.request_id_header id req)
      → (r : Response HeaderMap) × (handle_request p gateway id req w ≡ (
        stop r,
        note
            (record_auth_failure (Metrics.new req.method req.path route.route_id))
            (record w { discovery = s }),
      ))
        × Says p.http 401 (text "WWW-Authenticate") (text "Bearer") r
  unfolding handle_request handle_routed routed
  handle_request-IsDenied gateway id req w {auth} {route} {s} a e o d =
      let req' = add_request_id p gateway.request_id_header id req in
      let (same_path, same_method) = add_request_id-path gateway.request_id_header id req in
      let (r, stopped, says) =
        auth_stage-IsDenied auth (Metrics.new req'.method req'.path route.route_id) req'
          (record w { discovery = s }) d in
      (
        r,
        rw
            (
              e,
              cors_stage-actual gateway.cors_layer req' (record w { discovery = s })
                  (rw same_method o),
              a,
              stopped,
              same_path,
              same_method,
            )
            refl,
        says,
      )

  -- A request that matches a route, is no OPTIONS request, is let through by the authentication
  -- stage, and for which the rate limiter has no room is answered with the status 429, and that is
  -- counted. But for the service discovery and the limiter nothing else has changed: nothing is
  -- looked up in the cache or sent to an upstream server.
  pub handle_request-limited :
      (gateway : Gateway p) (id : Text) (req req' : Request HeaderMap) (w : World p)
      {layer : RateLimitLayer} {route : RouteMatch} {s : p.discovery.State} {l : p.limiter.State}
      → gateway.rate_limit_layer ≡ some layer
      → match_route p.discovery p.regex gateway.router w.discovery
          (add_request_id p gateway.request_id_header id req)
        ≡ (some route, s)
      → text_eq req.method (text "OPTIONS") ≡ false
      → auth_stage p gateway.auth_layer
          (Metrics.new req.method req.path route.route_id)
          (add_request_id p gateway.request_id_header id req)
          (record w { discovery = s })
        ≡ (next req', record w { discovery = s })
      → p.limiter.check_key w.limiter (request_key p.http layer.key_strategy req'.headers)
        ≡ (false, l)
      → (r : Response HeaderMap) × (handle_request p gateway id req w ≡ (
        stop r,
        note
            (record_rate_limited (Metrics.new req.method req.path route.route_id))
            (record w { discovery = s; limiter = l }),
      ))
        × Says p.http 429 (text "Content-Type") (text "application/json") r
  unfolding handle_request handle_routed routed rate_limit_stage admitted answer_with auth_stage
      record_rate_limited Metrics.new add_request_id text
  handle_request-limited gateway id req req' w {layer} {route} {s} a e o granted full =
      let (same_path, same_method) = add_request_id-path gateway.request_id_header id req in
      let (r, built, says) = too_many_requests-Says p.http in
      (
        r,
        rw
            (
              e,
              cors_stage-actual gateway.cors_layer
                  (add_request_id p gateway.request_id_header id req) (record w { discovery = s })
                  (rw same_method o),
              same_path,
              same_method,
              granted,
              a,
              full,
              built,
            )
            refl,
        says,
      )

  -- Where the lists of the CORS layer can stand in a header, an OPTIONS request from an allowed origin
  -- that matches a route is answered with the status 204
  -- and the table of CORS headers, whatever token it has, and but for the service discovery
  -- nothing has changed.
  pub handle_request-preflight :
      (gateway : Gateway p) (id : Text) (req : Request HeaderMap) (w : World p) {cors : CorsLayer}
      {route : RouteMatch} {s : p.discovery.State}
      → gateway.cors_layer ≡ some cors
      → IsServable cors
      → match_route p.discovery p.regex gateway.router w.discovery
          (add_request_id p gateway.request_id_header id req)
        ≡ (some route, s)
      → text_eq req.method (text "OPTIONS") ≡ true
      → is_origin_allowed cors
          (origin_of p.http (add_request_id p gateway.request_id_header id req).headers)
        ≡ true
      → (r : Response HeaderMap) × (handle_request p gateway id req w
          ≡ (stop r, record w { discovery = s }))
        × (r.status ≡ 204)
        × ((j : Text)
            → p.http.get r.headers j
              ≡ field_value j (
                  preflight_fields cors
                    (origin_of p.http (add_request_id p gateway.request_id_header id req).headers)))
  unfolding handle_request handle_routed routed cors_stage answer_with
  handle_request-preflight gateway id req w {cors} c v e o allowed =
      let req' = add_request_id p gateway.request_id_header id req in
      let (same_path, same_method) = add_request_id-path gateway.request_id_header id req in
      let (r, built, s, b, h) =
        build_preflight_response-table p.http cors (origin_of p.http req'.headers) v
          (origin_of-visible p.http req'.headers) in
      (r, rw (e, c, same_method, o, allowed, built) refl, s, h)
