-- ===== src/Gateway/Build/Parts.antt =====
-- What the gateway that is built consists of.
use mini_api_gateway.Common.{
  if◌then◌else◌, subst, ◌≡◌, refl, sym, ap, ◌∙◌, false, Option, none, some, is_some, List, ok, Flow,
  next, try, >>=-elim-next, >>=?-eq-ok, ok-injective, try-eq-next,
}
use mini_api_gateway.Config.{GatewayConfig, RouteConfig, RateLimitConfig, CorsConfig, MetricsConfig}
use mini_api_gateway.Error.{GatewayError}
use mini_api_gateway.Discovery.Shared.{Shared}
use mini_api_gateway.Router.{Router, get_routes, compile_routes, with_discovery}
use mini_api_gateway.Router
use mini_api_gateway.Router.Entries.{get_routes-new}
use mini_api_gateway.Auth
use mini_api_gateway.RateLimit.{RateLimitLayer}
use mini_api_gateway.RateLimit
use mini_api_gateway.Cors.{CorsLayer}
use mini_api_gateway.Cors
use mini_api_gateway.Tls.{create_tls_acceptor}
use mini_api_gateway.Cache.Backend
use mini_api_gateway.Gateway.Build.{
  Libraries, Assembly, DynServiceDiscovery, optionally, start_discovery, attach, build_auth,
  build_rate_limit, build_cors, pooled_client, build_metrics, new, metrics_server,
}
use mini_api_gateway.Gateway.Build.Stages.{
  asked, kept, Made, watched_by, optionally-Still, optionally-kept, optionally-Made,
  build_metrics-Still, pooled_client-Still, discovery-next,
}

-- The CORS layer of a section.
abbrev pub cors_of : CorsConfig → CorsLayer
cors_of c =
    Cors.new c.allow_origins c.allow_methods c.allow_headers c.allow_credentials c.max_age
      c.expose_headers

module _ (L : Libraries) where
  open L use {query}
  open query use {Net}

  routes_attached :
      (o : Option DynServiceDiscovery) (cs : List RouteConfig) (r : Router L.regex.Regex)
      → Router.new L.regex cs ≡ ok r
      → get_routes L.regex (attach L o r) ≡ cs
  unfolding with_discovery get_routes
  routes_attached none cs r h = get_routes-new L.regex cs r h
  routes_attached (some d) cs r h = get_routes-new L.regex cs r h

  router_new-discovery :
      (cs : List RouteConfig) (r : Router L.regex.Regex)
      → Router.new L.regex cs ≡ ok r
      → r.discovery ≡ false
  unfolding Router.new
  router_new-discovery cs r h =
      let (es, e, k) = >>=?-eq-ok (compile_routes L.regex cs) _ h in
      ap (λ r. r.discovery) (sym (ok-injective k))

  discovery_attached :
      (o : Option DynServiceDiscovery) (cs : List RouteConfig) (r : Router L.regex.Regex)
      → Router.new L.regex cs ≡ ok r
      → (attach L o r).discovery ≡ is_some o
  unfolding with_discovery
  discovery_attached none cs r h = router_new-discovery cs r h
  discovery_attached (some d) cs r h = refl

  ok_next :
      {g g' : Assembly L} {s s' : Shared Net}
      → ◌≡◌ {A = Flow GatewayError (Assembly L) × Shared Net} (next g, s) (next g', s')
      → (g ≡ g') × (s' ≡ s)
  ok_next h = (cc, cc)

  -- The limiter of a section.
  abbrev limiter_of : RateLimitConfig → RateLimitLayer × L.limiter.State
  limiter_of c = RateLimit.new L.limiter c.requests_per_second c.burst_size c.key_strategy

  -- The gateway keeps the configuration, lists its routes, and has each part exactly where the section
  -- of that part is there and enables it; the layers for tokens, limits and CORS are those that their
  -- sections describe, and the TLS acceptor and the cache are what the calls for them return.
  abbrev pub HasParts : GatewayConfig → Assembly L → Type 0
  HasParts config g =
      (get_routes L.regex g.router ≡ config.routes)
      × (g.router.discovery ≡ asked (λ c. c.enabled) config.discovery)
      × Made (λ c. c.enabled) (create_tls_acceptor L.tls) config.tls g.tls_acceptor
      × (g.auth_layer ≡ kept (λ c. c.enabled) (Auth.new L.jwt) config.auth)
      × (g.rate_limit_layer ≡ kept (λ c. c.enabled) limiter_of config.rate_limit)
      × (g.cors_layer ≡ kept (λ c. c.enabled) cors_of config.cors)
      × Made (λ c. c.enabled) (Backend.new L.moka L.redis) config.cache g.cache_layer
      × (is_some g.metrics ≡ asked (λ c. c.enabled) config.metrics)
      × (g.config ≡ config)

  -- A gateway that is built lists exactly the configured routes, has each of its parts exactly where the
  -- section of that part is there and enables it, and keeps the configuration; its layers for tokens,
  -- limits and CORS are those that their sections describe, and its TLS acceptor and its cache are
  -- what the calls for them return; building it has asked
  -- no discovery and added the names of the routes' services to the watched ones exactly where the
  -- section of the discovery enables it.
  pub new-parts :
      (config : GatewayConfig) (s : Shared Net) {g : Assembly L} {s' : Shared Net}
      → new L config s ≡ (next g, s')
      → HasParts config g × (s' ≡ watched_by L config s)
  unfolding new build_auth build_rate_limit build_cors
  new-parts config s {g} {s'} h =
      >>=-elim-next (try (Router.new L.regex config.routes)) _ s h λ router s1 e1 h.
        >>=-elim-next
          (optionally L (λ c. c.enabled) (start_discovery L config.routes) config.discovery) _ s1 h
          λ d s2 e2 h.
            >>=-elim-next
              (optionally L (λ c. c.enabled) (λ c. try (create_tls_acceptor L.tls c)) config.tls) _
              s2 h
              λ t s3 e3 h.
                >>=-elim-next (optionally L (λ c. c.enabled) (build_auth L) config.auth) _ s3 h
                  λ a s4 e4 h.
                    >>=-elim-next
                      (optionally L (λ c. c.enabled) (build_rate_limit L) config.rate_limit) _ s4 h
                      λ l s5 e5 h.
                        >>=-elim-next (optionally L (λ c. c.enabled) (build_cors L) config.cors) _
                          s5 h
                          λ o s6 e6 h.
                            >>=-elim-next
                              (optionally L (λ c. c.enabled)
                                (λ c. try (Backend.new L.moka L.redis c)) config.cache)
                              _ s6 h
                              λ k s7 e7 h.
                                >>=-elim-next (pooled_client L config.pool) _ s7 h λ p s8 e8 h.
                                  >>=-elim-next
                                    (optionally L (λ c. c.enabled) (build_metrics L) config.metrics)
                                    _ s8 h
                                    λ m s9 e9 h.
                                      let same = ok_next h in
                                      let (d1, r1) =
                                        discovery-next L config.routes config.discovery s1 e2 in
                                      let (r0, r2) =
                                        try-eq-next (Router.new L.regex config.routes) s e1 in
                                      let q3 =
                                        optionally-Made L (λ c. c.enabled)
                                          (create_tls_acceptor L.tls) config.tls s2 e3 in
                                      let q4 =
                                        optionally-kept L (λ c. c.enabled) (Auth.new L.jwt)
                                          config.auth s3 e4 in
                                      let q5 =
                                        optionally-kept L (λ c. c.enabled) limiter_of
                                          config.rate_limit s4 e5 in
                                      let q6 =
                                        optionally-kept L (λ c. c.enabled) cors_of config.cors s5
                                          e6 in
                                      let q7 =
                                        optionally-Made L (λ c. c.enabled)
                                          (Backend.new L.moka L.redis) config.cache s6 e7 in
                                      let q8 = pooled_client-Still L config.pool s7 p s8 e8 in
                                      let q9 =
                                        optionally-Still L (λ c. c.enabled) (build_metrics L)
                                          config.metrics s8 (build_metrics-Still L) e9 in
                                      (
                                        subst (HasParts config) same.0 (
                                          routes_attached d config.routes router r0,
                                          discovery_attached d config.routes router r0 ∙ d1,
                                          q3.0,
                                          q4.0,
                                          q5.0,
                                          q6.0,
                                          q7.0,
                                          q9.0,
                                          refl,
                                        ),
                                        same.1
                                            ∙ q9.1
                                            ∙ q8
                                            ∙ q7.1
                                            ∙ q6.1
                                            ∙ q5.1
                                            ∙ q4.1
                                            ∙ q3.1
                                            ∙ r1
                                            ∙ ap (watched_by L config) r2,
                                      )

  recorder_section :
      {R : Type 0} (r : Option R) (o : Option MetricsConfig)
      → is_some r ≡ asked (λ c. c.enabled) o
      → elim r as (λ _. Option MetricsConfig) [ none ↦ none | some m ↦ o ]
        ≡ (if asked (λ c. c.enabled) o then o else none)
  recorder_section none o h = rw (sym h) refl
  recorder_section (some r) o h = rw (sym h) refl

  -- A gateway that is built starts a metrics server exactly where the section of the metrics is there
  -- and enables it, and then at the address and with the path of that section.
  metrics_server-new :
      (config : GatewayConfig) (s : Shared Net) {g : Assembly L} {s' : Shared Net}
      → new L config s ≡ (next g, s')
      → metrics_server L g
        ≡ (if asked (λ c. c.enabled) config.metrics then config.metrics else none)
  unfolding metrics_server
  metrics_server-new config s {g} h =
      let (routes, attached, t, a, l, o, k, recorded, same) = (new-parts config s h).0 in
      ap
        (λ (c : GatewayConfig). elim g.metrics as (λ _. Option MetricsConfig) [
          | none ↦ none
          | some m ↦ c.metrics
        ])
        same
      ∙ recorder_section g.metrics config.metrics recorded
