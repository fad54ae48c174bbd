-- ===== src/Gateway/Serving/Gauge.antt =====
-- Handling a request leaves the gauge of the open connections as it was.
use mathlib.Core.List.{reverse}
use mini_api_gateway.Common.{
  ℕ, suc, ◌≡◌, refl, ap, ◌∙◌, inl, inr, Option, none, some, List, [], ◌∷◌, ◌++◌, Text, Result, ok,
  err, leb, Bool-cases,
}
use mini_api_gateway.Error.{GatewayError}
use mini_api_gateway.Config.{CacheConfig}
use mini_api_gateway.Http.{Request, Response}
use mini_api_gateway.Cache.{CachedResponse}
use mini_api_gateway.Cache
use mini_api_gateway.Metrics.{
  Metric, increment, record_value, record_duration, gauge_up, gauge_down, RequestMetrics,
  record_auth_failure, record_rate_limited, record_cache_hit, record_success,
}
use mini_api_gateway.Platform.{Platform, World, note}
use mini_api_gateway.Gateway.{
  Gateway, answer_with, serve_cached, cached_response, look_up, handle_request,
}
use mini_api_gateway.Gateway.Serving.Kept.{Keeps}
use mini_api_gateway.Gateway.Serving.Requests

-- How often the gauge went up, and how often it went down.
unfoldable pub gauge : List Metric → ℕ × ℕ
gauge [] = (0, 0)
gauge (increment name labels ∷ ms) = gauge ms
gauge (record_value name labels v ∷ ms) = gauge ms
gauge (record_duration name labels ∷ ms) = gauge ms
gauge (gauge_up name ∷ ms) = let (u, d) = gauge ms in (suc u, d)
gauge (gauge_down name ∷ ms) = let (u, d) = gauge ms in (u, suc d)

record_success-gauge :
    (m : RequestMetrics) (status size : ℕ) (ms : List Metric)
    → gauge (reverse (record_success m status size) ++ ms) ≡ gauge ms
unfolding record_success gauge
record_success-gauge m status size ms = elim (Bool-cases (leb 400 status)) [
  | inl y ↦ rw y refl
  | inr n ↦ rw n refl
]

module _ (p : Platform) where
  open p use {http}
  open p.http use {HeaderMap}

  -- The gauge stands where it stood.
  abbrev Stands : ℕ × ℕ → World p → Type 0
  Stands g w = gauge w.metrics ≡ g

  answer_with-metrics :
      (A : Type 0) (o : Option (Response HeaderMap)) (w : World p)
      → (answer_with p {A = A} o w).1.metrics ≡ w.metrics
  unfolding answer_with
  answer_with-metrics A none w = refl
  answer_with-metrics A (some r) w = refl

  serve_cached-gauge :
      (m : RequestMetrics) (c : Result GatewayError (Option CachedResponse)) (w : World p)
      → gauge (serve_cached p m c w).1.metrics ≡ gauge w.metrics
  unfolding serve_cached gauge record_cache_hit
  serve_cached-gauge m (err e) w = refl
  serve_cached-gauge m (ok none) w = refl
  serve_cached-gauge m (ok (some c)) w =
      ap gauge (answer_with-metrics (Unit {0}) (cached_response p c) (note (record_cache_hit m) w))

  look_up-gauge :
      (config : CacheConfig) (m : RequestMetrics) (req : Request HeaderMap) (w : World p)
      → gauge (look_up p config m req w).1.metrics ≡ gauge w.metrics
  unfolding look_up
  look_up-gauge config m req w =
      let (found, s') =
        p.cache.get w.cache (Cache.build_key p.http p.lossy config.key_strategy req) in
      serve_cached-gauge m found (record w { cache = s' })

  Stands-Keeps : (g : ℕ × ℕ) → Keeps p (Stands g)
  unfolding gauge record_auth_failure record_rate_limited
  Stands-Keeps g = record {
    limiter = λ w s h. h;
    discovery = λ router req w h. h;
    look_up = λ config m req w h. look_up-gauge config m req w ∙ h;
    sent = λ r n w h. h;
    slept = λ ms w h. h;
    auth_failure = λ m w h. h;
    rate_limited = λ m w h. h;
    success = λ m status size w h. record_success-gauge m status size w.metrics ∙ h;
  }

  pub handle_request-gauge :
      (gateway : Gateway p) (id : Text) (req : Request HeaderMap) (w : World p)
      → gauge (handle_request p gateway id req w).1.metrics ≡ gauge w.metrics
  handle_request-gauge gateway id req w =
      Requests.handle_request-Steady p (Stands (gauge w.metrics)) (Stands-Keeps (gauge w.metrics))
        gateway id req w refl
