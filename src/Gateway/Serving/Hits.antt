-- ===== src/Gateway/Serving/Hits.antt =====
-- The gateway reads its cache and never fills it.
use mathlib.Core.List.{reverse}
use mini_api_gateway.Common.{
  ℕ, zero, suc, ◌≡◌, refl, sym, ◌∙◌, inl, inr, Bool, true, false, Option, none, some, List, [], ◌∷◌,
  ◌++◌, if◌then◌else◌, leb, Bool-cases, Text, text, text_eq, Result, ok, err, Flow, next, stop,
  panic, subst,
}
use mini_api_gateway.Error.{GatewayError}
use mini_api_gateway.Config.{CacheConfig}
use mini_api_gateway.Http.{Request, Response}
use mini_api_gateway.Cache.{CachedResponse}
use mini_api_gateway.Cache
use mini_api_gateway.Metrics.{
  Metric, increment, record_value, record_duration, gauge_up, gauge_down, RequestMetrics,
  record_auth_failure, record_rate_limited, record_success, record_active_connections,
}
use mini_api_gateway.Platform.{Platform, World, note}
use mini_api_gateway.Gateway.{Gateway, serve_cached, look_up, handle_request}
use mini_api_gateway.Gateway.Serving.{
  Server, Event, accept, request, close, accepted, accepting, handled, serve, finish, step, run,
}
use mini_api_gateway.Gateway.Serving.Kept.{Keeps}
use mini_api_gateway.Gateway.Serving.Requests

-- How many answers from the cache were counted.
unfoldable pub hits : List Metric → ℕ
hits [] = 0
hits (increment name labels ∷ ms) =
    let rest = hits ms in if text_eq name (text "gateway_cache_hits_total") then suc rest else rest
hits (record_value name labels v ∷ ms) = hits ms
hits (record_duration name labels ∷ ms) = hits ms
hits (gauge_up name ∷ ms) = hits ms
hits (gauge_down name ∷ ms) = hits ms

record_success-hits :
    (m : RequestMetrics) (status size : ℕ) (ms : List Metric)
    → hits (reverse (record_success m status size) ++ ms) ≡ hits ms
unfolding record_success hits text text_eq
record_success-hits m status size ms = elim (Bool-cases (leb 400 status)) [
  | inl y ↦ rw y refl
  | inr n ↦ rw n refl
]

record_active_connections-hits :
    (b : Bool) (ms : List Metric) → hits (reverse (record_active_connections b) ++ ms) ≡ hits ms
unfolding record_active_connections hits
record_active_connections-hits true ms = refl
record_active_connections-hits false ms = refl

module _ (p : Platform) (P : World p → Type 0) (keeps : Keeps p P)
    (counts : (b : Bool) (w : World p) → P w → P (note (record_active_connections b) w)) where
  open p.http use {HeaderMap}

  accepting-kept :
      (o : Option GatewayError) (r : Result Text (Unit {0})) (s : Server p)
      → P s.world
      → P (accepting p o r s).world
  unfolding accepting accepted
  accepting-kept none (ok u) s h = counts true s.world h
  accepting-kept none (err e) s h = h
  accepting-kept (some e) r s h = h

  handled-kept :
      (others : ℕ) (s : Server p) (x : Flow (Response HeaderMap) (Response HeaderMap) × World p)
      → P x.1
      → P (handled p others s x).world
  unfolding handled
  handled-kept others s (next r, w) h = h
  handled-kept others s (stop r, w) h = h
  handled-kept others s (panic, w) h = h

  serve-kept :
      (gateway : Gateway p) (id : Text) (req : Request HeaderMap) (n : ℕ) (s : Server p)
      → P s.world
      → P (serve p gateway id req n s).world
  unfolding serve
  serve-kept gateway id req zero s h = h
  serve-kept gateway id req (suc others) s h =
      handled-kept others s (handle_request p gateway id req s.world)
        (Requests.handle_request-Steady p P keeps gateway id req s.world h)

  finish-kept : (n : ℕ) (s : Server p) → P s.world → P (finish p n s).world
  unfolding finish
  finish-kept zero s h = h
  finish-kept (suc others) s h = counts false s.world h

  pub step-kept :
      (gateway : Gateway p) (e : Event p) (s : Server p) → P s.world → P (step p gateway e s).world
  unfolding step
  step-kept gateway (accept r) s h = accepting-kept s.stopped r s h
  step-kept gateway (request id req) s h = serve-kept gateway id req s.tasks s h
  step-kept gateway close s h = finish-kept s.tasks s h

  -- What every effect of a request and the counting of connections keep, every history keeps.
  pub run-kept :
      (gateway : Gateway p) (es : List (Event p)) (s : Server p)
      → P s.world
      → P (run p gateway es s).world
  unfolding run
  run-kept gateway [] s h = h
  run-kept gateway (e ∷ es) s h = run-kept gateway es (step p gateway e s) (step-kept gateway e s h)

module _ (p : Platform) (IsEmpty : p.cache.Store → Type 0)
    (misses : (s : p.cache.Store) (key : Text)
      → IsEmpty s
      → ((p.cache.get s key).0 ≡ ok none) × IsEmpty (p.cache.get s key).1) where
  open p.http use {HeaderMap}

  -- The cache is empty, and a number of hits was counted.
  abbrev WithoutHits : ℕ → World p → Type 0
  WithoutHits n w = IsEmpty w.cache × (hits w.metrics ≡ n)

  serve_cached-missed :
      (m : RequestMetrics) (c : Result GatewayError (Option CachedResponse)) (w : World p)
      → c ≡ ok none
      → (serve_cached p m c w).1 ≡ w
  unfolding serve_cached
  serve_cached-missed m (err e) w h = cc
  serve_cached-missed m (ok none) w h = refl
  serve_cached-missed m (ok (some c)) w h = cc

  look_up-WithoutHits :
      (n : ℕ) (config : CacheConfig) (m : RequestMetrics) (req : Request HeaderMap) (w : World p)
      → WithoutHits n w
      → WithoutHits n (look_up p config m req w).1
  unfolding look_up
  look_up-WithoutHits n config m req w (empty, h) =
      let key = Cache.build_key p.http p.lossy config.key_strategy req in
      let (missed, still) = misses w.cache key empty in
      let same =
        serve_cached-missed m (p.cache.get w.cache key).0
          (record w { cache = (p.cache.get w.cache key).1 }) missed in
      subst (WithoutHits n) (sym same) (still, h)

  WithoutHits-Keeps : (n : ℕ) → Keeps p (WithoutHits n)
  unfolding hits record_auth_failure record_rate_limited text text_eq
  WithoutHits-Keeps n = record {
    limiter = λ w s h. h;
    discovery = λ router req w h. h;
    look_up = look_up-WithoutHits n;
    sent = λ r n w h. h;
    slept = λ ms w h. h;
    auth_failure = λ m w h. h;
    rate_limited = λ m w h. h;
    success = λ m status size w h. (h.0, record_success-hits m status size w.metrics ∙ h.1);
  }

  -- Where nothing is in the cache, nothing will be: from a backend that holds nothing, which is one
  -- that has nothing for any key and whose look-ups leave it so, no history of connections and
  -- requests fills the cache, and no answer from it is ever counted.
  pub run-hits :
      (gateway : Gateway p) (es : List (Event p)) (s : Server p)
      → IsEmpty s.world.cache
      → IsEmpty (run p gateway es s).world.cache
        × (hits (run p gateway es s).world.metrics ≡ hits s.world.metrics)
  run-hits gateway es s empty =
      run-kept p (WithoutHits (hits s.world.metrics)) (WithoutHits-Keeps (hits s.world.metrics))
        (λ b w h. (h.0, record_active_connections-hits b w.metrics ∙ h.1)) gateway es s
        (empty, refl)
