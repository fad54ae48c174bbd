-- ===== src/RateLimit/Laws.antt =====
-- What the rate limit service lets through, and the quota that it asks for.
use mini_api_gateway.Common.{ℕ, ◌≡◌, ◌<◌, refl, true, false, text, Run, next, arith}
use mini_api_gateway.Http.{Http, Request, Response}
use mini_api_gateway.RateLimit.{
  Limiter, RateLimitLayer, non_zero_or_100, quota, request_key, checked, call,
}
use mini_api_gateway.Gateway.Stages.{Says, too_many_requests-Says}

-- The quota that the limiter is built with is never zero, whatever is configured.
quota-positive :
    (rps burst : ℕ) → (0 < (quota rps burst).per_second) × (0 < (quota rps burst).burst)
unfolding quota non_zero_or_100
quota-positive rps burst = (ground arith, ground arith)

module _ (http : Http) (limiter : Limiter) {W : Type 0} {E : Type 0}
    (inner : Request http.HeaderMap → Run W E (Response http.HeaderMap)) where
  open http use {HeaderMap}

  -- Where the limiter has room for the key of the request, the answer is the wrapped service's.
  call-granted :
      (layer : RateLimitLayer) (req : Request HeaderMap) (s t : limiter.State) (w : W)
      → limiter.check_key s (request_key http layer.key_strategy req.headers) ≡ (true, t)
      → call http limiter inner layer req (s, w) ≡ ((inner req w).0, (t, (inner req w).1))
  unfolding call checked
  call-granted layer req s t w e = rw e refl

  -- Where the limiter has no room for the key of the request, the answer is 429 and the wrapped
  -- service is not called: its state is unchanged.
  call-limited :
      (layer : RateLimitLayer) (req : Request HeaderMap) (s t : limiter.State) (w : W)
      → limiter.check_key s (request_key http layer.key_strategy req.headers) ≡ (false, t)
      → (r : Response HeaderMap) × (call http limiter inner layer req (s, w) ≡ (next r, (t, w)))
        × Says http 429 (text "Content-Type") (text "application/json") r
  unfolding call checked
  call-limited layer req s t w e =
      let (r, built, says) = too_many_requests-Says http in (r, rw (e, built) refl, says)
