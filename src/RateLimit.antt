-- ===== src/RateLimit.antt =====
-- src/middleware/rate_limit.rs: the quota, the key of a request, and the service.
pub mod Laws
use mini_api_gateway.Common.{
  ℕ, Bool, true, false, Option, none, some, get_or, ◌==◌, if◌then◌else◌, Text, text, split_first,
  trim, Run, unwrap,
}
use mini_api_gateway.Config.{RateLimitKeyStrategy, global, ip, header, custom, SocketAddr}
use mini_api_gateway.Http.{Http, Request, Response, get_text}

-- `governor::Quota`: the replenishment per second and the burst.
pub record Quota : Type 0 where
  pub per_second : ℕ
  pub burst : ℕ

-- The `governor` crate, which the gateway uses and does not implement. `check_key` decides at the
-- time of the call and keeps count; true is `Ok(())`.
pub record Limiter : Type 1 where
  pub State : Type 0
  pub keyed : Quota → State
  pub check_key : State → Text → Bool × State

-- `NonZeroU32::new(n).unwrap_or(100)`
unfoldable pub non_zero_or_100 : ℕ → ℕ
non_zero_or_100 n = if n == 0 then 100 else n

-- The quota of `RateLimitLayer::new`.
unfoldable pub quota : ℕ → ℕ → Quota
unfolding non_zero_or_100
quota rps burst = record { per_second = non_zero_or_100 rps; burst = non_zero_or_100 burst }

pub record RateLimitLayer : Type 0 where
  pub key_strategy : RateLimitKeyStrategy

-- `RateLimitLayer::new`: the layer, and the state of the limiter that its clones share.
unfoldable pub new :
    (limiter : Limiter) → ℕ → ℕ → RateLimitKeyStrategy → RateLimitLayer × limiter.State
unfolding quota
new limiter rps burst key_strategy =
    (record { key_strategy = key_strategy }, limiter.keyed (quota rps burst))

abbrev first_address : Option Text → Text
first_address none = text "unknown"
first_address (some s) = trim (split_first b',' s)

module _ (http : Http) where
  open http use {HeaderMap, status, body}

  -- `RateLimitLayer::extract_key`, by the address of the connection.
  unfoldable pub extract_key : RateLimitKeyStrategy → Request HeaderMap → Option SocketAddr → Text
  extract_key global req client = text "global"
  extract_key ip req none = text "unknown"
  extract_key ip req (some addr) = addr.ip
  extract_key (header name) req client = get_or (get_text http req.headers name) (text "unknown")
  extract_key (custom key) req client = key

  -- The key that the service and the gateway use, by the headers alone.
  unfoldable pub request_key : RateLimitKeyStrategy → HeaderMap → Text
  request_key global headers = text "global"
  request_key ip headers = first_address (get_text http headers (text "x-forwarded-for"))
  request_key (header name) headers = get_or (get_text http headers name) (text "unknown")
  request_key (custom key) headers = key

  unfoldable pub limited_body : Text
  limited_body = text "{\"error\":\"Rate limit exceeded\",\"retry_after\":1}"

  -- `None` is the panic of `unwrap`.
  unfoldable pub too_many_requests : Option (Response HeaderMap)
  too_many_requests =
      body (http.header (status 429) (text "Content-Type") (text "application/json")) limited_body

  -- `RateLimitService::call`. The state is the limiter's and that of the wrapped service.
  module _ (limiter : Limiter) {W E : Type 0}
      (inner : Request HeaderMap → Run W E (Response HeaderMap)) where
    unfoldable pub checked :
        Bool → Request HeaderMap → Run (limiter.State × W) E (Response HeaderMap)
    checked true req (s, w) = let (f, w') = inner req w in (f, (s, w'))
    checked false req (s, w) = unwrap too_many_requests (s, w)

    unfoldable pub call :
        RateLimitLayer → Request HeaderMap → Run (limiter.State × W) E (Response HeaderMap)
    unfolding checked
    call layer req (s, w) =
        let (admitted, s') = limiter.check_key s (request_key layer.key_strategy req.headers) in
        checked admitted req (s', w)

    -- `RateLimitLayer::layer`: the service that the layer makes of another.
    unfoldable pub layer :
        RateLimitLayer → Request HeaderMap → Run (limiter.State × W) E (Response HeaderMap)
    unfolding call
    layer l = call l
