-- ===== src/Gateway/Serving/Kept.antt =====
-- What forwarding a request keeps: a property of the world that each of its effects keeps.
use mini_api_gateway.Common.{
  ℕ, zero, suc, ◌+◌, ◌∷◌, inl, inr, Bool, true, false, Option, none, some, ◌++◌, if◌then◌else◌,
  Text, text, Result, ok, err, Flow, next, stop, panic, Run, ◌>>=◌, try, ok_or, map_err, unwrap,
  ltb, ◌*◌, ◌/◌, Bool-cases, length,
}
use mini_api_gateway.Error.{GatewayError, proxy}
use mini_api_gateway.Config.{CacheConfig}
use mini_api_gateway.Http.{Request}
use mini_api_gateway.Router.{Router, RouteMatch, match_route}
use mini_api_gateway.Client.{ProxyRequest, Upstream}
use mini_api_gateway.Metrics.{
  RequestMetrics, record_auth_failure, record_rate_limited, record_success,
}
use mini_api_gateway.Platform.{Platform, World, note}
use mini_api_gateway.Proxy.{
  backoff_overflow, backoff_of, max_attempts, send_request, back_off, settle, attempts,
  execute_with_retry, respond, finish, forward,
}
use mini_api_gateway.Proxy.Forward.{forwarded}
use mini_api_gateway.Gateway.{look_up}

module _ (p : Platform) (P : World p → Type 0) where
  open p.http use {HeaderMap}

  -- Each effect that a request can have keeps the property: a check of the limiter, a resolution, a
  -- look-up in the cache with what it counts, a message to the network, a pause, and the other counts.
  pub record Keeps : Type 0 where
    pub limiter : (w : World p) (s : p.limiter.State) → P w → P (record w { limiter = s })
    pub discovery :
        (router : Router p.regex.Regex) (req : Request HeaderMap) (w : World p)
        → P w
        → P (record w { discovery = (match_route p.discovery p.regex router w.discovery req).1 })
    pub look_up :
        (config : CacheConfig) (m : RequestMetrics) (req : Request HeaderMap) (w : World p)
        → P w
        → P (look_up p config m req w).1
    pub sent :
        (r : ProxyRequest HeaderMap) (n : p.client.Net) (w : World p)
        → P w
        → P (record w { net = n; sent = r ∷ w.sent })
    pub slept : (ms : ℕ) (w : World p) → P w → P (record w { slept = ms ∷ w.slept })
    pub auth_failure : (m : RequestMetrics) (w : World p) → P w → P (note (record_auth_failure m) w)
    pub rate_limited : (m : RequestMetrics) (w : World p) → P w → P (note (record_rate_limited m) w)
    pub success :
        (m : RequestMetrics) (status size : ℕ) (w : World p)
        → P w
        → P (note (record_success m status size) w)

  -- Code that keeps the property.
  abbrev pub Steady : {R A : Type 0} → Run (World p) R A → Type 0
  Steady m = (w : World p) → P w → P (m w).1

  pub >>=-Steady :
      {R A B : Type 0} (m : Run (World p) R A) (k : A → Run (World p) R B)
      → Steady m
      → ((a : A) → Steady (k a))
      → Steady (m >>= k)
  >>=-Steady {R} {A} m k f g w h = go (m w) (f w h)
    where
      go : (x : Flow R A × World p) → P x.1 → P (((λ (u : World p). x) >>= k) w).1
      go (next a, v) e = g a v e
      go (stop r, v) e = e
      go (panic, v) e = e

  pub if-Steady :
      {R A : Type 0} (b : Bool) (m n : Run (World p) R A)
      → Steady m
      → Steady n
      → Steady (if b then m else n)
  if-Steady true m n f g = f
  if-Steady false m n f g = g

  try-Steady : {E A : Type 0} (r : Result E A) → Steady (try r)
  try-Steady (ok a) w h = h
  try-Steady (err e) w h = h

  pub unwrap-Steady : (R : Type 0) {A : Type 0} (o : Option A) → Steady {R = R} (unwrap o)
  unwrap-Steady R none w h = h
  unwrap-Steady R (some a) w h = h

  module _ (keeps : Keeps) where
    back_off-Steady : (b : Option ℕ) (attempt : ℕ) → Steady (back_off p b attempt)
    unfolding back_off
    back_off-Steady none attempt w h = h
    back_off-Steady (some ms) attempt w h =
        elim (Bool-cases (ltb (ms * attempt / 1000) backoff_overflow)) [
          | inl y ↦ rw y (keeps.slept (ms * attempt) w h)
          | inr n ↦ rw n h
        ]

    send_request-Steady :
        (r : ProxyRequest HeaderMap) (timeout : Option ℕ) → Steady (send_request p r timeout)
    unfolding send_request
    send_request-Steady r timeout w h = keeps.sent r (p.client.send r timeout w.net).1 w h

    module _ (r : ProxyRequest HeaderMap) (backoff timeout : Option ℕ) (max : ℕ) where
      settle-Steady :
          (attempt : ℕ) (again : Run (World p) GatewayError (Upstream HeaderMap))
          (answer : Result Text (Upstream HeaderMap))
          → Steady again
          → Steady (settle p r backoff timeout max attempt again answer)
      unfolding settle
      settle-Steady attempt again (ok resp) s =
          if-Steady _ _ _ (>>=-Steady _ _ (back_off-Steady backoff attempt) (λ u. s)) (λ w h. h)
      settle-Steady attempt again (err e) s =
          if-Steady _ _ _ (>>=-Steady _ _ (back_off-Steady backoff attempt) (λ u. s)) (λ w h. h)

      attempts-Steady :
          (rounds attempt : ℕ) → Steady (attempts p r backoff timeout max rounds attempt)
      unfolding attempts
      attempts-Steady zero attempt = λ w h. h
      attempts-Steady (suc rounds) attempt =
          >>=-Steady (try (ok_or (p.client.try_clone r) (proxy (text "Cannot clone request")))) _
            (try-Steady _)
            λ request.
              >>=-Steady (send_request p request timeout) _ (send_request-Steady request timeout)
                λ answer. settle-Steady attempt _ answer (attempts-Steady rounds (attempt + 1))

    respond-Steady : (up : Upstream HeaderMap) (b : Text) → Steady (respond p up b)
    unfolding respond
    respond-Steady up b = try-Steady _

    finish-Steady : (m : RequestMetrics) (up : Upstream HeaderMap) → Steady (finish p m up)
    unfolding finish
    finish-Steady m up =
        >>=-Steady (try (map_err (λ e. proxy (text "Response body error: " ++ e)) up.bytes)) _
          (try-Steady _)
          λ bytes w h.
            respond-Steady up bytes (note (record_success m up.status (length bytes)) w)
              (keeps.success m up.status (length bytes) w h)

    pub forward-Steady :
        (route : RouteMatch) (m : RequestMetrics) (req : Request HeaderMap)
        → Steady (forward p route m req)
    unfolding forward execute_with_retry
    forward-Steady route m req =
        >>=-Steady
          (try (
            map_err (λ e. proxy (text "Invalid method: " ++ e)) (p.client.parse_method req.method)))
          _ (try-Steady _)
          λ method.
            >>=-Steady (try (map_err (λ e. proxy (text "Body read error: " ++ e)) req.body)) _
              (try-Steady _)
              λ bytes.
                >>=-Steady
                  (execute_with_retry p (forwarded p route req method bytes) route.retry
                    route.timeout_ms)
                  _
                  (attempts-Steady _ (backoff_of route.retry) route.timeout_ms
                    (max_attempts route.retry) (max_attempts route.retry) 1)
                  (finish-Steady m)
