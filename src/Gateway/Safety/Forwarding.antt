-- ===== src/Gateway/Safety/Forwarding.antt =====
-- Forwarding a request on a route with short pauses does not panic.
use mini_api_gateway.Common.{
  ℕ, zero, suc, ◌+◌, ◌*◌, ◌/◌, ◌≡◌, ◌≤◌, true, ◌&&◌, Option, none, some, ◌++◌, Text, text, Result,
  ok, err, ltb, ltb→lt, arith, length, ◌>>◌, try, ok_or, map_err,
}
use mini_api_gateway.Error.{proxy}
use mini_api_gateway.Config.{RetryConfig}
use mini_api_gateway.Http.{Request, is_server_error}
use mini_api_gateway.Router.{RouteMatch}
use mini_api_gateway.Client.{ProxyRequest, Upstream}
use mini_api_gateway.Metrics.{RequestMetrics, record_success}
use mini_api_gateway.Platform.{Platform, World, note}
use mini_api_gateway.Proxy.{
  Proxy, backoff_overflow, backoff_of, max_attempts, send_request, back_off, settle, attempts,
  execute_with_retry, respond, finish, forward,
}
use mini_api_gateway.Proxy.Forward.{forwarded}
use mini_api_gateway.Gateway.Serving.Kept.{Keeps}
use mini_api_gateway.Gateway.Safety.{Safe, >>=-Safe, if-Safe, try-Safe}
use mini_api_gateway.Gateway.Safety.Routes.{IsShort, pause_fits}

-- A pause that can be represented.
abbrev Fits : Option ℕ → ℕ → Type 0
Fits none k = Unit {0}
Fits (some ms) k = ltb (ms * k / 1000) backoff_overflow ≡ true

short-Fits :
    (retry : Option RetryConfig) (k : ℕ)
    → IsShort retry
    → k ≤ max_attempts retry
    → Fits (backoff_of retry) k
unfolding backoff_of max_attempts
short-Fits none k h le = tt
short-Fits (some c) k h le = pause_fits c.backoff_ms k c.max_attempts h le

module _ (p : Platform) (P : World p → Type 0) (keeps : Keeps p P) where
  open p.http use {HeaderMap}

  back_off-Safe :
      (backoff : Option ℕ) (attempt : ℕ)
      → Fits backoff attempt
      → Safe p P (back_off p backoff attempt)
  unfolding back_off
  back_off-Safe none attempt f w h = h
  back_off-Safe (some ms) attempt f w h = rw f (keeps.slept (ms * attempt) w h)

  send_request-Safe :
      (r : ProxyRequest HeaderMap) (timeout : Option ℕ) → Safe p P (send_request p r timeout)
  unfolding send_request
  send_request-Safe r timeout w h = keeps.sent r (p.client.send r timeout w.net).1 w h

  module _ (r : ProxyRequest HeaderMap) (backoff timeout : Option ℕ) (max : ℕ)
      (fits : (k : ℕ) → k ≤ max → Fits backoff k) where
    again-Safe :
        (attempt : ℕ) (again : Proxy p (Upstream HeaderMap))
        → Safe p P again
        → ltb attempt max ≡ true
        → Safe p P (back_off p backoff attempt >> again)
    again-Safe attempt again s more =
        let room : attempt ≤ max = ground (arith, ltb→lt attempt max more) in
        >>=-Safe p P (back_off p backoff attempt) (λ u. again)
          (back_off-Safe backoff attempt (fits attempt room)) (λ u. s)

    settle-Safe :
        (attempt : ℕ) (again : Proxy p (Upstream HeaderMap))
        (answer : Result Text (Upstream HeaderMap))
        → Safe p P again
        → Safe p P (settle p r backoff timeout max attempt again answer)
    unfolding settle
    settle-Safe attempt again (ok resp) s =
        if-Safe p P (is_server_error resp.status && ltb attempt max) _ _
          (λ e. again-Safe attempt again s (ground arith)) (λ w h. h)
    settle-Safe attempt again (err e) s =
        if-Safe p P (ltb attempt max) _ _ (again-Safe attempt again s) (λ w h. h)

    attempts-Safe :
        (rounds attempt : ℕ) → Safe p P (attempts p r backoff timeout max rounds attempt)
    unfolding attempts
    attempts-Safe zero attempt = λ w h. h
    attempts-Safe (suc rounds) attempt =
        >>=-Safe p P (try (ok_or (p.client.try_clone r) (proxy (text "Cannot clone request")))) _
          (try-Safe p P _)
          λ request.
            >>=-Safe p P (send_request p request timeout) _ (send_request-Safe request timeout)
              λ answer. settle-Safe attempt _ answer (attempts-Safe rounds (attempt + 1))

  respond-Safe : (up : Upstream HeaderMap) (b : Text) → Safe p P (respond p up b)
  unfolding respond
  respond-Safe up b = try-Safe p P _

  finish-Safe : (m : RequestMetrics) (up : Upstream HeaderMap) → Safe p P (finish p m up)
  unfolding finish
  finish-Safe m up =
      >>=-Safe p P (try (map_err (λ e. proxy (text "Response body error: " ++ e)) up.bytes)) _
        (try-Safe p P _)
        λ bytes w h.
          respond-Safe up bytes (note (record_success m up.status (length bytes)) w)
            (keeps.success m up.status (length bytes) w h)

  -- Forwarding on a route whose longest pause can be represented ends with an answer or an error.
  pub forward-Safe :
      (route : RouteMatch) (m : RequestMetrics) (req : Request HeaderMap)
      → IsShort route.retry
      → Safe p P (forward p route m req)
  unfolding forward execute_with_retry
  forward-Safe route m req short =
      >>=-Safe p P
        (try
          (map_err (λ e. proxy (text "Invalid method: " ++ e)) (p.client.parse_method req.method)))
        _ (try-Safe p P _)
        λ method.
          >>=-Safe p P (try (map_err (λ e. proxy (text "Body read error: " ++ e)) req.body)) _
            (try-Safe p P _)
            λ bytes.
              >>=-Safe p P
                (execute_with_retry p (forwarded p route req method bytes) route.retry
                  route.timeout_ms)
                _
                (attempts-Safe _ (backoff_of route.retry) route.timeout_ms
                  (max_attempts route.retry) (λ k. short-Fits route.retry k short)
                  (max_attempts route.retry) 1)
                (finish-Safe m)
