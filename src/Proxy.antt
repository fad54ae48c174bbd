-- ===== src/Proxy.antt =====
-- src/proxy.rs: the forwarding of a request to its upstream server, with retries, and the choice
-- among several endpoints.
pub mod Headers
pub mod Forward
pub mod Retry
pub mod Target
pub mod Balance
use mini_api_gateway.Common.{
  ℕ, zero, suc, ◌+◌, ◌*◌, ◌/◌, ◌%◌, ◌^◌, Bool, ◌&&◌, ◌||◌, Option, none, some, get_or, List, [],
  ◌∷◌, ◌++◌, any, length, get_elem?, ltb, if◌then◌else◌, Text, text, text_eq, to_lowercase,
  strip_prefix, decimal, Result, ok, err, ok_or, map_err, Run, ◌>>=◌, ◌>>◌, pure, leave, panic,
  next, unwrap, modify, try,
}
use mini_api_gateway.Config.{
  RetryConfig, LoadBalanceStrategy, round_robin, random, least_connections, ip_hash,
}
use mini_api_gateway.Error.{GatewayError, proxy, http_body, upstream_unavailable}
use mini_api_gateway.Http.{Request, Response, is_server_error}
use mini_api_gateway.Metrics.{RequestMetrics, record_success}
use mini_api_gateway.Router.{RouteMatch}
use mini_api_gateway.Client.{ProxyRequest, Upstream}
use mini_api_gateway.Platform.{Platform, World, note}

-- The headers that end at the gateway.
abbrev pub hop_by_hop : List Text
hop_by_hop =
    text "host"
    ∷ text "connection"
    ∷ text "keep-alive"
    ∷ text "proxy-authenticate"
    ∷ text "proxy-authorization"
    ∷ text "te"
    ∷ text "trailers"
    ∷ text "transfer-encoding"
    ∷ text "upgrade"
    ∷ []

unfoldable pub is_hop_by_hop : Text → Bool
is_hop_by_hop key = any (λ h. text_eq (to_lowercase key) h) hop_by_hop

-- The headers of a response that the gateway does not pass on.
unfoldable pub is_dropped : Text → Bool
is_dropped key =
    text_eq (to_lowercase key) (text "transfer-encoding")
    || text_eq (to_lowercase key) (text "content-encoding")

unfoldable pub target_path : Option Text → Text → Text
target_path none path = path
target_path (some prefix) path = get_or (strip_prefix path prefix) path

abbrev pub query_part : Option Text → Text
query_part none = []
query_part (some q) = text "?" ++ q

unfoldable pub target_url : RouteMatch → {H : Type 0} → Request H → Text
unfolding target_path
target_url route req =
    route.upstream_url ++ (target_path route.strip_prefix req.path ++ query_part req.query)

abbrev pub backoff_overflow : ℕ
backoff_overflow = 2 ^ 64

pub failed_after : ℕ → Text → GatewayError
failed_after max e =
    proxy (text "Request failed after " ++ (decimal max ++ (text " attempts: " ++ e)))

unfoldable pub max_attempts : Option RetryConfig → ℕ
max_attempts none = 1
max_attempts (some c) = c.max_attempts

unfoldable pub backoff_of : Option RetryConfig → Option ℕ
backoff_of none = none
backoff_of (some c) = some c.backoff_ms

module _ (p : Platform) where
  open p use {http, client}
  open p.http use {HeaderMap, Builder, insert, entries, status, header, body, error}
  open p.client use {Net, parse_method, try_clone, send}

  abbrev pub Proxy : Type 0 → Type 0
  Proxy = Run (World p) GatewayError

  -- The headers that go to the upstream server. A name and a value of a header map are valid, so
  -- that the two `unwrap` calls of the source do not panic.
  pub forward_headers : List (Text × Text) → HeaderMap → HeaderMap
  forward_headers [] m = m
  forward_headers ((key, value) ∷ es) m =
      forward_headers es (if is_hop_by_hop key then m else insert m key value)

  -- The headers that come back.
  pub return_headers : List (Text × Text) → Builder → Builder
  return_headers [] b = b
  return_headers ((key, value) ∷ es) b =
      return_headers es (if is_dropped key then b else header b key value)

  -- `request.send()`: the request is in the trace, whatever becomes of it.
  unfoldable pub send_request :
      ProxyRequest HeaderMap → Option ℕ → Proxy (Result Text (Upstream HeaderMap))
  send_request r timeout w =
      let (answer, net') = send r timeout w.net in
      (next answer, record w { net = net'; sent = r ∷ w.sent })

  -- `sleep(b * attempt)`: the product of a duration panics where its seconds pass 64 bits.
  unfoldable pub back_off : Option ℕ → ℕ → Proxy (Unit {0})
  back_off none attempt w = (next tt, w)
  back_off (some ms) attempt w =
      if ltb (ms * attempt / 1000) backoff_overflow
      then (next tt, record w { slept = ms * attempt ∷ w.slept })
      else (panic, w)

  module _ (r : ProxyRequest HeaderMap) (backoff timeout : Option ℕ) (max : ℕ) where
    -- What is done with the answer to a try, where `again` is the rest of the loop.
    unfoldable pub settle :
        ℕ
        → Proxy (Upstream HeaderMap)
        → Result Text (Upstream HeaderMap)
        → Proxy (Upstream HeaderMap)
    settle attempt again (ok resp) =
        if is_server_error resp.status && ltb attempt max
        then (back_off backoff attempt >> again)
        else pure resp
    settle attempt again (err e) =
        if ltb attempt max then (back_off backoff attempt >> again) else leave (failed_after max e)

    -- The loop of `execute_with_retry`, by the rounds that are left.
    unfoldable pub attempts : ℕ → ℕ → Proxy (Upstream HeaderMap)
    attempts zero attempt = leave upstream_unavailable
    attempts (suc rounds) attempt =
        let again = attempts rounds (attempt + 1) in
        do
          request ← try (ok_or (try_clone r) (proxy (text "Cannot clone request")))
          answer ← send_request request timeout
          settle attempt again answer

  unfoldable pub execute_with_retry :
      ProxyRequest HeaderMap → Option RetryConfig → Option ℕ → Proxy (Upstream HeaderMap)
  execute_with_retry r retry timeout =
      attempts r (backoff_of retry) timeout (max_attempts retry) (max_attempts retry) 1

  -- The response to the client, built from the upstream's and its body.
  unfoldable pub respond : Upstream HeaderMap → Text → Proxy (Response HeaderMap)
  respond up bytes =
      let b = return_headers (entries up.headers) (status up.status) in
      try (ok_or (body b bytes) (http_body (error b)))

  unfoldable pub finish : RequestMetrics → Upstream HeaderMap → Proxy (Response HeaderMap)
  unfolding respond
  finish metrics up = do
    bytes ← try (map_err (λ e. proxy (text "Response body error: " ++ e)) up.bytes)
    modify (note (record_success metrics up.status (length bytes)))
    respond up bytes

  unfoldable pub forward :
      RouteMatch → RequestMetrics → Request HeaderMap → Proxy (Response HeaderMap)
  unfolding finish
  forward route metrics req = do
    method ← try (map_err (λ e. proxy (text "Invalid method: " ++ e)) (parse_method req.method))
    bytes ← try (map_err (λ e. proxy (text "Body read error: " ++ e)) req.body)
    up ←
        execute_with_retry
          (record {
            method = method;
            url = target_url route req;
            headers = forward_headers (entries req.headers) http.empty;
            body = bytes;
          })
          route.retry route.timeout_ms
    finish metrics up

-- `endpoints[i]`: an index out of range panics.
unfoldable pub index : {W R : Type 0} → List Text → ℕ → Run W R Text
index xs i = unwrap (get_elem? xs i)

-- `fetch_add(1)` on the counter, which wraps, and the index that its old value gives.
unfoldable pub next_endpoint : {R : Type 0} → List Text → Run ℕ R Text
unfolding index
next_endpoint endpoints counter =
    index endpoints (counter % length endpoints) ((counter + 1) % 2 ^ 64)

-- `select_endpoint`, over the counter. The standard library's hash of the time and of an address
-- are parameters. An early return is the answer `None`.
unfoldable pub select_endpoint :
    (hash : Text → ℕ) (time_hash : ℕ)
    → List Text
    → LoadBalanceStrategy
    → Option Text
    → Run ℕ (Option Text) Text
unfolding next_endpoint
select_endpoint hash time_hash [] strategy client = leave none
select_endpoint hash time_hash (e ∷ es) round_robin client = next_endpoint (e ∷ es)
select_endpoint hash time_hash (e ∷ es) random client = index (e ∷ es) (time_hash % length (e ∷ es))
select_endpoint hash time_hash (e ∷ es) ip_hash none = index (e ∷ es) 0
select_endpoint hash time_hash (e ∷ es) ip_hash (some ip) =
    index (e ∷ es) (hash ip % length (e ∷ es))
select_endpoint hash time_hash (e ∷ es) least_connections client = next_endpoint (e ∷ es)
