-- ===== src/Proxy/Forward.antt =====
-- The whole way of a request through the proxy.
use mini_api_gateway.Common.{
  ℕ, suc, ◌<◌, ◌≤◌, ◌≡◌, refl, ap, length, ◌∙◌, Option, ◌++◌, replicate, Text, Result, ok, err,
  Flow, next, stop, panic, ◌>>=◌, try, arith, true,
}
use mini_api_gateway.Error.{GatewayError}
use mini_api_gateway.Http.{Request}
use mini_api_gateway.Client.{ProxyRequest, Upstream}
use mini_api_gateway.Router.{RouteMatch}
use mini_api_gateway.Metrics.{RequestMetrics, record_success}
use mini_api_gateway.Platform.{Platform, World, note}
use mini_api_gateway.Proxy.{
  target_url, forward_headers, max_attempts, backoff_of, respond, finish, forward,
}
use mini_api_gateway.Proxy.Retry.{Ends, execute_with_retry-Ends}

module _ (p : Platform) where
  open p.http use {HeaderMap, entries, empty}

  -- The request that is sent upstream.
  abbrev pub forwarded :
      RouteMatch → Request HeaderMap → (method bytes : Text) → ProxyRequest HeaderMap
  forwarded route req method bytes = record {
    method = method;
    url = target_url route req;
    headers = forward_headers p (entries req.headers) empty;
    body = bytes;
  }

  -- Nothing was sent, and the shared states are as before.
  record Keeps (w w' : World p) : Type 0 where
    sent : w'.sent ≡ w.sent
    limiter : w'.limiter ≡ w.limiter
    cache : w'.cache ≡ w.cache
    discovery : w'.discovery ≡ w.discovery

  try-world : {A : Type 0} (r : Result GatewayError A) (w : World p) → (try r w).1 ≡ w
  try-world (ok a) w = refl
  try-world (err e) w = refl

  respond-world : (up : Upstream HeaderMap) (b : Text) (w : World p) → (respond p up b w).1 ≡ w
  unfolding respond
  respond-world up b w = try-world _ w

  respond-Keeps : (up : Upstream HeaderMap) (b : Text) (w : World p) → Keeps w (respond p up b w).1
  respond-Keeps up b w =
      let e = respond-world up b w in
      record {
        sent = ap (λ (x : World p). x.sent) e;
        limiter = ap (λ (x : World p). x.limiter) e;
        cache = ap (λ (x : World p). x.cache) e;
        discovery = ap (λ (x : World p). x.discovery) e;
      }

  finish-Keeps :
      (m : RequestMetrics) (up : Upstream HeaderMap) (w : World p) → Keeps w (finish p m up w).1
  unfolding finish
  finish-Keeps m up w = go up.bytes refl
    where
      go : (b : Result Text Text) → up.bytes ≡ b → Keeps w (finish p m up w).1
      go (ok b) e =
          let q = respond-Keeps up b (note (record_success m up.status (length b)) w) in
          rw e (record {
            sent = q.sent;
            limiter = q.limiter;
            cache = q.cache;
            discovery = q.discovery;
          })
      go (err t) e = rw e (record { sent = refl; limiter = refl; cache = refl; discovery = refl })

  -- What forwarding a request has done: `tries` equal requests were sent upstream, at most as many as
  -- the route allows, and the shared states are as before.
  pub record Forwards (r : ProxyRequest HeaderMap) (max : ℕ) (w w' : World p) : Type 0 where
    pub tries : ℕ
    pub at_least_one : 0 < tries
    pub at_most : tries ≤ max
    pub sent : w'.sent ≡ replicate tries r ++ w.sent
    pub limiter : w'.limiter ≡ w.limiter
    pub cache : w'.cache ≡ w.cache
    pub discovery : w'.discovery ≡ w.discovery

  finished :
      (r : ProxyRequest HeaderMap) (backoff timeout : Option ℕ) (max : ℕ) (m : RequestMetrics)
      (w : World p) (x : Flow GatewayError (Upstream HeaderMap) × World p)
      → Ends p r backoff timeout max w x
      → Forwards r max w (((λ (u : World p). x) >>= finish p m) w).1
  finished r backoff timeout max m w (next up, w') (k, room, b, a, j) =
      let q = finish-Keeps m up w' in
      record {
        tries = suc k;
        at_least_one = omega arith;
        at_most = room;
        sent = q.sent ∙ a.sent;
        limiter = q.limiter ∙ a.limiter;
        cache = q.cache ∙ a.cache;
        discovery = q.discovery ∙ a.discovery;
      }
  finished r backoff timeout max m w (stop e, w') (k, room, b, a, j) = record {
    tries = suc k;
    at_least_one = omega arith;
    at_most = room;
    sent = a.sent;
    limiter = a.limiter;
    cache = a.cache;
    discovery = a.discovery;
  }
  finished r backoff timeout max m w (panic, w') (k, room, b, a, j) = record {
    tries = suc k;
    at_least_one = omega arith;
    at_most = room;
    sent = a.sent;
    limiter = a.limiter;
    cache = a.cache;
    discovery = a.discovery;
  }

  -- Forwarding a request with a valid method and a whole body, on a route with a valid URL and at
  -- least one attempt, sends the same request at least once and at most as often as the route
  -- allows, and nothing else: to the target's URL, with the headers that are forwarded, and the whole
  -- body. The rate limiter, the cache and the discovery are as before, whatever it answers.
  pub forward-Forwards :
      (route : RouteMatch) (m : RequestMetrics) (req : Request HeaderMap) (w : World p)
      {method bytes : Text}
      → p.client.parse_method req.method ≡ ok method
      → req.body ≡ ok bytes
      → p.client.valid_url (target_url route req) ≡ true
      → 0 < max_attempts route.retry
      → Forwards
          (forwarded route req method bytes)
          (max_attempts route.retry)
          w
          (forward p route m req w).1
  unfolding forward target_url
  forward-Forwards route m req w {method} {bytes} e b v h =
      rw (e, b)
        (finished (forwarded route req method bytes) (backoff_of route.retry) route.timeout_ms
          (max_attempts route.retry) m w _
          (execute_with_retry-Ends p (forwarded route req method bytes) route.retry route.timeout_ms
            w v h))
