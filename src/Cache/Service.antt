-- ===== src/Cache/Service.antt =====
-- src/middleware/cache.rs: the cache as a service around another. A service is called in two steps: the
-- call itself, which returns a future, and the future, which runs only when it is awaited.
pub mod Laws
use mini_api_gateway.Common.{
  Option, none, some, List, [], ◌∷◌, if◌then◌else◌, Text, text, text_eq, Result, ok, err, Flow,
  next, stop, panic, Run, unwrap,
}
use mini_api_gateway.Config.{CacheConfig}
use mini_api_gateway.Error.{GatewayError}
use mini_api_gateway.Http.{Http, Request, Response}
use mini_api_gateway.Cache.{CachedResponse, CacheBackendTrait, should_cache, build_key}
use mini_api_gateway.Cache

-- What a call does at once, and the future that it returns.
abbrev pub Service : Type 0 → Type 0 → Type 0 → Type 0
Service H W E = Request H → W → Run W E (Response H) × W

-- A run beside a state that it leaves alone.
abbrev pub beside : {S W E A : Type 0} → S → Flow E A × W → Flow E A × (S × W)
beside s (f, w) = (f, (s, w))

module _ (http : Http) (lossy : Text → Text) (backend : CacheBackendTrait) where
  open http use {HeaderMap, Builder, entries, status, header, body}
  open backend use {Store}

  -- Headers that are put on a builder one by one.
  unfoldable pub put_headers : List (Text × Text) → Builder → Builder
  put_headers [] b = b
  put_headers ((name, value) ∷ hs) b = put_headers hs (header b name value)

  -- The response that is built from a stored one.
  unfoldable pub hit_response : CachedResponse → Option (Response HeaderMap)
  unfolding put_headers
  hit_response c =
      body (header (put_headers c.headers (status c.status)) (text "X-Cache") (text "HIT")) c.body

  -- What is stored of a response.
  abbrev pub to_cached : Response HeaderMap → CachedResponse
  to_cached r = record { status = r.status; headers = entries r.headers; body = r.body }

  unfoldable pub miss_response : Response HeaderMap → Option (Response HeaderMap)
  unfolding put_headers
  miss_response r =
      body
        (header (put_headers (entries r.headers) (status r.status)) (text "X-Cache") (text "MISS"))
        r.body

  module _ {W E : Type 0} (config : CacheConfig) where
    -- The response of the wrapped service is stored, whether that succeeds or not. `should_cache` is
    -- asked about an empty request, which is a GET of `/`.
    unfoldable pub store :
        (key : Text) → Response HeaderMap → Run (Store × W) E (Response HeaderMap)
    store key r (s, w) =
        if should_cache config (text "GET") (text "/") r.status
        then unwrap (miss_response r)
            ((Cache.set http lossy backend config key (to_cached r) s).1, w)
        else (next r, (s, w))

    unfoldable pub stored_flow :
        (key : Text)
        → Store
        → Flow E (Response HeaderMap) × W
        → Flow E (Response HeaderMap) × (Store × W)
    unfolding store
    stored_flow key s (next r, w) = store key r (s, w)
    stored_flow key s (stop e, w) = (stop e, (s, w))
    stored_flow key s (panic, w) = (panic, (s, w))

    -- What the answer of the backend leads to, where `future` is the wrapped service's.
    unfoldable pub answered :
        (key : Text)
        → Run W E (Response HeaderMap)
        → Result GatewayError (Option CachedResponse)
        → Run (Store × W) E (Response HeaderMap)
    unfolding stored_flow
    answered key future (ok (some cached)) (s, w) = unwrap (hit_response cached) (s, w)
    answered key future (ok none) (s, w) = stored_flow key s (future w)
    answered key future (err e) (s, w) = stored_flow key s (future w)

    -- `CacheMiddlewareService::call`, with its future awaited.
    unfoldable pub call :
        Service HeaderMap W E → Request HeaderMap → Run (Store × W) E (Response HeaderMap)
    unfolding answered
    call inner req (s, w) =
        let (future, w') = inner req w in
        let key = build_key http lossy config.key_strategy req in
        let (found, s') = backend.get s key in
        if text_eq req.method (text "GET")
        then answered key future found (s', w')
        else beside s (future w')

    -- `CacheMiddlewareLayer::layer`: the service that the layer makes of another.
    unfoldable pub layer :
        Service HeaderMap W E → Request HeaderMap → Run (Store × W) E (Response HeaderMap)
    unfolding call
    layer inner = call inner
