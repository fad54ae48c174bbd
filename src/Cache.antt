-- ===== src/Cache.antt =====
-- src/cache/mod.rs: the interface of the cache backends and the cache layer.
pub mod Memory
pub mod Keys
pub mod Rules
pub mod Redis
pub mod Service
pub mod Backend
use mini_api_gateway.Common.{
  ℕ, Bool, false, not, Option, none, some, List, [], ◌∷◌, ◌++◌, any, ◌==◌, if◌then◌else◌, Text,
  text, starts_with, eq_ignore_ascii_case, Result,
}
use mini_api_gateway.Config.{CacheConfig, CacheKeyStrategy, uri, uri_with_method, uri_with_headers}
use mini_api_gateway.Error.{GatewayError}
use mini_api_gateway.Http.{Http, Request}

pub record CachedResponse : Type 0 where
  pub status : ℕ
  pub headers : List (Text × Text)
  pub body : Text

-- `trait CacheBackendTrait`, over the state that the clones of a backend share.
pub record CacheBackendTrait : Type 1 where
  pub Store : Type 0
  pub get : Store → Text → Result GatewayError (Option CachedResponse) × Store
  pub set : Store → Text → CachedResponse → ℕ → Result GatewayError (Unit {0}) × Store
  pub delete : Store → Text → Result GatewayError (Unit {0}) × Store
  pub clear : Store → Result GatewayError (Unit {0}) × Store

-- The tests of `should_cache`, on the method and the path that it reads of the request.
unfoldable pub should_cache : CacheConfig → (method path : Text) → ℕ → Bool
should_cache config method path status =
    if not config.enabled
    then false
    else if not (any (λ m. eq_ignore_ascii_case m method) config.cacheable_methods)
    then false
    else if not (any (λ s. s == status) config.cacheable_statuses)
    then false
    else not (any (λ p. starts_with path p) config.excluded_paths)

module _ (http : Http) (lossy : Text → Text) where
  open http use {HeaderMap}

  -- The values of the listed headers, each behind a colon. `lossy` is `String::from_utf8_lossy`.
  unfoldable pub header_values : List Text → HeaderMap → Text
  header_values [] headers = []
  header_values (name ∷ names) headers =
      let rest = header_values names headers in
      elim (http.get headers name) [ none ↦ rest | some v ↦ b':' ∷ (lossy v ++ rest) ]

  unfoldable pub build_key : CacheKeyStrategy → Request HeaderMap → Text
  build_key uri req = text "cache:" ++ req.uri
  build_key uri_with_method req = text "cache:" ++ (req.method ++ (text ":" ++ req.uri))
  build_key (uri_with_headers names) req =
      text "cache:" ++ (req.method ++ (text ":" ++ (req.uri ++ header_values names req.headers)))

  module _ (backend : CacheBackendTrait) where
    open backend use {Store}

    -- `CacheLayer::get` and `CacheLayer::set`.
    unfoldable pub get :
        CacheConfig
        → Request HeaderMap
        → Store
        → Result GatewayError (Option CachedResponse) × Store
    get config req s = backend.get s (build_key config.key_strategy req)

    unfoldable pub set :
        CacheConfig → Text → CachedResponse → Store → Result GatewayError (Unit {0}) × Store
    set config key value s = backend.set s key value config.default_ttl_secs
