-- ===== src/Cache/Rules.antt =====
-- Which responses are kept in the cache.
use mini_api_gateway.Common.{
  ℕ, ◌≡◌, ◌↔◌, refl, subst, true, false, any, any_sound, any_none, none_any, any_complete, Memᴰ,
  ◌==◌, arith, Text, starts_with, eq_ignore_ascii_case,
}
use mini_api_gateway.Config.{CacheConfig}
use mini_api_gateway.Cache.{should_cache}

-- The rules of a configuration: it is enabled, lists the method in any case and the status, and
-- excludes no prefix of the path.
pub record IsCacheable (config : CacheConfig) (method path : Text) (status : ℕ) : Type 0 where
  pub enabled : config.enabled ≡ true
  pub method_listed :
      (m : Text) × Memᴰ m config.cacheable_methods × (eq_ignore_ascii_case m method ≡ true)
  pub status_listed : Memᴰ status config.cacheable_statuses
  pub not_excluded : (p : Text) → Memᴰ p config.excluded_paths → starts_with path p ≡ false

-- A response is cached exactly where the rules allow it.
pub should_cache_iff :
    (config : CacheConfig) (method path : Text) (status : ℕ)
    → (should_cache config method path status ≡ true) ↔ IsCacheable config method path status
unfolding should_cache
should_cache_iff config method path status = (sound, complete)
  where
    sound : should_cache config method path status ≡ true → IsCacheable config method path status
    sound h =
        let found : any (λ s. s == status) config.cacheable_statuses ≡ true = ground arith in
        let (s, m, e) = any_sound (λ s. s == status) config.cacheable_statuses found in
        record {
          enabled = ground arith;
          method_listed =
              any_sound (λ m. eq_ignore_ascii_case m method) config.cacheable_methods
                (ground arith);
          status_listed = subst (λ (x : ℕ). Memᴰ x config.cacheable_statuses) (ground arith) m;
          not_excluded = any_none (λ p. starts_with path p) config.excluded_paths (ground arith);
        }

    complete : IsCacheable config method path status → should_cache config method path status ≡ true
    complete c =
        let (m, listed, e) = c.method_listed in
        rw
          (
            c.enabled,
            any_complete (λ m. eq_ignore_ascii_case m method) config.cacheable_methods m listed e,
            any_complete (λ s. s == status) config.cacheable_statuses status c.status_listed
                (ground arith),
            none_any (λ p. starts_with path p) config.excluded_paths c.not_excluded,
          )
          refl
