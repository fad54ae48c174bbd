-- ===== src/Cache/Memory.antt =====
-- src/cache/memory.rs: the cache in memory, and that it answers with nothing or with the value
-- that was set last.
use mini_api_gateway.Common.{
  ℕ, ◌≡◌, refl, sym, ◌⊎◌, inl, inr, ◌≢◌, Option, none, some, get_or, List, [], ◌∷◌, Text, Result,
  ok, if◌then◌else◌, text_eq, text_eq_iff, arith,
}
use mini_api_gateway.Error.{GatewayError}
use mini_api_gateway.Cache.{CachedResponse, CacheBackendTrait}

-- The `moka` crate, which the gateway uses and does not implement. A cache may drop an entry at any
-- time, and never answers with any other value than the one that was inserted last.
pub record Moka : Type 1 where
  pub Cache : Type 0
  pub build : (max_capacity : ℕ) → Cache
  pub get : Cache → Text → Option CachedResponse × Cache
  pub insert : Cache → Text → CachedResponse → Cache
  pub invalidate : Cache → Text → Cache
  pub invalidate_all : Cache → Cache
  pub get-build : (n : ℕ) (j : Text) → (get (build n) j).0 ≡ none
  pub get-get :
      (c : Cache) (k j : Text) (u : CachedResponse)
      → (get (get c k).1 j).0 ≡ some u
      → (get c j).0 ≡ some u
  pub get-insert :
      (c : Cache) (k j : Text) (v u : CachedResponse)
      → (get (insert c k v) j).0 ≡ some u
      → ((k ≡ j) × (u ≡ v)) ⊎ ((k ≢ j) × ((get c j).0 ≡ some u))
  pub get-invalidate :
      (c : Cache) (k j : Text) (u : CachedResponse)
      → (get (invalidate c k) j).0 ≡ some u
      → (k ≢ j) × ((get c j).0 ≡ some u)
  pub get-invalidate_all : (c : Cache) (j : Text) → (get (invalidate_all c) j).0 ≡ none

-- The calls of a backend's methods.
pub data Call : Type 0 where
  get delete : Text → Call
  set : Text → CachedResponse → (ttl : ℕ) → Call
  clear : Call

-- The value that a history of calls, newest first, leaves for a key: an unbounded map that
-- forgets nothing.
unfoldable pub last_set : Text → List Call → Option CachedResponse
last_set j [] = none
last_set j (get k ∷ cs) = last_set j cs
last_set j (delete k ∷ cs) = if text_eq k j then none else last_set j cs
last_set j (set k v ttl ∷ cs) = if text_eq k j then some v else last_set j cs
last_set j (clear ∷ cs) = none

module _ (moka : Moka) where
  open moka use {Cache, build, insert, invalidate, invalidate_all}

  -- `MemoryCache::new`
  unfoldable pub new : Option ℕ → Cache
  new max_capacity = build (get_or max_capacity 10_000)

  unfoldable pub memory_get : Cache → Text → Result GatewayError (Option CachedResponse) × Cache
  memory_get c key = let (found, c') = moka.get c key in (ok found, c')

  unfoldable pub memory_set :
      Cache → Text → CachedResponse → (ttl : ℕ) → Result GatewayError (Unit {0}) × Cache
  memory_set c key value ttl = (ok tt, insert c key value)

  unfoldable pub memory_delete : Cache → Text → Result GatewayError (Unit {0}) × Cache
  memory_delete c key = (ok tt, invalidate c key)

  unfoldable pub memory_clear : Cache → Result GatewayError (Unit {0}) × Cache
  memory_clear c = (ok tt, invalidate_all c)

  -- `impl CacheBackendTrait for MemoryCache`
  abbrev pub memory_backend : CacheBackendTrait
  memory_backend = record {
    Store = Cache;
    get = memory_get;
    set = memory_set;
    delete = memory_delete;
    clear = memory_clear;
  }

  unfoldable pub step : Call → Cache → Cache
  unfolding memory_get memory_set memory_delete memory_clear
  step (get k) c = (memory_get c k).1
  step (delete k) c = (memory_delete c k).1
  step (set k v ttl) c = (memory_set c k v ttl).1
  step clear c = (memory_clear c).1

  -- The cache after a history, newest first.
  pub run : Option ℕ → List Call → Cache
  run size [] = new size
  run size (call ∷ calls) = step call (run size calls)

  step_sound :
      (call : Call) (cs : List Call) (c : Cache)
      → ((j : Text) (u : CachedResponse) → (moka.get c j).0 ≡ some u → last_set j cs ≡ some u)
      → (j : Text) (u : CachedResponse) → (moka.get (step call c) j).0 ≡ some u
      → last_set j (call ∷ cs) ≡ some u
  unfolding step last_set
  step_sound (get k) cs c h j u e = h j u (moka.get-get c k j u e)
  step_sound (delete k) cs c h j u e =
      let (other, e') = moka.get-invalidate c k j u e in ground (arith, h j u e', text_eq_iff k j)
  step_sound (set k v ttl) cs c h j u e = elim (moka.get-insert c k j v u e) [
    | inl (same, is) ↦ ground (arith, text_eq_iff k j)
    | inr (other, e') ↦ ground (arith, h j u e', text_eq_iff k j)
  ]
  step_sound clear cs c h j u e = ground (arith, moka.get-invalidate_all c j)

  run_sound :
      (size : Option ℕ) (calls : List Call) (j : Text) (u : CachedResponse)
      → (moka.get (run size calls) j).0 ≡ some u
      → last_set j calls ≡ some u
  unfolding run new
  run_sound size [] j u e = cc (moka.get-build (get_or size 10_000) j)
  run_sound size (call ∷ calls) j u e =
      step_sound call calls (run size calls) (run_sound size calls) j u e

  -- After any history of calls, of which none fails, the memory cache answers a key with nothing or
  -- with the value that was set last for it and neither deleted nor cleared since: whatever it
  -- drops, it is never stale. How long ago the value was set, and with what time to live, is
  -- not regarded.
  pub memory_get-run :
      (size : Option ℕ) (calls : List Call) (key : Text)
      → (o : Option CachedResponse) × ((memory_get (run size calls) key).0 ≡ ok o)
        × ((o ≡ none) ⊎ (o ≡ last_set key calls))
  unfolding memory_get
  memory_get-run size calls key = (_, refl, found (moka.get (run size calls) key).0 refl)
    where
      found :
          (o : Option CachedResponse)
          → (moka.get (run size calls) key).0 ≡ o
          → (o ≡ none) ⊎ (o ≡ last_set key calls)
      found none e = inl refl
      found (some u) e = inr (sym (run_sound size calls key u e))
