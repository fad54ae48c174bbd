-- ===== src/Gateway/Safety/Built.antt =====
-- The gateway that is built of a servable configuration, over a memory cache.
use mini_api_gateway.Common.{
  ◌≡◌, refl, sym, subst, Option, none, some, List, [], ◌∷◌, All, map, Text, ok, next,
}
use mini_api_gateway.Config.{GatewayConfig}
use mini_api_gateway.Discovery.Shared.{Shared}
use mini_api_gateway.Router.{get_routes}
use mini_api_gateway.Cache.{CachedResponse}
use mini_api_gateway.Cache.Memory.{Moka, memory_get}
use mini_api_gateway.Cache.Redis.{RedisLib}
use mini_api_gateway.Cache.Backend.{memory_cache, redis_cache}
use mini_api_gateway.Gateway.Build.{Libraries, Assembly, new}
use mini_api_gateway.Gateway.Build.Stages.{kept}
use mini_api_gateway.Gateway.Build.Parts.{cors_of, new-parts}
use mini_api_gateway.Gateway.Deploy.{DynStore, dyn_get, Surroundings, platform, gateway_of}
use mini_api_gateway.Gateway.Safety.Routes.{IsShort}
use mini_api_gateway.Gateway.Safety.Stages.{CorsIsServable}
use mini_api_gateway.Gateway.Safety.Requests.{FoundIsSendable, GatewayIsServable}

-- The lists of an enabled CORS section can stand in headers, and the pauses of the routes are short.
pub record ConfigIsServable (config : GatewayConfig) : Type 0 where
  pub cors : CorsIsServable (kept (λ c. c.enabled) cors_of config.cors)
  pub pauses : All (λ c. IsShort c.retry) config.routes

all_of_map :
    {A B : Type 0} (P : B → Type 0) (f : A → B) (xs : List A)
    → All P (map f xs)
    → All (λ x. P (f x)) xs
all_of_map P f [] h = tt
all_of_map P f (x ∷ xs) h = (h.0, all_of_map P f xs h.1)

-- A gateway that is built of a servable configuration is servable.
pub new-GatewayIsServable :
    (L : Libraries) (around : Surroundings) (config : GatewayConfig) (s : Shared L.query.Net)
    {g : Assembly L} {s' : Shared L.query.Net}
    → new L config s ≡ (next g, s')
    → ConfigIsServable config
    → GatewayIsServable (platform L around) (gateway_of L around g)
unfolding get_routes
new-GatewayIsServable L around config s {g} h v =
    let (routes, attached, t, a, l, cors, k, recorded, same) = (new-parts L config s h).0 in
    record {
      cors = subst CorsIsServable (sym cors) v.cors;
      pauses =
          all_of_map (λ c. IsShort c.retry) (λ e. e.config) g.router.routes
            (subst (All (λ c. IsShort c.retry)) (sym routes) v.pauses);
    }

-- A memory cache that holds nothing.
abbrev pub IsMissing : {moka : Moka} {lib : RedisLib} → DynStore moka lib → Type 0
IsMissing {moka} {lib} (memory_cache c, r) = (key : Text) → (moka.get c key).0 ≡ none
IsMissing {moka} {lib} (redis_cache client, r) = ⊥

module _ (L : Libraries) (around : Surroundings) where
  missing_again :
      (c : L.moka.Cache) (key j : Text) (o : Option CachedResponse)
      → (L.moka.get (L.moka.get c key).1 j).0 ≡ o
      → (L.moka.get c j).0 ≡ none
      → o ≡ none
  missing_again c key j none e h = refl
  missing_again c key j (some u) e h = let held = L.moka.get-get c key j u e in cc

  found_none : (o : Option CachedResponse) → o ≡ none → FoundIsSendable (platform L around) (ok o)
  found_none none h = tt
  found_none (some c) h = cc

  -- A look-up in a memory cache that holds nothing finds nothing, and leaves it so.
  pub dyn_get-IsMissing :
      (s : DynStore L.moka L.redis) (key : Text)
      → IsMissing s
      → FoundIsSendable (platform L around) (dyn_get L.moka L.redis s key).0
        × IsMissing (dyn_get L.moka L.redis s key).1
  unfolding dyn_get memory_get
  dyn_get-IsMissing (memory_cache c, r) key h =
      (found_none _ (h key), λ j. missing_again c key j _ refl (h j))
  dyn_get-IsMissing (redis_cache client, r) key h = absurd h
