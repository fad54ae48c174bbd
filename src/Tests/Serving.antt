-- ===== src/Tests/Serving.antt =====
-- The serving of connections, and the services around a handler, at concrete requests.
use mini_api_gateway.Common.{
  ℕ, ◌≡◌, refl, ap, ◌⊎◌, true, false, none, some, List, [], ◌∷◌, Text, text, ok, next, panic, Run,
  pure, Memᴰ,
}
use mini_api_gateway.Config.{CacheConfig}
use mini_api_gateway.Config.Defaults.{demo_cache}
use mini_api_gateway.Http.{Request, Response}
use mini_api_gateway.Cache.Memory.{memory_backend}
use mini_api_gateway.Cache.Rules.{IsCacheable, should_cache_iff}
use mini_api_gateway.Cache.{CachedResponse}
use mini_api_gateway.Cache.Service.{Service, to_cached}
use mini_api_gateway.Cache.Service
use mini_api_gateway.Cache.Service.Laws.{IsSendable, Replays, after_set, call-twice, call-excluded}
use mini_api_gateway.Middleware.Logging
use mini_api_gateway.Middleware.Logging.{names_header, Reports, call-add_request_id}
use mini_api_gateway.Gateway.{Gateway, add_request_id}
use mini_api_gateway.Gateway.Serving.{Event, accept, request, close}
use mini_api_gateway.Gateway.Serving
use mini_api_gateway.Gateway.Serving.Hits.{hits, run-hits}
use mini_api_gateway.Gateway.Serving.Histories.{IsCounted, run-IsCounted}
use mini_api_gateway.Tests.Libraries.{Headers, http_list, keeps_all, Kept}
use mini_api_gateway.Tests.Setting.{small, small_gateway, start, get_user_plain}

abbrev events : List (Event small)
events = accept (ok tt) ∷ accept (ok tt) ∷ request (text "id") get_user_plain ∷ close ∷ []

run-IsCounted_example :
    IsCounted small (Serving.run small small_gateway events (Serving.start start))
unfolding mini_api_gateway.Gateway.Serving.Gauge.gauge Serving.start
run-IsCounted_example = run-IsCounted small small_gateway events (Serving.start start) refl

abbrev greeting : Response Headers
greeting = record { status = 200; headers = []; body = text "hi" }

abbrev greets : Request Headers → Run ℕ (Unit {0}) (Response Headers)
greets req = pure greeting

call-add_request_id_example :
    ((names_header small (some (text "x-id")) ≡ true)
      × Reports small
          (text "id")
          get_user_plain
          []
          (greets (add_request_id small (some (text "x-id")) (text "id") get_user_plain) 0)
          (Logging.call http_list greets (some (text "x-id")) (text "id") get_user_plain (0, [])))
    ⊎ ((names_header small (some (text "x-id")) ≡ false)
        × (add_request_id small (some (text "x-id")) (text "id") get_user_plain ≡ get_user_plain)
        × (Logging.call http_list greets (some (text "x-id")) (text "id") get_user_plain (0, [])
            ≡ (panic, (0, []))))
unfolding mini_api_gateway.Http.is_visible text
call-add_request_id_example =
    call-add_request_id small greets (some (text "x-id")) (text "id") get_user_plain 0 [] refl

abbrev greeter : Service Headers ℕ (Unit {0})
greeter req w = (greets req, w)

abbrev excluding : CacheConfig
excluding = record demo_cache { excluded_paths = text "/users" ∷ [] }

root-IsCacheable : IsCacheable excluding (text "GET") (text "/") 200
unfolding mini_api_gateway.Cache.should_cache mini_api_gateway.Common.eq_ignore_ascii_case text
    mini_api_gateway.Common.starts_with
root-IsCacheable = (should_cache_iff excluding (text "GET") (text "/") 200).0 refl

abbrev nothing : Kept CachedResponse
nothing k = none

abbrev greeting_cached : CachedResponse
greeting_cached = to_cached http_list (λ t. t) (memory_backend keeps_all) greeting

greeting-IsSendable : IsSendable http_list greeting_cached
greeting-IsSendable = record { status = refl; headers = tt }

abbrev filled_cache : Kept CachedResponse
filled_cache =
    after_set http_list (λ t. t) (memory_backend keeps_all) excluding greeter get_user_plain
      greeting nothing

call-twice_example :
    (a : Response Headers) × (b : Response Headers) × (Service.call http_list
        (λ t. t)
        (memory_backend keeps_all)
        excluding
        greeter
        get_user_plain
        (nothing, 0)
      ≡ (next a, (filled_cache, 0)))
    × (Service.call http_list
          (λ t. t)
          (memory_backend keeps_all)
          excluding
          greeter
          get_user_plain
          (filled_cache, 1)
        ≡ (next b, (filled_cache, 1)))
    × Replays http_list (text "MISS") greeting_cached a
    × Replays http_list (text "HIT") greeting_cached b
unfolding mini_api_gateway.Common.text_eq text mini_api_gateway.Cache.Memory.memory_get
    mini_api_gateway.Cache.Memory.memory_set mini_api_gateway.Cache.build_key
call-twice_example =
    call-twice http_list (λ t. t) (memory_backend keeps_all) excluding greeter get_user_plain
      nothing nothing filled_cache 0 0 1 greeting refl refl refl root-IsCacheable
      greeting-IsSendable refl

users_listed : Memᴰ (text "/users") excluding.excluded_paths
users_listed = Memᴰ.head refl

call-excluded_example :
    (¬ IsCacheable excluding (text "GET") get_user_plain.path 200)
    × ((r : Response Headers) × (Service.call http_list
            (λ t. t)
            (memory_backend keeps_all)
            excluding
            greeter
            get_user_plain
            (nothing, 0)
          ≡ (next r, (filled_cache, 0))))
unfolding mini_api_gateway.Common.text_eq text mini_api_gateway.Cache.Memory.memory_get
    mini_api_gateway.Common.starts_with
call-excluded_example =
    call-excluded http_list (λ t. t) (memory_backend keeps_all) excluding greeter get_user_plain
      nothing nothing 0 0 greeting (text "/users") refl refl refl root-IsCacheable
      greeting-IsSendable users_listed refl

abbrev IsEmpty : Kept CachedResponse → Type 0
IsEmpty c = (key : Text) → c key ≡ none

keeps_all-misses :
    (c : Kept CachedResponse) (key : Text)
    → IsEmpty c
    → ((small.cache.get c key).0 ≡ ok none) × IsEmpty (small.cache.get c key).1
unfolding mini_api_gateway.Cache.Memory.memory_get
keeps_all-misses c key e = (ap ok (e key), e)

abbrev caching_gateway : Gateway small
caching_gateway = record small_gateway { cache_layer = some demo_cache }

start-IsEmpty : IsEmpty start.cache
start-IsEmpty key = refl

run-hits_example :
    IsEmpty (Serving.run small caching_gateway events (Serving.start start)).world.cache
    × (hits (Serving.run small caching_gateway events (Serving.start start)).world.metrics
        ≡ hits (Serving.start start).world.metrics)
unfolding Serving.start
run-hits_example =
    run-hits small IsEmpty keeps_all-misses caching_gateway events (Serving.start start)
      start-IsEmpty
