-- ===== src/Tests/Safety.antt =====
-- A gateway that answers all its requests, over a cache that holds what can be sent.
use mini_api_gateway.Common.{
  ◌+◌, ◌≡◌, refl, Option, none, some, List, [], ◌∷◌, length, decimal, Text, text, ok, arith,
}
use mini_api_gateway.Config.Defaults.{demo_cache}
use mini_api_gateway.Cache.{CachedResponse}
use mini_api_gateway.Cache.Service.Laws.{IsSendable}
use mini_api_gateway.Http.{Response}
use mini_api_gateway.Platform.{World}
use mini_api_gateway.Gateway.{Gateway, handle_request}
use mini_api_gateway.Gateway.Serving.{accept, request, close, start}
use mini_api_gateway.Gateway.Serving.Gauge.{gauge}
use mini_api_gateway.Gateway.Safety.Requests.{FoundIsSendable, GatewayIsServable}
use mini_api_gateway.Gateway.Safety.Histories.{Answered, handle_request-Answered}
use mini_api_gateway.Gateway.Observed.{
  Observed, Happening, serves, connects, scrapes, Shows, run-Shows,
}
use mini_api_gateway.Gateway.Observed
use mini_api_gateway.Metrics.{Metric}
use mini_api_gateway.Tests.Libraries.{Headers, http_list, Kept}
use mini_api_gateway.Tests.Setting
use mini_api_gateway.Tests.Setting.{small, small_gateway, get_user_plain}

abbrev kept_hello : CachedResponse
kept_hello = record {
  status = 200;
  headers = (text "Content-Type", text "text/plain") ∷ [];
  body = text "hello";
}

kept_hello-IsSendable : IsSendable http_list kept_hello
unfolding mini_api_gateway.Http.is_visible mini_api_gateway.Http.is_plain_name text
kept_hello-IsSendable = record { status = refl; headers = ((refl, refl), tt) }

-- What is held for a key can be sent.
abbrev HeldIsSendable : Option CachedResponse → Type 0
HeldIsSendable none = Unit {0}
HeldIsSendable (some c) = IsSendable http_list c

abbrev IsSound : Kept CachedResponse → Type 0
IsSound c = (key : Text) → HeldIsSendable (c key)

found_sendable : (o : Option CachedResponse) → HeldIsSendable o → FoundIsSendable small (ok o)
found_sendable none h = h
found_sendable (some c) h = h

sound_get :
    (c : Kept CachedResponse) (key : Text)
    → IsSound c
    → FoundIsSendable small (small.cache.get c key).0 × IsSound (small.cache.get c key).1
unfolding mini_api_gateway.Cache.Memory.memory_get
sound_get c key h = (found_sendable (c key) (h key), h)

abbrev cached_gateway : Gateway small
cached_gateway = record small_gateway { cache_layer = some demo_cache }

cached_gateway-IsServable : GatewayIsServable small cached_gateway
unfolding mini_api_gateway.Http.is_visible text mini_api_gateway.Common.join
cached_gateway-IsServable = record {
  cors = record { methods = refl; headers = refl; expose = refl };
  pauses = (omega arith, tt);
}

abbrev hello_world : World small
hello_world = record Setting.start { cache = λ k. some kept_hello }

hello_world-IsSound : IsSound hello_world.cache
hello_world-IsSound key = kept_hello-IsSendable

handle_request-Answered_example :
    Answered small (handle_request small cached_gateway (text "id") get_user_plain hello_world).0
    × IsSound (handle_request small cached_gateway (text "id") get_user_plain hello_world).1.cache
handle_request-Answered_example =
    handle_request-Answered small IsSound sound_get cached_gateway cached_gateway-IsServable
      (text "id") get_user_plain hello_world hello_world-IsSound

-- The number of calls so far.
abbrev render : List Metric → Text
render calls = decimal (length calls)

abbrev unobserved : Observed small
unobserved = record {
  server = start hello_world;
  exporter = record {
    endpoint = text "/metrics";
    recorded = [];
    shown = [];
    answers = [];
    stopped = none;
  };
}

abbrev morning : List (Happening small)
morning =
    serves (accept (ok tt))
    ∷ connects (ok tt)
    ∷ serves (request (text "id") get_user_plain)
    ∷ scrapes 0 (text "/metrics")
    ∷ serves (accept (ok tt))
    ∷ serves close
    ∷ []

abbrev observed : Observed small
observed = Observed.run small render cached_gateway morning unobserved

run-Shows_example :
    (r : Response Headers) × (ms : List Metric) × Shows small render cached_gateway
      (text "/metrics")
      observed
      ms
      r
    × ((gauge ms).0 ≡ (gauge ms).1 + observed.server.tasks)
unfolding gauge start Observed.run mini_api_gateway.Metrics.Server.step
run-Shows_example =
    run-Shows small render cached_gateway IsSound sound_get cached_gateway-IsServable morning
      unobserved (text "/metrics") hello_world-IsSound refl refl refl refl
