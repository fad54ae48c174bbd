-- ===== src/Tests/Overlapping.antt =====
-- Two calls of the Consul discovery that overlap.
use mini_api_gateway.Common.{
  ℕ, ◌≡◌, refl, List, [], ◌∷◌, Memᴰ, Text, text, Result, ok, if◌then◌else◌, ◌==◌, suc, text_eq,
  decimal,
}
use mini_api_gateway.Error.{GatewayError}
use mini_api_gateway.Discovery.Consul.{
  ConsulService, health_check, endpoints_of, is_healthy, endpoint_of,
}
use mini_api_gateway.Discovery.Shared.{QueryClient, first_cached, lookup}
use mini_api_gateway.Discovery.Consul.Reach.{IsHttpAddress}
use mini_api_gateway.Discovery.Consul.Tasks.{
  resolving, asking, holding, Tasks, begin, call, reply, write, Reach, started, later, calls,
  watches, replies, writes,
}
use mini_api_gateway.Discovery.Consul.Tasks.Overlap.{answers-IsHttpAddress}
use mini_api_gateway.Discovery.Consul.Tasks.Stale.{Overwrites, write-stale}
use mini_api_gateway.Tests.Backends.{always_found, one_service, one_consul, healthy}

abbrev found : Result GatewayError (List Text)
found = ok (text "http://10.0.0.1:80" ∷ [])

-- Both calls ask before the first has its answer.
abbrev both_asked : Tasks ℕ
both_asked = call always_found one_service one_consul (text "a") (
    call always_found one_service one_consul (text "a")
      (begin always_found one_service one_consul 0))

abbrev one_answered : Tasks ℕ
one_answered =
    reply always_found one_service one_consul (asking resolving (text "a") ∷ []) [] resolving
      (text "a") both_asked

abbrev one_written : Tasks ℕ
one_written =
    write always_found one_service one_consul (asking resolving (text "a") ∷ []) resolving
      (text "a") found one_answered

one_written-Reach : Reach always_found one_service one_consul one_written
unfolding call mini_api_gateway.Discovery.Shared.first_cached
    mini_api_gateway.Discovery.Shared.lookup reply mini_api_gateway.Discovery.Consul.health_check
    mini_api_gateway.Discovery.Consul.endpoints_of mini_api_gateway.Discovery.Consul.is_healthy
    mini_api_gateway.Common.text_eq text mini_api_gateway.Discovery.Consul.endpoint_of
    mini_api_gateway.Common.decimal
one_written-Reach =
    later
      (later (later (later (started 0) (calls (text "a") refl)) (calls (text "a") refl))
        (replies (asking resolving (text "a") ∷ []) [] resolving (text "a") refl refl))
      (writes (asking resolving (text "a") ∷ []) [] resolving (text "a") found refl refl)

answered_first : Memᴰ (text "a", ok (text "http://10.0.0.1:80")) one_written.answers
unfolding write mini_api_gateway.Discovery.Consul.learn
answered_first = Memᴰ.head refl

answers-IsHttpAddress_example : IsHttpAddress (text "http://10.0.0.1:80")
answers-IsHttpAddress_example =
    answers-IsHttpAddress always_found one_service one_consul {s = one_written} (text "a")
      (text "http://10.0.0.1:80") one_written-Reach answered_first

-- A service that moves to another address after the first query.
abbrev moving : QueryClient
moving = record always_found {
  get =
      λ url n. (ok (record { status = 200; body = ok (if n == 0 then text "old" else []) }), suc n);
}

abbrev by_body : Text → Result Text (List ConsulService)
by_body body =
    if text_eq body []
    then one_service body
    else ok (record healthy { service_address = text "10.0.0.9" } ∷ [])

-- The first call has the older address and has not written it.
abbrev one_asked : Tasks ℕ
one_asked = call moving by_body one_consul (text "a") (record {
  shared = record { endpoints = []; net = 0; watched = text "a" ∷ [] };
  tasks = [];
  answers = [];
})

abbrev one_held : Tasks ℕ
one_held = reply moving by_body one_consul [] [] resolving (text "a") one_asked

one_held-Reach : Reach moving by_body one_consul one_held
unfolding call first_cached lookup
one_held-Reach =
    later (later (later (started 0) (watches (text "a") refl)) (calls (text "a") refl))
      (replies [] [] resolving (text "a") refl refl)

one_holds : one_held.tasks ≡ holding resolving (text "a") (ok (text "http://10.0.0.9:80" ∷ [])) ∷ []
unfolding call first_cached lookup reply health_check endpoints_of is_healthy text_eq text
    endpoint_of decimal
one_holds = refl

a_watched : Memᴰ (text "a") one_held.shared.watched
unfolding call first_cached lookup reply health_check
a_watched = Memᴰ.head refl

a_found : (health_check moving by_body one_consul (text "a") one_held.shared).0 ≡ found
unfolding call first_cached lookup reply health_check endpoints_of is_healthy text_eq text
    endpoint_of decimal
a_found = refl

write-stale_example :
    Overwrites moving by_body one_consul
      (text "a")
      (text "http://10.0.0.9:80")
      []
      (text "http://10.0.0.1:80" ∷ [])
      one_held
write-stale_example =
    write-stale moving by_body one_consul (text "a") (text "http://10.0.0.9:80") []
      (text "http://10.0.0.1:80" ∷ []) [] one_held one_held-Reach one_holds a_watched a_found
