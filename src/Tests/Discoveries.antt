-- ===== src/Tests/Discoveries.antt =====
-- The discoveries at concrete services.
use mini_api_gateway.Common.{
  ℕ, ◌≡◌, refl, arith, ◌↔◌, true, some, [], ◌∷◌, Memᴰ, Text, text, starts_with, ok,
}
use mini_api_gateway.Config.{service}
use mini_api_gateway.Router.{Router, match_route}
use mini_api_gateway.Discovery.Shared.{Shared, start, lookup}
use mini_api_gateway.Discovery.Steps.{Reach}
use mini_api_gateway.Discovery.Consul.{consul_discovery, ConsulService, endpoint_of, endpoints_of}
use mini_api_gateway.Discovery.Consul
use mini_api_gateway.Discovery.Consul.Routing.{Leads, match_route-Leads}
use mini_api_gateway.Discovery.Consul.Health.{IsServing, endpoints_of_iff}
use mini_api_gateway.Discovery.Consul.Reach.{IsHttpAddress, resolve-IsHttpAddress}
use mini_api_gateway.Discovery.Etcd.{service_key, range_end}
use mini_api_gateway.Discovery.Etcd
use mini_api_gateway.Discovery.Etcd.Range.{in_range, EndsLow, in_range-service_key}
use mini_api_gateway.Discovery.Etcd.Values.{urls, health_check-registered}
use mini_api_gateway.Tests.Libraries.{Pattern, below, patterns}
use mini_api_gateway.Tests.Setting.{users, get_user}
use mini_api_gateway.Tests.Backends.{
  always_found, healthy, one_service, one_consul, one_value, plain_codec, one_etcd,
}

abbrev unasked : Shared ℕ
unasked = start 0

-- The state after one query, which found `e`.
abbrev asked_for : Text → Shared ℕ
asked_for e = record { endpoints = (text "a", e ∷ []) ∷ []; net = 1; watched = [] }

resolve-IsHttpAddress_example :
    IsHttpAddress (text "http://10.0.0.1:80")
    × (Consul.resolve always_found one_service one_consul
          (text "a")
          (asked_for (text "http://10.0.0.1:80"))
        ≡ (ok (text "http://10.0.0.1:80"), asked_for (text "http://10.0.0.1:80")))
unfolding Consul.resolve mini_api_gateway.Discovery.Shared.first_cached lookup Consul.health_check
    endpoints_of Consul.is_healthy mini_api_gateway.Common.text_eq text endpoint_of
    mini_api_gateway.Discovery.Shared.put mini_api_gateway.Common.decimal
resolve-IsHttpAddress_example =
    resolve-IsHttpAddress always_found one_service one_consul (text "a") {s = unasked}
      {t = asked_for (text "http://10.0.0.1:80")} {e = text "http://10.0.0.1:80"} (Reach.started 0)
      refl

endpoints_of_iff_example : Memᴰ (text "http://10.0.0.1:80") (endpoints_of (healthy ∷ [])) ↔ (
    (svc : ConsulService) × Memᴰ svc (healthy ∷ [])
    × IsServing svc
    × (text "http://10.0.0.1:80" ≡ endpoint_of svc))
endpoints_of_iff_example = endpoints_of_iff (healthy ∷ []) (text "http://10.0.0.1:80")

a_low : EndsLow (service_key one_etcd (text "a"))
unfolding service_key text
a_low = omega arith

in_range-service_key_example :
    in_range
      (service_key one_etcd (text "a"))
      (range_end plain_codec (service_key one_etcd (text "a")))
      (text "/services/b")
    ≡ starts_with (text "/services/b") (service_key one_etcd (text "a"))
unfolding service_key text
in_range-service_key_example =
    in_range-service_key plain_codec one_etcd (text "a") (text "/services/b") refl a_low

health_check-registered_example :
    ((Etcd.health_check plain_codec always_found one_etcd (text "a") unasked).0
      ≡ ok (urls one_value))
    × (lookup
          (text "a")
          (Etcd.health_check plain_codec always_found one_etcd (text "a") unasked).1.endpoints
        ≡ some (urls one_value))
    × ((Etcd.health_check plain_codec always_found one_etcd (text "a") unasked).1.net ≡ 1)
unfolding text
health_check-registered_example =
    health_check-registered plain_codec always_found one_etcd (text "a") unasked one_value
      {r = record { status = 200; body = ok [] }} {net = 1} {body = []} refl refl refl refl
      (refl, tt)

abbrev service_router : Router Pattern
service_router = record {
  routes =
      record {
        config = record users { upstream = service (text "a") (text "consul") };
        path_regex = below (text "/users");
      }
      ∷ [];
  discovery = true;
}

match_route-Leads_example :
    Leads always_found one_service one_consul patterns service_router.routes (
      match_route
        (consul_discovery always_found one_service one_consul)
        patterns
        service_router
        unasked
        get_user)
match_route-Leads_example =
    match_route-Leads always_found one_service one_consul patterns service_router unasked get_user
      (Reach.started 0)
