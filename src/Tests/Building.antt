-- ===== src/Tests/Building.antt =====
-- Building the gateway, its TLS and its caches at a concrete configuration.
use mini_api_gateway.Common.{
  ℕ, ◌≡◌, refl, true, none, some, List, [], ◌∷◌, if◌then◌else◌, text, next,
}
use mini_api_gateway.Config.{GatewayConfig, TlsConfig, RouteConfig, service, consul}
use mini_api_gateway.Config.Defaults.{demo_cache}
use mini_api_gateway.Config.Defaults
use mini_api_gateway.Cache.{CachedResponse}
use mini_api_gateway.Cache.Backend.{memory_cache}
use mini_api_gateway.Cache.Memory.{Call, get, set, delete}
use mini_api_gateway.Cache.Redis.{redis_get}
use mini_api_gateway.Cache.Redis.Histories
use mini_api_gateway.Cache.Redis.Histories.{MayHold, redis_get-run}
use mini_api_gateway.Discovery.Shared.{Shared, start}
use mini_api_gateway.Tls.{protocols, asks_clients, create_tls_acceptor}
use mini_api_gateway.Tls.Laws.{create_tls_acceptor-alpn}
use mini_api_gateway.Gateway.Build.{Assembly}
use mini_api_gateway.Gateway.Build
use mini_api_gateway.Gateway.Build.Stages.{watched_by}
use mini_api_gateway.Gateway.Build.Parts.{HasParts, new-parts}
use mini_api_gateway.Tests.Libraries.{below}
use mini_api_gateway.Tests.Setting.{users, guard_config, guard}
use mini_api_gateway.Tests.Backends.{never_expires, one_cert, small_libraries}

abbrev client_tls : TlsConfig
client_tls = record {
  enabled = true;
  cert_path = text "cert";
  key_path = text "key";
  client_auth = some (record { enabled = true; ca_path = text "ca" });
}

create_tls_acceptor-alpn_example :
    (client_tls.enabled ≡ true)
    × ([] ≡ (if asks_clients client_tls.client_auth then [] else protocols))
unfolding create_tls_acceptor mini_api_gateway.Tls.load_certs mini_api_gateway.Tls.load_key
    mini_api_gateway.Tls.add_certs
create_tls_acceptor-alpn_example = create_tls_acceptor-alpn one_cert client_tls {c = []} refl

abbrev stored_page : CachedResponse
stored_page = record { status = 200; headers = []; body = text "hi" }

abbrev writes : List Call
writes = get (text "k") ∷ set (text "k") stored_page 60 ∷ delete (text "k") ∷ []

redis_get-run_example :
    MayHold (text "k") (Histories.run never_expires tt (λ j. none) writes).1 stored_page
unfolding redis_get mini_api_gateway.Cache.Redis.get_conn text Histories.run Histories.step
    mini_api_gateway.Cache.Redis.redis_set mini_api_gateway.Cache.Redis.redis_delete
    mini_api_gateway.Cache.Redis.serialize mini_api_gateway.Common.text_eq
redis_get-run_example =
    redis_get-run never_expires tt (λ j. none) writes (text "k") {v = stored_page} (λ j. refl) refl

abbrev service_route : RouteConfig
service_route = record users { upstream = service (text "a") (text "consul") }

-- A discovery, TLS, tokens and a cache, and none of the other parts.
abbrev some_parts : GatewayConfig
some_parts = record Defaults.default {
  routes = service_route ∷ [];
  tls = some client_tls;
  auth = some guard_config;
  rate_limit = none;
  cors = none;
  cache = some demo_cache;
  metrics = none;
  discovery = some (record {
    enabled = true;
    provider = consul (text "http://c") none;
    refresh_interval_secs = 30;
  });
  pool = none;
}

abbrev some_assembly : Assembly small_libraries
some_assembly = record {
  config = some_parts;
  router = record {
    routes = record { config = service_route; path_regex = below (text "/users") } ∷ [];
    discovery = true;
  };
  proxy_client = (100, 60);
  metrics = none;
  tls_acceptor = some [];
  auth_layer = some guard;
  rate_limit_layer = none;
  cors_layer = none;
  cache_layer = some (record { backend = memory_cache (λ k. none); config = demo_cache });
}

abbrev watching_a : Shared ℕ
watching_a = record { endpoints = []; net = 0; watched = text "a" ∷ [] }

some_parts_built : Build.new small_libraries some_parts (start 0) ≡ (next some_assembly, watching_a)
unfolding Build.new Build.watch_routes mini_api_gateway.Router.new
    mini_api_gateway.Router.compile_routes mini_api_gateway.Router.compile_route
    mini_api_gateway.Common.text_eq mini_api_gateway.Router.pattern_of
    mini_api_gateway.Common.ends_with text mini_api_gateway.Common.drop_last
    mini_api_gateway.Discovery.Consul.new create_tls_acceptor mini_api_gateway.Tls.load_certs
    mini_api_gateway.Tls.load_key mini_api_gateway.Tls.add_certs mini_api_gateway.Cache.Backend.new
    mini_api_gateway.Cache.Backend.open_backend mini_api_gateway.Router.with_discovery
    mini_api_gateway.Auth.new mini_api_gateway.Cache.Memory.new Defaults.default
    mini_api_gateway.Discovery.Consul.watch
some_parts_built = refl

new-parts_example :
    HasParts small_libraries some_parts some_assembly
    × (watching_a ≡ watched_by small_libraries some_parts (start 0))
new-parts_example =
    new-parts small_libraries some_parts (start 0) {g = some_assembly} {s' = watching_a}
      some_parts_built
