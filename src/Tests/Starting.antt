-- ===== src/Tests/Starting.antt =====
-- The start of the process, without a configuration file and with one.
use mini_api_gateway.Common.{
  ℕ, ◌≡◌, refl, ap, ◌∙◌, true, false, none, List, [], ◌∷◌, Text, text, Result, ok, err, next, try,
  ◌>>=◌,
}
use mini_api_gateway.Config.{GatewayConfig}
use mini_api_gateway.Gateway.Build
use mini_api_gateway.Config.Defaults.{demo_api, demo_health, create_demo_config}
use mini_api_gateway.Config.Loading.{ConfigLib}
use mini_api_gateway.Cache.Backend.{memory_cache}
use mini_api_gateway.Discovery.Shared
use mini_api_gateway.Platform.{World}
use mini_api_gateway.Router
use mini_api_gateway.Router.{Router}
use mini_api_gateway.Gateway.Deploy.{Surroundings, platform}
use mini_api_gateway.Gateway.Serving.{Event, Server, accept, request, close}
use mini_api_gateway.Startup.{Failure, Environment, configuration, raised, start_up, main, serving}
use mini_api_gateway.Startup.Loaded.{InMemory, Serves, start_up-Serves}
use mini_api_gateway.Gateway.Deploy.{gateway_of}
use mini_api_gateway.Startup.Demo.{
  AreReady, demo_of, demo_gateway, new-demo, demo-ConfigIsServable, main-Serves,
}
use mini_api_gateway.Tests.Libraries.{http_list, fails_once, one_address, Pattern, below, exact}
use mini_api_gateway.Tests.Setting.{get_user_plain, preflight_user}
use mini_api_gateway.Tests.Backends.{small_libraries}

abbrev around : Surroundings
around = record { http = http_list; client = fails_once; discovery = one_address; lossy = λ t. t }

-- No configuration can be read.
abbrev no_files : ConfigLib
no_files = record {
  Settings = Unit {0};
  build = λ sources. err (text "missing");
  try_deserialize = λ s. err (text "empty");
  from_str = λ t. err (text "empty");
}

abbrev nothing_set : Environment
nothing_set = record { gateway_config = none; exists = λ path. false; cpus = 4 }

abbrev demo_router : Router Pattern
demo_router = record {
  routes =
      record { config = demo_api; path_regex = below (text "/api") }
      ∷ record { config = demo_health; path_regex = exact (text "/health") }
      ∷ [];
  discovery = false;
}

demo_compiled :
    (cpus : ℕ) → Router.new small_libraries.regex (create_demo_config cpus).routes ≡ ok demo_router
unfolding mini_api_gateway.Router.new mini_api_gateway.Router.compile_routes create_demo_config
    mini_api_gateway.Router.compile_route mini_api_gateway.Common.text_eq
    mini_api_gateway.Router.pattern_of mini_api_gateway.Common.ends_with text
    mini_api_gateway.Common.drop_last
demo_compiled cpus = refl

abbrev ready : AreReady small_libraries
ready = record {
  router = demo_router;
  compiled = demo_compiled;
  pool = (100, 60);
  client = refl;
  recorder = tt;
  installed = refl;
}

abbrev fresh : World (platform small_libraries around)
fresh = record {
  limiter = 7;
  cache = (memory_cache (λ k. none), record { conn = none; server = λ k. none });
  discovery = 0;
  net = 0;
  sent = [];
  slept = [];
  metrics = [];
}

abbrev morning : List (Event (platform small_libraries around))
morning =
    accept (ok tt)
    ∷ request (text "id") preflight_user
    ∷ close
    ∷ accept (ok tt)
    ∷ request (text "id2") get_user_plain
    ∷ []

main-Serves_example :
    (v : Server (platform small_libraries around)) × (main no_files small_libraries around
        nothing_set
        (ok tt)
        morning
        fresh
        (Shared.start 0)
      ≡ serving v)
    × Serves small_libraries around (demo_of small_libraries around ready nothing_set) v
main-Serves_example =
    main-Serves small_libraries around no_files ready nothing_set fresh (Shared.start 0) morning
      refl refl (tt, (tt, (tt, (tt, (tt, tt)))))

-- A configuration file that holds the demo configuration, for two workers.
abbrev one_file : ConfigLib
one_file = record no_files {
  build = λ sources. ok tt;
  try_deserialize = λ s. ok (create_demo_config 2);
}

abbrev file_set : Environment
file_set = record nothing_set { exists = λ path. true }

file_read : configuration one_file file_set ≡ ok (create_demo_config 2)
unfolding configuration mini_api_gateway.Config.Loading.load
    mini_api_gateway.Config.Defaults.fill_workers create_demo_config
file_read = refl

file_started :
    start_up one_file small_libraries file_set (Shared.start 0)
    ≡ (next (demo_gateway small_libraries ready 2), Shared.start 0)
unfolding start_up
file_started =
    ap
      (λ (c : Result Failure GatewayConfig).
        (try c >>= λ config s. raised one_file small_libraries (Build.new small_libraries config s))
          (Shared.start 0))
      file_read
    ∙ ap (raised one_file small_libraries) (new-demo small_libraries ready 2 (Shared.start 0))

no_entry : (key : Text) → (small_libraries.moka.get (λ k. none) key).0 ≡ none
no_entry key = refl

in_memory : InMemory (create_demo_config 2).cache
unfolding create_demo_config
in_memory = refl

start_up-Serves_example :
    (v : Server (platform small_libraries around)) × (main one_file small_libraries around file_set
        (ok tt)
        morning
        fresh
        (Shared.start 0)
      ≡ serving v)
    × Serves small_libraries around
        (gateway_of small_libraries around (demo_gateway small_libraries ready 2))
        v
start_up-Serves_example =
    start_up-Serves small_libraries around one_file file_set fresh (Shared.start 0) morning
      {config = create_demo_config 2} {g = demo_gateway small_libraries ready 2}
      {s' = Shared.start 0} file_read file_started (demo-ConfigIsServable 2) in_memory no_entry refl
      (tt, (tt, (tt, (tt, (tt, tt)))))
