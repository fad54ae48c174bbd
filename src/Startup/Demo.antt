-- ===== src/Startup/Demo.antt =====
-- src/main.rs: the process that finds no configuration file, which serves the demo routes.
use mini_api_gateway.Common.{ℕ, ◌≡◌, refl, false, none, some, List, [], All, text, ok, next, arith}
use mini_api_gateway.Config.{RateLimitKeyStrategy}
use mini_api_gateway.Config.Defaults.{demo_cache, create_demo_config}
use mini_api_gateway.Config.Loading.{ConfigLib}
use mini_api_gateway.Http.{is_visible}
use mini_api_gateway.Discovery.Shared.{Shared}
use mini_api_gateway.Router.{Router}
use mini_api_gateway.Router
use mini_api_gateway.Cors
use mini_api_gateway.RateLimit
use mini_api_gateway.Cache.Memory
use mini_api_gateway.Cache.Backend
use mini_api_gateway.Cache.Backend.{memory_cache}
use mini_api_gateway.Platform.{World}
use mini_api_gateway.Gateway.{Gateway}
use mini_api_gateway.Gateway.Build.{
  Libraries, Assembly, optionally, build_rate_limit, build_cors, pooled_client, default_client,
  with_pool, build_metrics, new,
}
use mini_api_gateway.Gateway.Build.Stages.{kept}
use mini_api_gateway.Gateway.Build.Parts.{cors_of}
use mini_api_gateway.Gateway.Deploy.{Surroundings, platform, gateway_of, world_of}
use mini_api_gateway.Gateway.Serving.{Server, Event, start, run}
use mini_api_gateway.Gateway.Serving.Listening.{Succeeds}
use mini_api_gateway.Gateway.Safety.Requests.{GatewayIsServable}
use mini_api_gateway.Gateway.Safety.Built.{ConfigIsServable, new-GatewayIsServable, IsMissing}
use mini_api_gateway.Startup.Loaded.{Serves, run-Serves, main-serving}
use mini_api_gateway.Startup.{Environment, config_path, configuration, start_up, main, serving}

-- The lists of the demo can stand in headers, and its longest pause is 0.3 seconds.
pub demo-ConfigIsServable : (cpus : ℕ) → ConfigIsServable (create_demo_config cpus)
unfolding create_demo_config is_visible text mini_api_gateway.Common.join Cors.new
demo-ConfigIsServable cpus = record {
  cors = record { methods = refl; headers = refl; expose = refl };
  pauses = (omega arith, (tt, tt));
}

module _ (L : Libraries) where
  open L.query use {Net}

  -- What building the demo gateway asks of the libraries: its two patterns are regular expressions, a
  -- client can be built, and a recorder of metrics installed.
  pub record AreReady : Type 0 where
    pub router : Router L.regex.Regex
    pub compiled : (cpus : ℕ) → Router.new L.regex (create_demo_config cpus).routes ≡ ok router
    pub pool : L.HttpPool
    pub client : L.build_pool 100 60 ≡ some pool
    pub recorder : L.Recorder
    pub installed : L.install_recorder ≡ some recorder

  -- The parts of the demo gateway.
  abbrev pub demo_gateway : AreReady → (cpus : ℕ) → Assembly L
  demo_gateway ready cpus = record {
    config = create_demo_config cpus;
    router = ready.router;
    proxy_client = ready.pool;
    metrics = some ready.recorder;
    tls_acceptor = none;
    auth_layer = none;
    rate_limit_layer = some (RateLimit.new L.limiter 100 200 RateLimitKeyStrategy.ip);
    cors_layer = kept (λ c. c.enabled) cors_of (create_demo_config cpus).cors;
    cache_layer =
        some
          (record { backend = memory_cache (Memory.new L.moka (some 10000)); config = demo_cache });
  }

  pub new-demo :
      (ready : AreReady) (cpus : ℕ) (s : Shared Net)
      → new L (create_demo_config cpus) s ≡ (next (demo_gateway ready cpus), s)
  unfolding new optionally build_rate_limit build_cors pooled_client default_client with_pool
      build_metrics create_demo_config Backend.new Backend.open_backend
  new-demo ready cpus s = rw (ready.compiled cpus, ready.client, ready.installed) refl

  start_up-demo :
      (lib : ConfigLib) (env : Environment) (ready : AreReady) (s : Shared Net)
      → env.exists (config_path env) ≡ false
      → start_up lib L env s ≡ (next (demo_gateway ready env.cpus), s)
  unfolding start_up configuration
  start_up-demo lib env ready s missing = rw (missing, new-demo ready env.cpus s) refl

  module _ (around : Surroundings) where
    open around.http use {HeaderMap}

    -- The server of the demo gateway before anything happens.
    abbrev pub opening :
        AreReady → Environment → World (platform L around) → Server (platform L around)
    opening ready env w = start (world_of L around (demo_gateway ready env.cpus) w)

    abbrev pub demo_of : AreReady → Environment → Gateway (platform L around)
    demo_of ready env = gateway_of L around (demo_gateway ready env.cpus)

    opening-IsMissing :
        (ready : AreReady) (env : Environment) (w : World (platform L around))
        → IsMissing (opening ready env w).world.cache
    unfolding start Memory.new
    opening-IsMissing ready env w = L.moka.get-build 10000

    demo_of-GatewayIsServable :
        (ready : AreReady) (env : Environment) (s : Shared Net)
        → GatewayIsServable (platform L around) (demo_of ready env)
    demo_of-GatewayIsServable ready env s =
        new-GatewayIsServable L around (create_demo_config env.cpus) s (new-demo ready env.cpus s)
          (demo-ConfigIsServable env.cpus)

    -- A process that finds no configuration file serves the demo routes, whatever connections and
    -- requests follow, if its patterns are regular expressions, a client can be built, a
    -- recorder of metrics installed and the listener bound, if nothing was recorded before,
    -- and if no accept fails: no task has panicked, the gauge of the active connections shows the
    -- open ones, and any next request is answered.
    pub main-Serves :
        (lib : ConfigLib) (ready : AreReady) (env : Environment) (w : World (platform L around))
        (s : Shared Net) (es : List (Event (platform L around)))
        → env.exists (config_path env) ≡ false
        → w.metrics ≡ []
        → All Succeeds es
        → (v : Server (platform L around)) × (main lib L around env (ok tt) es w s ≡ serving v)
          × Serves L around (demo_of ready env) v
    unfolding start
    main-Serves lib ready env w s es missing fresh accepted =
        let g = demo_gateway ready env.cpus in
        (
          run (platform L around) (demo_of ready env) es (opening ready env w),
          main-serving L around lib env w s es (start_up-demo lib env ready s missing) accepted,
          run-Serves L around g (demo_of-GatewayIsServable ready env s) w es
              (opening-IsMissing ready env w) fresh,
        )
