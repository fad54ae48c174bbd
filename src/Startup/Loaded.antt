-- ===== src/Startup/Loaded.antt =====
-- src/main.rs: the process whose gateway was built.
use mini_api_gateway.Common.{
  ◌+◌, ◌≡◌, refl, ap, ◌∙◌, sym, Bool, true, false, Option, none, some, List, [], All, Text, ok,
  Flow, next, stop, panic, subst, ok-injective, get_or,
}
use mini_api_gateway.Config.{GatewayConfig, CacheConfig, CacheBackend}
use mini_api_gateway.Config.Loading.{ConfigLib}
use mini_api_gateway.Error.{GatewayError}
use mini_api_gateway.Http.{Request}
use mini_api_gateway.Discovery.Shared.{Shared}
use mini_api_gateway.Cache.Memory
use mini_api_gateway.Cache.Backend
use mini_api_gateway.Cache.Backend.{CacheLayer, memory_cache}
use mini_api_gateway.Platform.{World}
use mini_api_gateway.Gateway.{Gateway, handle_request}
use mini_api_gateway.Gateway.Build.{Libraries, Assembly, new}
use mini_api_gateway.Gateway.Build.Stages.{MadeWhen, Made}
use mini_api_gateway.Gateway.Build.Parts.{new-parts}
use mini_api_gateway.Gateway.Deploy.{
  DynStore, Surroundings, platform, gateway_of, store_of, world_of,
}
use mini_api_gateway.Gateway.Serving.{Server, Event, start, run}
use mini_api_gateway.Gateway.Serving.Gauge.{gauge}
use mini_api_gateway.Gateway.Serving.Listening.{Succeeds, run-stopped}
use mini_api_gateway.Gateway.Safety.Requests.{GatewayIsServable}
use mini_api_gateway.Gateway.Safety.Histories.{
  Answered, handle_request-Answered, run-IsSound, run-gauge,
}
use mini_api_gateway.Gateway.Safety.Built.{
  ConfigIsServable, new-GatewayIsServable, IsMissing, dyn_get-IsMissing,
}
use mini_api_gateway.Startup.{
  Environment, configuration, raised, start_up, bound, outlive, ended, launch, main, serving,
}

-- The cache, if there is one, is in memory.
abbrev pub InMemory : Option CacheConfig → Type 0
InMemory none = Unit {0}
InMemory (some c) = c.backend ≡ CacheBackend.memory

module _ (L : Libraries) (around : Surroundings) where
  open L.query use {Net}
  open around.http use {HeaderMap}

  -- The server shows the open connections, no task of it has panicked, and it answers any request.
  pub record Serves (gateway : Gateway (platform L around)) (v : Server (platform L around))
      : Type 0 where
    pub calm : v.crashed ≡ 0
    pub shown : (gauge v.world.metrics).0 ≡ (gauge v.world.metrics).1 + v.tasks
    pub answers :
        (id : Text) (req : Request HeaderMap)
        → Answered (platform L around) (handle_request (platform L around) gateway id req v.world).0

  pub run-Serves :
      (g : Assembly L)
      → GatewayIsServable (platform L around) (gateway_of L around g)
      → (w : World (platform L around)) (es : List (Event (platform L around)))
      → IsMissing (world_of L around g w).cache
      → w.metrics ≡ []
      → Serves
          (gateway_of L around g)
          (run (platform L around) (gateway_of L around g) es (start (world_of L around g w)))
  unfolding gauge start
  run-Serves g servable w es sound fresh =
      let gateway = gateway_of L around g in
      let first = start (world_of L around g w) in
      let (calm, shown) =
        run-gauge (platform L around) IsMissing (dyn_get-IsMissing L around) gateway servable es
          first sound refl (rw fresh refl) in
      record {
        calm = calm;
        shown = shown;
        answers = λ id req.
            (handle_request-Answered (platform L around) IsMissing (dyn_get-IsMissing L around)
              gateway servable id req _
              (run-IsSound (platform L around) IsMissing (dyn_get-IsMissing L around) gateway
                servable es first sound)).0;
      }

  pub main-serving :
      (lib : ConfigLib) (env : Environment) (w : World (platform L around)) (s : Shared Net)
      (es : List (Event (platform L around))) {g : Assembly L} {s' : Shared Net}
      → start_up lib L env s ≡ (next g, s')
      → All Succeeds es
      → main lib L around env (ok tt) es w s
        ≡ serving
            (run (platform L around) (gateway_of L around g) es (start (world_of L around g w)))
  unfolding main launch bound outlive ended start
  main-serving lib env w s es {g} started accepted =
      let gateway = gateway_of L around g in
      let first = start (world_of L around g w) in
      ap (launch lib L around (ok tt) es w) started
      ∙ ap (λ o. ended lib L around o (run (platform L around) gateway es first))
          (run-stopped (platform L around) gateway es first accepted)

  new-memory :
      (c : CacheConfig)
      → c.backend ≡ CacheBackend.memory
      → Backend.new L.moka L.redis c
        ≡ ok (record { backend = memory_cache (Memory.new L.moka c.max_capacity); config = c })
  unfolding Backend.new Backend.open_backend
  new-memory c e = rw e refl

  made-IsMissing :
      (c : CacheConfig) (b : Bool) (r : Option (CacheLayer L.moka L.redis))
      (s : DynStore L.moka L.redis)
      → MadeWhen b (Backend.new L.moka L.redis c) r
      → c.backend ≡ CacheBackend.memory
      → IsMissing s
      → IsMissing (store_of L around s r)
  unfolding Memory.new
  made-IsMissing c true r s (a, built, same) e h =
      let layer = ok-injective (sym (new-memory c e) ∙ built) in
      subst (λ o. IsMissing (store_of L around s o)) (ap some layer ∙ sym same)
        (L.moka.get-build (get_or c.max_capacity 10_000))
  made-IsMissing c false r s same e h = subst (λ o. IsMissing (store_of L around s o)) (sym same) h

  store_of-IsMissing :
      (o : Option CacheConfig) (r : Option (CacheLayer L.moka L.redis))
      (s : DynStore L.moka L.redis)
      → Made (λ c. c.enabled) (Backend.new L.moka L.redis) o r
      → InMemory o
      → IsMissing s
      → IsMissing (store_of L around s r)
  store_of-IsMissing none r s made memory h =
      subst (λ o. IsMissing (store_of L around s o)) (sym made) h
  store_of-IsMissing (some c) r s made memory h = made-IsMissing c c.enabled r s made memory h

  raised_next :
      (lib : ConfigLib) (x : Flow GatewayError (Assembly L) × Shared Net) {g : Assembly L}
      {s' : Shared Net}
      → raised lib L x ≡ (next g, s')
      → x ≡ (next g, s')
  raised_next lib (next a, s) h = cc
  raised_next lib (stop e, s) h = cc
  raised_next lib (panic, s) h = cc

  start_up-new :
      (lib : ConfigLib) (env : Environment) (s : Shared Net) {config : GatewayConfig}
      {g : Assembly L} {s' : Shared Net}
      → configuration lib env ≡ ok config
      → start_up lib L env s ≡ (next g, s')
      → new L config s ≡ (next g, s')
  unfolding start_up
  start_up-new lib env s {config} read h = raised_next lib (new L config s) (rw read at h)

  -- A process that builds its gateway serves, whatever connections and requests follow, if the
  -- configuration that it goes on with, which is that of the file or of the demo routes, has CORS lists
  -- that can stand in headers and pauses that can be represented, and has no cache or one in
  -- memory, if the listener is bound and no accept fails, and if nothing was recorded or cached
  -- before: no task has panicked, the gauge of the active connections shows the open ones, and any
  -- next request is answered.
  pub start_up-Serves :
      (lib : ConfigLib) (env : Environment) (w : World (platform L around)) (s : Shared Net)
      (es : List (Event (platform L around))) {config : GatewayConfig} {g : Assembly L}
      {s' : Shared Net}
      → configuration lib env ≡ ok config
      → start_up lib L env s ≡ (next g, s')
      → ConfigIsServable config
      → InMemory config.cache
      → IsMissing w.cache
      → w.metrics ≡ []
      → All Succeeds es
      → (v : Server (platform L around)) × (main lib L around env (ok tt) es w s ≡ serving v)
        × Serves (gateway_of L around g) v
  start_up-Serves lib env w s es {config} {g} read started servable memory empty fresh accepted =
      let built = start_up-new lib env s read started in
      let (routes, attached, t, a, l, cors, made, recorded, same) =
        (new-parts L config s built).0 in
      (
        run (platform L around) (gateway_of L around g) es (start (world_of L around g w)),
        main-serving lib env w s es started accepted,
        run-Serves g (new-GatewayIsServable L around config s built servable) w es
            (store_of-IsMissing config.cache g.cache_layer w.cache made memory empty) fresh,
      )
