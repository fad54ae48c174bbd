-- ===== src/Startup.antt =====
-- src/main.rs: how the process starts, and how it ends.
pub mod Loaded
pub mod Demo
use mini_api_gateway.Common.{
  ℕ, Bool, Option, none, some, get_or, List, if◌then◌else◌, Text, text, Result, ok, err, map_err,
  Flow, next, stop, panic, Run, ◌>>=◌, try,
}
use mini_api_gateway.Config.{GatewayConfig}
use mini_api_gateway.Config.Defaults.{create_demo_config}
use mini_api_gateway.Config.Loading.{ConfigLib, load}
use mini_api_gateway.Error.{GatewayError, io}
use mini_api_gateway.Discovery.Shared.{Shared}
use mini_api_gateway.Platform.{Platform, World}
use mini_api_gateway.Gateway.Build.{Libraries, Assembly, new}
use mini_api_gateway.Gateway.Deploy.{Surroundings, platform, gateway_of, world_of}
use mini_api_gateway.Gateway.Serving.{Server, Event, start, run}

-- `anyhow::Error`, of the errors that `main` passes on.
pub data Failure : Type 0 where
  not_loaded : (e : Text) → Failure
  gateway : GatewayError → Failure

-- What the process finds when it starts: the variable `GATEWAY_CONFIG`, the files, and the number of
-- processors.
pub record Environment : Type 0 where
  pub gateway_config : Option Text
  pub exists : Text → Bool
  pub cpus : ℕ

-- `main` returned an error, or panicked, or has not ended and its gateway serves.
pub data Process (p : Platform) : Type 0 where
  exited : Failure → Process p
  aborted : Process p
  serving : Server p → Process p

abbrev pub config_path : Environment → Text
config_path env = get_or env.gateway_config (text "config.yaml")

module _ (lib : ConfigLib) where
  -- The configuration that `main` goes on with.
  unfoldable pub configuration : Environment → Result Failure GatewayConfig
  configuration env =
      if env.exists (config_path env)
      then map_err not_loaded (load lib env.cpus (config_path env))
      else ok (create_demo_config env.cpus)

module _ (lib : ConfigLib) (L : Libraries) where
  open L.query use {Net}

  -- `?` of `main` on the gateway's errors.
  abbrev pub raised : {A : Type 0} → Flow GatewayError A × Shared Net → Flow Failure A × Shared Net
  raised (next a, s) = (next a, s)
  raised (stop e, s) = (stop (gateway e), s)
  raised (panic, s) = (panic, s)

  -- `main` until the gateway is built.
  unfoldable pub start_up : Environment → Run (Shared Net) Failure (Assembly L)
  unfolding configuration
  start_up env = try (configuration lib env) >>= λ config s. raised (new L config s)

  module _ (around : Surroundings) where
    -- The start of `Gateway::run`: whether the listener is bound.
    unfoldable pub bound :
        Result Text (Unit {0}) → Server (platform L around) → Server (platform L around)
    bound (ok u) s = s
    bound (err e) s = record s { stopped = some (io e) }

    -- `main` ends with the error that ended the loop.
    unfoldable pub ended :
        Option GatewayError → Server (platform L around) → Process (platform L around)
    ended none s = serving s
    ended (some e) s = exited (gateway e)

    unfoldable pub outlive : Server (platform L around) → Process (platform L around)
    unfolding ended
    outlive s = ended s.stopped s

    -- `main` after the gateway was built, which serves a history of events.
    unfoldable pub launch :
        (bind : Result Text (Unit {0}))
        → List (Event (platform L around))
        → World (platform L around)
        → Flow Failure (Assembly L) × Shared Net
        → Process (platform L around)
    unfolding outlive bound
    launch bind events w (next g, s) = outlive (
        run (platform L around) (gateway_of L around g) events
          (bound bind (start (world_of L around g w))))
    launch bind events w (stop e, s) = exited e
    launch bind events w (panic, s) = aborted

    -- `main`, in a world `w` and with what the discoveries share.
    unfoldable pub main :
        Environment
        → (bind : Result Text (Unit {0})) → List (Event (platform L around))
        → World (platform L around)
        → Shared Net
        → Process (platform L around)
    unfolding start_up launch
    main env bind events w s = launch bind events w (start_up env s)
