-- ===== src/Config/Loading.antt =====
-- src/config.rs: how a configuration is read.
use mini_api_gateway.Common.{
  ℕ, ◌≡◌, refl, ap, ◌∙◌, sym, Bool, true, false, Option, none, some, is_some, List, [], ◌∷◌, Text,
  text, Result, ok, ◌>>=?◌, >>=?-eq-ok, ok-injective,
}
use mini_api_gateway.Config.{GatewayConfig}
use mini_api_gateway.Config.Defaults.{filled, fill_workers}

-- What the `config` crate reads from.
pub data Source : Type 0 where
  file : (name : Text) → (required : Bool) → Source
  environment : (prefix separator : Text) → Source

-- The crates `config` and `serde_yaml`, which the gateway uses and does not implement. Their errors
-- are texts.
pub record ConfigLib : Type 1 where
  pub Settings : Type 0
  pub build : List Source → Result Text Settings
  pub try_deserialize : Settings → Result Text GatewayConfig
  pub from_str : Text → Result Text GatewayConfig

module _ (lib : ConfigLib) where
  open lib use {build, try_deserialize}

  -- `GatewayConfig::load`, where `cpus` is what `num_cpus::get` returns.
  unfoldable pub load : (cpus : ℕ) → (path : Text) → Result Text GatewayConfig
  load cpus path =
      build (file path false ∷ environment (text "GATEWAY") (text "__") ∷ []) >>=? λ settings.
      try_deserialize settings >>=? λ config. ok (fill_workers cpus config)

  -- `GatewayConfig::from_yaml`
  unfoldable pub from_yaml : (content : Text) → Result Text GatewayConfig
  from_yaml content = lib.from_str content >>=? λ config. ok config

  filled-workers :
      (cpus : ℕ) (config : GatewayConfig) (o : Option ℕ)
      → config.server.workers ≡ o
      → is_some (filled cpus config o).server.workers ≡ true
  filled-workers cpus config none e = refl
  filled-workers cpus config (some n) e = rw e refl

  fill_workers-filled :
      (cpus : ℕ) (config : GatewayConfig) → is_some (fill_workers cpus config).server.workers ≡ true
  unfolding fill_workers
  fill_workers-filled cpus config = filled-workers cpus config config.server.workers refl

  -- A configuration that is loaded names a number of workers.
  pub load-workers :
      (cpus : ℕ) (path : Text) {config : GatewayConfig}
      → load cpus path ≡ ok config
      → is_some config.server.workers ≡ true
  unfolding load
  load-workers cpus path {config} h =
      let (settings, e, k) = >>=?-eq-ok (build _) _ h in
      let (read, e', k') = >>=?-eq-ok (try_deserialize settings) _ k in
      ap (λ (c : GatewayConfig). is_some c.server.workers) (sym (ok-injective k'))
      ∙ fill_workers-filled cpus read
