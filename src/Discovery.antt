-- ===== src/Discovery.antt =====
-- src/discovery/mod.rs: the interface of a service discovery, over the state that its clones share.
-- `watch` starts a task in the background, whose effect on the state is the task's own.
pub mod Shared
pub mod Consul
pub mod Etcd
pub mod Steps
use mini_api_gateway.Common.{Text, List, Result}
use mini_api_gateway.Error.{GatewayError}

pub record ServiceDiscovery : Type 1 where
  pub State : Type 0
  pub resolve : State → Text → Result GatewayError Text × State
  pub health_check : State → Text → Result GatewayError (List Text) × State
  pub watch : State → Text → Result GatewayError (Unit {0}) × State
