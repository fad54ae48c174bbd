-- ===== src/Discovery/Consul.antt =====
-- src/discovery/consul.rs: the discovery that asks a Consul server.
pub mod Health
pub mod Reach
pub mod Routing
pub mod Tasks
use mini_api_gateway.Common.{
  ℕ, Bool, Option, none, some, List, [], ◌∷◌, ◌++◌, all, is_empty, if◌then◌else◌, Text, text,
  text_eq, decimal, Result, ok, err, map_err, ◌>>=?◌,
}
use mini_api_gateway.Config.{DiscoveryConfig, consul, etcd}
use mini_api_gateway.Error.{GatewayError, discovery, upstream_unavailable}
use mini_api_gateway.Discovery.{ServiceDiscovery}
use mini_api_gateway.Discovery.Shared.{
  QueryClient, Reply, is_success, Shared, lookup, put, first_cached, watching,
}

-- The parts that are not shared. The client is a parameter.
pub record ConsulDiscovery : Type 0 where
  pub address : Text
  pub datacenter : Option Text

-- A check of a service, by its status.
pub record ConsulCheck : Type 0 where
  pub status : Text

pub record ConsulService : Type 0 where
  pub service_address : Text
  pub service_port : ℕ
  pub service_tags : List Text
  pub checks : List ConsulCheck

unfoldable pub build_url : ConsulDiscovery → Text → Text
build_url d name =
    let url = d.address ++ (text "/v1/health/service/" ++ name) in
    elim d.datacenter [ none ↦ url | some dc ↦ url ++ (text "?dc=" ++ dc) ]

unfoldable pub is_healthy : ConsulService → Bool
is_healthy svc = all (λ c. text_eq c.status (text "passing")) svc.checks

unfoldable pub endpoint_of : ConsulService → Text
endpoint_of svc = text "http://" ++ (svc.service_address ++ (text ":" ++ decimal svc.service_port))

-- The loop over the services.
unfoldable pub endpoints_of : List ConsulService → List Text
endpoints_of [] = []
endpoints_of (svc ∷ svcs) =
    let rest = endpoints_of svcs in
    if is_healthy svc
    then if is_empty svc.service_address then rest else endpoint_of svc ∷ rest
    else rest

-- `services` is the reading of a body as JSON, by the derived `Deserialize`.
module _ (client : QueryClient) (services : Text → Result Text (List ConsulService)) where
  open client use {Net, build, get, status_text}

  -- `ConsulDiscovery::new`. The source reads the provider twice and the second time without an error.
  unfoldable pub new : DiscoveryConfig → Result GatewayError ConsulDiscovery
  new config = elim config.provider [
    | consul address datacenter ↦
        map_err (λ e. discovery (text "Failed to create HTTP client: " ++ e)) build >>=? λ _.
        ok (record { address = address; datacenter = datacenter })
    | etcd endpoints ↦ err (discovery (text "Invalid provider for Consul"))
  ]

  unfoldable pub read_services : Result Text Reply → Result GatewayError (List ConsulService)
  read_services (err e) = err (discovery (text "Consul query failed: " ++ e))
  read_services (ok r) =
      if is_success r.status
      then map_err (λ e. discovery (text "Failed to parse Consul response: " ++ e))
          (r.body >>=? services)
      else err (discovery (text "Consul returned status: " ++ status_text r.status))

  unfoldable pub health_check :
      ConsulDiscovery → Text → Shared Net → Result GatewayError (List Text) × Shared Net
  unfolding read_services
  health_check d name s =
      let (r, net') = get (build_url d name) s.net in
      ((read_services r >>=? λ svcs. ok (endpoints_of svcs)), record s { net = net' })

  -- What `resolve` makes of a health check.
  unfoldable pub learn :
      Text → Result GatewayError (List Text) × Shared Net → Result GatewayError Text × Shared Net
  learn name (err e, s) = (err e, s)
  learn name (ok [], s) = (err upstream_unavailable, s)
  learn name (ok (e ∷ es), s) = (ok e, record s { endpoints = put name (e ∷ es) s.endpoints })

  unfoldable pub resolve :
      ConsulDiscovery → Text → Shared Net → Result GatewayError Text × Shared Net
  unfolding learn
  resolve d name s = elim (first_cached (lookup name s.endpoints)) [
    | some e ↦ (ok e, s)
    | none ↦ learn name (health_check d name s)
  ]

  -- `watch`, which starts the background task for a name.
  unfoldable pub watch : Text → Shared Net → Result GatewayError (Unit {0}) × Shared Net
  watch name s = (ok tt, watching name s)

  unfoldable pub refreshed : Text → Result GatewayError (List Text) × Shared Net → Shared Net
  refreshed name (ok es, s) = record s { endpoints = put name es s.endpoints }
  refreshed name (err e, s) = s

  -- One round of the loop of the background task for a name.
  unfoldable pub tick : ConsulDiscovery → Text → Shared Net → Shared Net
  unfolding refreshed
  tick d name s = refreshed name (health_check d name s)

  -- `impl ServiceDiscovery for ConsulDiscovery`
  abbrev pub consul_discovery : ConsulDiscovery → ServiceDiscovery
  consul_discovery d = record {
    State = Shared Net;
    resolve = λ s name. resolve d name s;
    health_check = λ s name. health_check d name s;
    watch = λ s name. watch name s;
  }
