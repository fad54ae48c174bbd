-- ===== src/Discovery/Consul/Routing.antt =====
-- The router beside the discovery: where a request goes when a Consul discovery is attached.
use mini_api_gateway.Common.{
  ◌≡◌, refl, sym, ap, ◌⊎◌, inl, inr, Bool, true, false, not, Option, none, some, List, [], ◌∷◌,
  if◌then◌else◌, Text, Result, ok, err,
}
use mini_api_gateway.Error.{GatewayError}
use mini_api_gateway.Config.{UpstreamConfig, static, service, load_balance}
use mini_api_gateway.Http.{Request}
use mini_api_gateway.Router.{
  RouteEntry, Router, RouteMatch, method_allowed, answer, resolve_upstream, match_entries,
  match_route,
}
use mini_api_gateway.Router.Regex.{RegexLib}
use mini_api_gateway.Discovery.Shared.{QueryClient, Shared}
use mini_api_gateway.Discovery.Steps.{Reach, later, resolved}
use mini_api_gateway.Discovery.Consul.{
  ConsulDiscovery, ConsulService, resolve, health_check, tick, consul_discovery,
}
use mini_api_gateway.Discovery.Consul.Reach.{IsHttpAddress, resolve-IsHttpAddress}

-- The URL that the configuration itself gives for an upstream.
abbrev Chosen : UpstreamConfig → Text → Type 0
Chosen (static url) u = u ≡ url
Chosen (service name via) u = ⊥
Chosen (load_balance [] strategy) u = ⊥
Chosen (load_balance (e ∷ es) strategy) u = u ≡ e

-- A URL that the configuration gives for one of the routes.
abbrev pub IsConfigured : {R : Type 0} → List (RouteEntry R) → Text → Type 0
IsConfigured [] u = ⊥
IsConfigured (e ∷ es) u = Chosen e.config.upstream u ⊎ IsConfigured es u

module _ (client : QueryClient) (services : Text → Result Text (List ConsulService))
    (d : ConsulDiscovery) where
  open client use {Net}

  -- A state that callers, background tasks and the network can bring about.
  abbrev pub IsReachable : Shared Net → Type 0
  IsReachable s =
      Reach (resolve client services d) (health_check client services d) (tick client services d) s

  abbrev Resolves : UpstreamConfig → Result GatewayError Text × Shared Net → Type 0
  Resolves u (ok a, t) = IsReachable t × (Chosen u a ⊎ IsHttpAddress a)
  Resolves u (err e, t) = IsReachable t

  resolve-Resolves :
      (name via : Text) (s : Shared Net)
      → IsReachable s
      → Resolves (service name via) (resolve client services d name s)
  resolve-Resolves name via s reach = go (resolve client services d name s) refl
    where
      go :
          (x : Result GatewayError Text × Shared Net)
          → resolve client services d name s ≡ x
          → Resolves (service name via) x
      go (ok a, t) e = (
        later reach (resolved name (ap (λ x. x.1) (sym e))),
        inr (resolve-IsHttpAddress client services d name reach e).0,
      )
      go (err y, t) e = later reach (resolved name (ap (λ x. x.1) (sym e)))

  upstream-Resolves :
      (attached : Bool) (s : Shared Net) (u : UpstreamConfig)
      → IsReachable s
      → Resolves u (resolve_upstream (consul_discovery client services d) attached s u)
  unfolding resolve_upstream
  upstream-Resolves attached s (static url) reach = (reach, inl refl)
  upstream-Resolves true s (service name via) reach = resolve-Resolves name via s reach
  upstream-Resolves false s (service name via) reach = reach
  upstream-Resolves attached s (load_balance [] strategy) reach = reach
  upstream-Resolves attached s (load_balance (e ∷ es) strategy) reach = (reach, inl refl)

  module _ (re : RegexLib) where
    open re use {Regex, is_match}

    -- What a search of the routes leads to.
    abbrev pub Leads : List (RouteEntry Regex) → Option RouteMatch × Shared Net → Type 0
    Leads es (none, t) = IsReachable t
    Leads es (some m, t) =
        IsReachable t × (IsConfigured es m.upstream_url ⊎ IsHttpAddress m.upstream_url)

    answer-Leads :
        (e : RouteEntry Regex) (es : List (RouteEntry Regex))
        (x : Result GatewayError Text × Shared Net)
        → Resolves e.config.upstream x
        → Leads (e ∷ es) (answer e.config x)
    answer-Leads e es (ok a, t) (reach, inl chosen) = (reach, inl (inl chosen))
    answer-Leads e es (ok a, t) (reach, inr address) = (reach, inr address)
    answer-Leads e es (err y, t) reach = reach

    later-Leads :
        (e : RouteEntry Regex) (es : List (RouteEntry Regex)) (x : Option RouteMatch × Shared Net)
        → Leads es x
        → Leads (e ∷ es) x
    later-Leads e es (none, t) reach = reach
    later-Leads e es (some m, t) (reach, inl c) = (reach, inl (inr c))
    later-Leads e es (some m, t) (reach, inr a) = (reach, inr a)

    -- The two tests of a route.
    chosen-Leads :
        (es : List (RouteEntry Regex)) (b c : Bool) (rest found : Option RouteMatch × Shared Net)
        → Leads es rest
        → Leads es found
        → Leads es (if b then rest else if c then rest else found)
    chosen-Leads es true c rest found h k = h
    chosen-Leads es false true rest found h k = h
    chosen-Leads es false false rest found h k = k

    match_entries-Leads :
        {H : Type 0} (es : List (RouteEntry Regex)) (attached : Bool) (s : Shared Net)
        (req : Request H)
        → IsReachable s
        → Leads es (match_entries (consul_discovery client services d) re es attached s req)
    unfolding match_entries
    match_entries-Leads [] attached s req reach = reach
    match_entries-Leads (e ∷ es) attached s req reach =
        let disc = consul_discovery client services d in
        let rest = match_entries disc re es attached s req in
        let upstream = resolve_upstream disc attached s e.config.upstream in
        chosen-Leads (e ∷ es) (not (is_match e.path_regex req.path))
          (not (method_allowed e.config.methods req.method)) rest (answer e.config upstream)
          (later-Leads e es rest (match_entries-Leads es attached s req reach))
          (answer-Leads e es upstream (upstream-Resolves attached s e.config.upstream reach))

    -- With a Consul discovery in a state that callers, background tasks and the network can bring
    -- about, the router leads a request to a URL that the configuration gives, or to `http://`, a
    -- host that is not empty, and a port; and the discovery's state is again such a state, whether or
    -- not there is a match.
    pub match_route-Leads :
        {H : Type 0} (router : Router Regex) (s : Shared Net) (req : Request H)
        → IsReachable s
        → Leads router.routes (match_route (consul_discovery client services d) re router s req)
    unfolding match_route
    match_route-Leads router s req reach =
        match_entries-Leads router.routes router.discovery s req reach
