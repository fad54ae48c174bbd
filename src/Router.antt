-- ===== src/Router.antt =====
-- src/router.rs: the route table, the choice of a route, and the resolution of its upstream.
pub mod Regex
pub mod Globs
pub mod Entries
pub mod Matching
use mini_api_gateway.Common.{
  ℕ, Bool, true, false, not, Option, none, some, get_or, List, [], ◌∷◌, ◌++◌, map, any,
  if◌then◌else◌, Text, text, ends_with, drop_last, eq_ignore_ascii_case, Result, ok, err, map_err,
  ◌>>=?◌ as ◌>>=◌,
}
use mini_api_gateway.Config.{
  RouteConfig, UpstreamConfig, static, service, load_balance, RetryConfig,
}
use mini_api_gateway.Error.{GatewayError, config, discovery, upstream_unavailable}
use mini_api_gateway.Http.{Request}
use mini_api_gateway.Discovery.{ServiceDiscovery}
use Regex.{RegexLib}

pub record RouteEntry (R : Type 0) : Type 0 where
  pub config : RouteConfig
  pub path_regex : R

-- `discovery` says whether a service discovery is attached; its state is passed to the methods.
pub record Router (R : Type 0) : Type 0 where
  pub routes : List (RouteEntry R)
  pub discovery : Bool

pub record RouteMatch : Type 0 where
  pub route_id : Text
  pub upstream_url : Text
  pub strip_prefix : Option Text
  pub timeout_ms : Option ℕ
  pub cache_enabled : Bool
  pub auth_required : Bool
  pub retry : Option RetryConfig

module _ (re : RegexLib) where
  open re use {Regex, compile, escape, is_match}

  -- The regular expression of a route's path.
  unfoldable pub pattern_of : Text → Text
  pattern_of path =
      if ends_with path (text "/**")
      then text "^" ++ (escape (drop_last 3 path) ++ text "(/.*)?$")
      else if ends_with path (text "/*")
      then text "^" ++ (escape (drop_last 2 path) ++ text "(/.*)?$")
      else text "^" ++ (escape path ++ text "$")

  pub invalid_pattern : RouteConfig → Text → GatewayError
  invalid_pattern route e =
      config (text "Invalid route pattern '" ++ (route.path ++ (text "': " ++ e)))

  -- One round of the loop of `Router::new`.
  unfoldable pub compile_route : RouteConfig → Result GatewayError (RouteEntry Regex)
  compile_route route = do
    regex ← map_err (invalid_pattern route) (compile (pattern_of route.path))
    ok (record { config = route; path_regex = regex })

  unfoldable pub compile_routes : List RouteConfig → Result GatewayError (List (RouteEntry Regex))
  compile_routes [] = ok []
  compile_routes (route ∷ routes) = do
    entry ← compile_route route
    entries ← compile_routes routes
    ok (entry ∷ entries)

  -- `Router::new`
  unfoldable pub new : List RouteConfig → Result GatewayError (Router Regex)
  new routes = do
    entries ← compile_routes routes
    ok (record { routes = entries; discovery = false })

  unfoldable pub get_routes : Router Regex → List RouteConfig
  get_routes router = map (λ e. e.config) router.routes

unfoldable pub with_discovery : {R : Type 0} → Router R → Router R
with_discovery router = record router { discovery = true }

-- The test of a route's methods: no list allows every method.
unfoldable pub method_allowed : Option (List Text) → Text → Bool
method_allowed none method = true
method_allowed (some methods) method = any (λ m. eq_ignore_ascii_case m method) methods

abbrev pub matched : RouteConfig → Text → RouteMatch
matched c url = record {
  route_id = c.id;
  upstream_url = url;
  strip_prefix = c.strip_prefix;
  timeout_ms = c.timeout_ms;
  cache_enabled = get_or c.cache_enabled false;
  auth_required = get_or c.auth_required false;
  retry = c.retry;
}

-- The answer for the route that is chosen: `.ok()?` makes a failed resolution a missing match.
abbrev pub answer {ℓ} :
    {S : Type ℓ} → RouteConfig → Result GatewayError Text × S → Option RouteMatch × S
answer c (ok url, s) = (some (matched c url), s)
answer c (err e, s) = (none, s)

module _ (disc : ServiceDiscovery) where
  open disc use {State, resolve}

  unfoldable pub resolve_upstream : Bool → State → UpstreamConfig → Result GatewayError Text × State
  resolve_upstream attached s (static url) = (ok url, s)
  resolve_upstream true s (service name via) = resolve s name
  resolve_upstream false s (service name via) =
      (err (discovery (text "Service discovery not configured")), s)
  resolve_upstream attached s (load_balance [] strategy) = (err upstream_unavailable, s)
  resolve_upstream attached s (load_balance (e ∷ es) strategy) = (ok e, s)

  module _ (re : RegexLib) {H : Type 0} where
    open re use {Regex, is_match}

    -- The loop of `match_route`.
    unfoldable pub match_entries :
        List (RouteEntry Regex) → Bool → State → Request H → Option RouteMatch × State
    match_entries [] attached s req = (none, s)
    match_entries (e ∷ es) attached s req =
        let rest = match_entries es attached s req in
        let found = answer e.config (resolve_upstream attached s e.config.upstream) in
        if not (is_match e.path_regex req.path)
        then rest
        else if not (method_allowed e.config.methods req.method)
        then rest
        else found

    unfoldable pub match_route : Router Regex → State → Request H → Option RouteMatch × State
    match_route router s req = match_entries router.routes router.discovery s req
