-- ===== src/Gateway/Safety/Routes.antt =====
-- The pauses between the tries of a route, which can be too long to be represented.
use native.Mathlib.Nat.{mul-le-mul_left}
use mini_api_gateway.Common.{
  lt→ltb, ℕ, ◌*◌, ◌/◌, ◌<◌, ◌≤◌, ◌≡◌, Bool, true, false, not, Option, none, some, List, [], ◌∷◌,
  All, if◌then◌else◌, ltb, arith, Text, Result, ok, err,
}
use mini_api_gateway.Error.{GatewayError}
use mini_api_gateway.Config.{RetryConfig}
use mini_api_gateway.Http.{Request}
use mini_api_gateway.Discovery.{ServiceDiscovery}
use mini_api_gateway.Router.{
  RouteEntry, Router, RouteMatch, method_allowed, answer, resolve_upstream, match_entries,
  match_route,
}
use mini_api_gateway.Router.Regex.{RegexLib}
use mini_api_gateway.Proxy.{backoff_overflow}

-- The longest pause can be represented.
abbrev pub IsShort : Option RetryConfig → Type 0
IsShort none = Unit {0}
IsShort (some c) = c.backoff_ms * c.max_attempts / 1000 < backoff_overflow

le-lt : (a b c : ℕ) → a ≤ b → b / 1000 < c → a / 1000 < c
le-lt a b c le lt = omega arith

pub pause_fits :
    (ms k n : ℕ)
    → ms * n / 1000 < backoff_overflow
    → k ≤ n
    → ltb (ms * k / 1000) backoff_overflow ≡ true
pause_fits ms k n h le =
    let shorter : ms * k ≤ ms * n = mul-le-mul_left ms le in
    lt→ltb (ms * k / 1000) backoff_overflow (le-lt (ms * k) (ms * n) backoff_overflow shorter h)

-- The pauses of the matched route are short.
abbrev pub MatchIsShort : Option RouteMatch → Type 0
MatchIsShort none = Unit {0}
MatchIsShort (some m) = IsShort m.retry

module _ (disc : ServiceDiscovery) (re : RegexLib) where
  open re use {Regex, is_match}
  open disc use {State}

  answer-MatchIsShort :
      (e : RouteEntry Regex) (x : Result GatewayError Text × State)
      → IsShort e.config.retry
      → MatchIsShort (answer e.config x).0
  answer-MatchIsShort e (ok url, s) h = h
  answer-MatchIsShort e (err y, s) h = tt

  chosen-MatchIsShort :
      (b c : Bool) (rest found : Option RouteMatch × State)
      → MatchIsShort rest.0
      → MatchIsShort found.0
      → MatchIsShort (if b then rest else if c then rest else found).0
  chosen-MatchIsShort true c rest found h k = h
  chosen-MatchIsShort false true rest found h k = h
  chosen-MatchIsShort false false rest found h k = k

  match_entries-MatchIsShort :
      {H : Type 0} (es : List (RouteEntry Regex)) (attached : Bool) (s : State) (req : Request H)
      → All (λ e. IsShort e.config.retry) es
      → MatchIsShort (match_entries disc re es attached s req).0
  unfolding match_entries
  match_entries-MatchIsShort [] attached s req h = tt
  match_entries-MatchIsShort (e ∷ es) attached s req h =
      let rest = match_entries disc re es attached s req in
      let upstream = resolve_upstream disc attached s e.config.upstream in
      chosen-MatchIsShort (not (is_match e.path_regex req.path))
        (not (method_allowed e.config.methods req.method)) rest (answer e.config upstream)
        (match_entries-MatchIsShort es attached s req h.1) (answer-MatchIsShort e upstream h.0)

  -- Where the pauses of all routes are short, so are those of the matched one.
  pub match_route-MatchIsShort :
      {H : Type 0} (router : Router Regex) (s : State) (req : Request H)
      → All (λ e. IsShort e.config.retry) router.routes
      → MatchIsShort (match_route disc re router s req).0
  unfolding match_route
  match_route-MatchIsShort router s req h =
      match_entries-MatchIsShort router.routes router.discovery s req h
