-- ===== src/Router/Matching.antt =====
-- `Router::match_route`: the first route that accepts a request, and only that one, answers.
use mini_api_gateway.Common.{
  ◌≡◌, refl, ap, ◌↔◌, ◌⊎◌, inl, inr, Bool, true, false, ◌&&◌, Option, none, some, List, [], ◌∷◌,
  ◌++◌, any, Memᴰ, All, Text, eq_ignore_ascii_case, to_lowercase, ok, arith, Bool-cases, any_sound,
  any_complete, eq_ignore_ascii_case_iff, if◌then◌else◌,
}
use mini_api_gateway.Config.{RouteConfig}
use mini_api_gateway.Http.{Request}
use mini_api_gateway.Discovery.{ServiceDiscovery}
use mini_api_gateway.Router.{
  RouteEntry, Router, RouteMatch, answer, method_allowed, new, with_discovery, resolve_upstream,
  match_entries, match_route,
}
use mini_api_gateway.Router.Regex.{RegexLib}
use mini_api_gateway.Router.Globs.{PathMatches, pattern_matches, pattern_matches_iff}
use mini_api_gateway.Router.Entries.{Compiled, new-Compiled}

-- A route without a list of methods allows all; one with a list allows those listed, in any case.
abbrev pub MethodAllowed : Option (List Text) → Text → Type 0
MethodAllowed none method = Unit {0}
MethodAllowed (some ms) method = (m : Text) × Memᴰ m ms × (to_lowercase m ≡ to_lowercase method)

method_allowed_iff :
    (methods : Option (List Text)) (method : Text)
    → (method_allowed methods method ≡ true) ↔ MethodAllowed methods method
unfolding method_allowed
method_allowed_iff none method = ((λ _. tt), λ _. refl)
method_allowed_iff (some ms) method = (sound, complete)
  where
    sound : any (λ m. eq_ignore_ascii_case m method) ms ≡ true → MethodAllowed (some ms) method
    sound h =
        let (m, listed, e) = any_sound (λ m. eq_ignore_ascii_case m method) ms h in
        (m, listed, (eq_ignore_ascii_case_iff m method).0 e)

    complete : MethodAllowed (some ms) method → any (λ m. eq_ignore_ascii_case m method) ms ≡ true
    complete (m, listed, e) =
        any_complete (λ m. eq_ignore_ascii_case m method) ms m listed
          ((eq_ignore_ascii_case_iff m method).1 e)

-- What it means that a route accepts a request.
abbrev pub Accepts : {H : Type 0} → RouteConfig → Request H → Type 0
Accepts c req = PathMatches c.path req.path × MethodAllowed c.methods req.method

-- The tests of the loop, on the configuration in place of the regular expression.
abbrev accepts : {H : Type 0} → RouteConfig → Request H → Bool
accepts c req = pattern_matches c.path req.path && method_allowed c.methods req.method

accepts_iff :
    {H : Type 0} (c : RouteConfig) (req : Request H) → (accepts c req ≡ true) ↔ Accepts c req
accepts_iff c req =
    let (to_path, from_path) = pattern_matches_iff c.path req.path in
    let (to_method, from_method) = method_allowed_iff c.methods req.method in
    (
      (λ h. (to_path (ground arith), to_method (ground arith))),
      λ a.
          let p : pattern_matches c.path req.path ≡ true = from_path a.0 in
          let m : method_allowed c.methods req.method ≡ true = from_method a.1 in ground arith,
    )

module _ (disc : ServiceDiscovery) (re : RegexLib) {H : Type 0} where
  open disc use {State}
  open re use {Regex}

  -- No route accepts and there is no answer, or the first that accepts gives the answer.
  abbrev pub AnswersFirst :
      Bool → State → Request H → List RouteConfig → Option RouteMatch × State → Type 0
  AnswersFirst attached s req cs r =
      (All (λ c. ¬ Accepts c req) cs × (r ≡ (none, s)))
      ⊎ ((pre : List RouteConfig) × (c : RouteConfig) × (post : List RouteConfig) × (cs
            ≡ pre ++ c ∷ post)
          × All (λ c. ¬ Accepts c req) pre
          × Accepts c req
          × (r ≡ answer c (resolve_upstream disc attached s c.upstream)))

  AnswersFirst-cons :
      (attached : Bool) (s : State) (req : Request H) (c : RouteConfig) (cs : List RouteConfig)
      {r : Option RouteMatch × State}
      → ¬ Accepts c req
      → AnswersFirst attached s req cs r
      → AnswersFirst attached s req (c ∷ cs) r
  AnswersFirst-cons attached s req c cs n (inl (h, e)) = inl ((n, h), e)
  AnswersFirst-cons attached s req c cs n (inr (pre, d, post, split, h, a, e)) =
      inr (c ∷ pre, d, post, ap (◌∷◌ c) split, (n, h), a, e)

  match_entries_step :
      (attached : Bool) (s : State) (req : Request H) (c : RouteConfig) (cs : List RouteConfig)
      (e : RouteEntry Regex) (es : List (RouteEntry Regex))
      → Compiled re (c ∷ cs) (e ∷ es)
      → match_entries disc re (e ∷ es) attached s req ≡ (
          if accepts c req
          then answer c (resolve_upstream disc attached s c.upstream)
          else match_entries disc re es attached s req)
  unfolding match_entries
  match_entries_step attached s req c cs e es (config, matches, rest) =
      rw (config, matches req.path) (ground arith)

  match_entries-nil :
      (attached : Bool) (s : State) (req : Request H)
      → match_entries disc re [] attached s req ≡ (none, s)
  unfolding match_entries
  match_entries-nil attached s req = refl

  match_entries_first :
      (attached : Bool) (s : State) (req : Request H) (cs : List RouteConfig)
      (es : List (RouteEntry Regex))
      → Compiled re cs es
      → AnswersFirst attached s req cs (match_entries disc re es attached s req)
  match_entries_first attached s req [] [] h = inl (tt, match_entries-nil attached s req)
  match_entries_first attached s req [] (e ∷ es) h = elim h [ ]
  match_entries_first attached s req (c ∷ cs) [] h = elim h [ ]
  match_entries_first attached s req (c ∷ cs) (e ∷ es) h =
      rw (match_entries_step attached s req c cs e es h) (elim (Bool-cases (accepts c req)) [
        | inl hit ↦ rw hit (inr ([], c, cs, refl, tt, (accepts_iff c req).0 hit, refl))
        | inr miss ↦ rw miss (
            AnswersFirst-cons attached s req c cs (λ a. cc ((accepts_iff c req).1 a))
              (match_entries_first attached s req cs es h.2))
      ])

  -- A router built from a list of routes answers a request by the first route of the list whose
  -- path pattern and methods accept it, with that route's settings and the address that its upstream
  -- resolves to, or with nothing if the resolution fails; it has no answer, and asks no discovery,
  -- if no route accepts. So does the router after a discovery is attached.
  pub match_route-new :
      (cs : List RouteConfig) (router : Router Regex) (s : State) (req : Request H)
      → new re cs ≡ ok router
      → AnswersFirst false s req cs (match_route disc re router s req)
        × AnswersFirst true s req cs (match_route disc re (with_discovery router) s req)
  unfolding match_route with_discovery
  match_route-new cs router s req h =
      let (built, bare) = new-Compiled re cs h in
      (
        rw bare (match_entries_first false s req cs router.routes built),
        match_entries_first true s req cs router.routes built,
      )

  match_entries_unmatched :
      (attached : Bool) (s : State) (req : Request H) (cs : List RouteConfig)
      (es : List (RouteEntry Regex))
      → Compiled re cs es
      → All (λ c. ¬ Accepts c req) cs
      → match_entries disc re es attached s req ≡ (none, s)
  match_entries_unmatched attached s req [] [] h u = match_entries-nil attached s req
  match_entries_unmatched attached s req [] (e ∷ es) h u = elim h [ ]
  match_entries_unmatched attached s req (c ∷ cs) [] h u = elim h [ ]
  match_entries_unmatched attached s req (c ∷ cs) (e ∷ es) h u =
      rw (match_entries_step attached s req c cs e es h) (elim (Bool-cases (accepts c req)) [
        | inl hit ↦ absurd (u.0 ((accepts_iff c req).0 hit))
        | inr miss ↦ rw miss (match_entries_unmatched attached s req cs es h.2 u.1)
      ])

  -- Where no route of the list accepts the request, there is no answer, with a discovery or without.
  pub match_route-unmatched :
      (cs : List RouteConfig) (router mine : Router Regex) (s : State) (req : Request H)
      → new re cs ≡ ok router
      → (mine ≡ router) ⊎ (mine ≡ with_discovery router)
      → All (λ c. ¬ Accepts c req) cs
      → match_route disc re mine s req ≡ (none, s)
  unfolding match_route with_discovery
  match_route-unmatched cs router mine s req h (inl e) u =
      rw e (match_entries_unmatched _ s req cs router.routes (new-Compiled re cs h).0 u)
  match_route-unmatched cs router mine s req h (inr e) u =
      rw e (match_entries_unmatched _ s req cs router.routes (new-Compiled re cs h).0 u)
