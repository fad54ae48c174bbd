-- ===== src/Router/Entries.antt =====
-- `Router::new`: each entry keeps its configuration and matches what its path means.
use mini_api_gateway.Common.{
  ◌≡◌, refl, inl, inr, false, List, [], ◌∷◌, map, Text, text, ends_with, drop_last, Result, ok, err,
  map_err, Bool-cases, subst, >>=?-eq-ok, ok-injective, ◌>>=?◌,
}
use mini_api_gateway.Config.{RouteConfig}
use mini_api_gateway.Router.{
  RouteEntry, Router, pattern_of, invalid_pattern, compile_route, compile_routes, new, get_routes,
}
use mini_api_gateway.Router.Regex.{RegexLib}
use mini_api_gateway.Router.Globs.{pattern_matches}

module _ (re : RegexLib) where
  open re use {Regex, compile, is_match}

  compiled_matches :
      (path : Text) (r : Regex)
      → compile (pattern_of re path) ≡ ok r
      → (target : Text) → is_match r target ≡ pattern_matches path target
  unfolding pattern_of pattern_matches
  compiled_matches path r h target = elim (Bool-cases (ends_with path (text "/**"))) [
    | inl e ↦ rw e (re.match_below (drop_last 3 path) r (rw (e, pattern_of) at h) target)
    | inr e ↦ elim (Bool-cases (ends_with path (text "/*"))) [
      | inl f ↦ rw (e, f) (re.match_below (drop_last 2 path) r (rw (e, f, pattern_of) at h) target)
      | inr f ↦ rw (e, f) (re.match_exact path r (rw (e, f, pattern_of) at h) target)
    ]
  ]

  -- The entries stand for the routes, one by one and in order.
  abbrev pub Compiled : List RouteConfig → List (RouteEntry Regex) → Type 0
  Compiled [] [] = Unit
  Compiled [] (e ∷ es) = ⊥
  Compiled (c ∷ cs) [] = ⊥
  Compiled (c ∷ cs) (e ∷ es) =
      (e.config ≡ c)
      × ((target : Text) → is_match e.path_regex target ≡ pattern_matches c.path target)
      × Compiled cs es

  compile_route-Compiled :
      (c : RouteConfig) {e : RouteEntry Regex}
      → compile_route re c ≡ ok e
      → (e.config ≡ c)
        × ((target : Text) → is_match e.path_regex target ≡ pattern_matches c.path target)
  unfolding compile_route
  compile_route-Compiled c {e} h = go (compile (pattern_of re c.path)) refl h
    where
      go :
          (r : Result Text Regex)
          → compile (pattern_of re c.path) ≡ r
          → (map_err (invalid_pattern re c) r >>=? λ regex.
              ok (record { config = c; path_regex = regex }))
            ≡ ok e
          → (e.config ≡ c)
            × ((target : Text) → is_match e.path_regex target ≡ pattern_matches c.path target)
      go (ok r) k t =
          subst
            (λ (e : RouteEntry Regex).
              (e.config ≡ c)
              × ((target : Text) → is_match e.path_regex target ≡ pattern_matches c.path target))
            (ok-injective t) (refl, compiled_matches c.path r k)
      go (err m) k t = cc

  pub compile_routes-Compiled :
      (cs : List RouteConfig) {es : List (RouteEntry Regex)}
      → compile_routes re cs ≡ ok es
      → Compiled cs es
  unfolding compile_routes
  compile_routes-Compiled [] h = subst (Compiled []) (ok-injective h) tt
  compile_routes-Compiled (c ∷ cs) h =
      let (e, first, h') = >>=?-eq-ok (compile_route re c) _ h in
      let (es', later, same) = >>=?-eq-ok (compile_routes re cs) _ h' in
      let (config, matches) = compile_route-Compiled c first in
      subst (Compiled (c ∷ cs)) (ok-injective same)
        (config, matches, compile_routes-Compiled cs later)

  pub new-Compiled :
      (cs : List RouteConfig) {router : Router Regex}
      → new re cs ≡ ok router
      → Compiled cs router.routes × (router.discovery ≡ false)
  unfolding new
  new-Compiled cs h =
      let (es, built, same) = >>=?-eq-ok (compile_routes re cs) _ h in
      subst (λ (r : Router Regex). Compiled cs r.routes × (r.discovery ≡ false)) (ok-injective same)
        (compile_routes-Compiled cs built, refl)

  Compiled-configs :
      (cs : List RouteConfig) (es : List (RouteEntry Regex))
      → Compiled cs es
      → map (λ e. e.config) es ≡ cs
  Compiled-configs [] [] h = refl
  Compiled-configs [] (e ∷ es) h = elim h [ ]
  Compiled-configs (c ∷ cs) [] h = elim h [ ]
  Compiled-configs (c ∷ cs) (e ∷ es) h = cc (h.0, Compiled-configs cs es h.2)

  -- A router that is built lists exactly the routes that it was built from, in their order.
  pub get_routes-new :
      (cs : List RouteConfig) (router : Router Regex)
      → new re cs ≡ ok router
      → get_routes re router ≡ cs
  unfolding get_routes
  get_routes-new cs router h = Compiled-configs cs router.routes (new-Compiled cs h).0
