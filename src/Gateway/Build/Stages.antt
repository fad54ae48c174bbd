-- ===== src/Gateway/Build/Stages.antt =====
-- What the stages of `Gateway::new` build, and what they leave as it was.
use mathlib.Core.List.{reverse_aux, reverse_aux-append}
use mini_api_gateway.Common.{
  ◌≡◌, refl, sym, ap, ◌∙◌, Bool, true, false, Option, none, some, is_some, List, [], ◌∷◌, ◌++◌,
  if◌then◌else◌, Text, Result, ok, err, Bool-cases, inl, inr, Flow, next, ◌>>=◌, pure, try, unwrap,
  >>=-eq-next, try-eq-next, unwrap-eq-next,
}
use mini_api_gateway.Config.{
  GatewayConfig, RouteConfig, UpstreamConfig, static, service, load_balance, DiscoveryConfig,
  PoolConfig, MetricsConfig,
}
use mini_api_gateway.Error.{GatewayError}
use mini_api_gateway.Discovery.Shared.{Shared, watching}
use mini_api_gateway.Discovery.Consul
use mini_api_gateway.Discovery.Etcd
use mini_api_gateway.Gateway.Build.{
  Libraries, DynServiceDiscovery, by_consul, by_etcd, Build, optionally, open_discovery, watch_name,
  watch_upstream, watch_routes, start_discovery, default_client, with_pool, pooled_client,
  build_metrics,
}

-- A section is there and enables its part.
abbrev pub asked : {C : Type 0} → (C → Bool) → Option C → Bool
asked enabled none = false
asked enabled (some c) = enabled c

-- What a section makes of its part, where it is there and enables it.
abbrev pub kept : {C A : Type 0} → (C → Bool) → (C → A) → Option C → Option A
kept enabled f none = none
kept enabled f (some c) = if enabled c then some (f c) else none

-- A part that a call makes of its section, where it is there and enables it.
abbrev pub MadeWhen : {E A : Type 0} → Bool → Result E A → Option A → Type 0
MadeWhen {E} {A} true x r = (a : A) × (x ≡ ok a) × (r ≡ some a)
MadeWhen false x r = r ≡ none

abbrev pub Made : {C E A : Type 0} → (C → Bool) → (C → Result E A) → Option C → Option A → Type 0
Made enabled f none r = r ≡ none
Made enabled f (some c) r = MadeWhen (enabled c) (f c) r

-- The names of the services among the routes' upstreams.
abbrev pub service_of : UpstreamConfig → List Text
service_of (static url) = []
service_of (service name via) = name ∷ []
service_of (load_balance endpoints strategy) = []

pub service_names : List RouteConfig → List Text
service_names [] = []
service_names (r ∷ rs) = service_of r.upstream ++ service_names rs

module _ (L : Libraries) where
  open L use {query}
  open query use {Net}

  -- Code that goes on has left what the discovery's clones share as it was.
  abbrev pub Still : {A : Type 0} → Build L A → Type 0
  Still {A} m = (s : Shared Net) (a : A) (s' : Shared Net) → m s ≡ (next a, s') → s' ≡ s

  built-Still :
      {C A : Type 0} (build : C → Build L A) (c : C) (b : Bool) (s : Shared Net) {r : Option A}
      {s' : Shared Net}
      → Still (build c)
      → (if b then build c >>= (λ a. pure (some a)) else pure none) s ≡ (next r, s')
      → (is_some r ≡ b) × (s' ≡ s)
  built-Still build c true s {r} {s'} still h =
      let (a, v, e, k) = >>=-eq-next (build c) _ s h in
      let same : some a ≡ r = cc in
      let after : s' ≡ v = cc in (ap is_some (sym same), (after ∙ still s a v e))
  built-Still build c false s {r} still h = let same : none ≡ r = cc in (ap is_some (sym same), cc)

  pub optionally-Still :
      {C A : Type 0} (enabled : C → Bool) (build : C → Build L A) (o : Option C) (s : Shared Net)
      {r : Option A} {s' : Shared Net}
      → ((c : C) → Still (build c))
      → optionally L enabled build o s ≡ (next r, s')
      → (is_some r ≡ asked enabled o) × (s' ≡ s)
  unfolding optionally
  optionally-Still enabled build none s {r} still h =
      let same : none ≡ r = cc in (ap is_some (sym same), cc)
  optionally-Still enabled build (some c) s {r} still h =
      built-Still build c (enabled c) s (still c) h

  kept-built :
      {C A : Type 0} (f : C → A) (c : C) (b : Bool) (s : Shared Net) {r : Option A}
      {s' : Shared Net}
      → ◌≡◌ {A = Flow GatewayError (Option A) × Shared Net}
          ((if b then pure (f c) >>= (λ a. pure (some a)) else pure none) s)
          (next r, s')
      → (r ≡ (if b then some (f c) else none)) × (s' ≡ s)
  kept-built f c true s h = (cc, cc)
  kept-built f c false s h = (cc, cc)

  -- A part that is made of its section alone.
  pub optionally-kept :
      {C A : Type 0} (enabled : C → Bool) (f : C → A) (o : Option C) (s : Shared Net) {r : Option A}
      {s' : Shared Net}
      → optionally L enabled (λ c. pure (f c)) o s ≡ (next r, s')
      → (r ≡ kept enabled f o) × (s' ≡ s)
  unfolding optionally
  optionally-kept enabled f none s h = (cc, cc)
  optionally-kept enabled f (some c) s h = kept-built f c (enabled c) s h

  built-MadeWhen :
      {A : Type 0} (x : Result GatewayError A) (b : Bool) (s : Shared Net) {r : Option A}
      {s' : Shared Net}
      → ◌≡◌ {A = Flow GatewayError (Option A) × Shared Net}
          ((if b then try x >>= (λ a. pure (some a)) else pure none) s)
          (next r, s')
      → MadeWhen b x r × (s' ≡ s)
  built-MadeWhen (ok a) true s h = ((a, refl, cc), cc)
  built-MadeWhen (err e) true s h = cc
  built-MadeWhen x false s h = (cc, cc)

  -- A part that a call makes of its section.
  pub optionally-Made :
      {C A : Type 0} (enabled : C → Bool) (f : C → Result GatewayError A) (o : Option C)
      (s : Shared Net) {r : Option A} {s' : Shared Net}
      → optionally L enabled (λ c. try (f c)) o s ≡ (next r, s')
      → Made enabled f o r × (s' ≡ s)
  unfolding optionally
  optionally-Made enabled f none s h = (cc, cc)
  optionally-Made enabled f (some c) s h = built-MadeWhen (f c) (enabled c) s h

  unwrap-Still : {A : Type 0} (o : Option A) → Still (unwrap o)
  unwrap-Still o s a s' h = (unwrap-eq-next o s h).1

  pub build_metrics-Still : (c : MetricsConfig) → Still (build_metrics L c)
  unfolding build_metrics
  build_metrics-Still c = unwrap-Still L.install_recorder

  pub pooled_client-Still : (o : Option PoolConfig) → Still (pooled_client L o)
  unfolding pooled_client default_client with_pool
  pooled_client-Still none s a s' h = unwrap-Still (L.build_pool 100 60) s a s' h
  pooled_client-Still (some c) s a s' h = elim (Bool-cases c.enabled) [
    | inl y ↦ unwrap-Still (L.build_pool c.max_connections c.idle_timeout_secs) s a s' (rw y at h)
    | inr n ↦ unwrap-Still (L.build_pool 100 60) s a s' (rw n at h)
  ]

  watch_name-watched :
      (d : DynServiceDiscovery) (name : Text) (s : Shared Net)
      → watch_name L d name s ≡ watching name s
  unfolding watch_name Consul.watch Etcd.watch
  watch_name-watched (by_consul d) name s = refl
  watch_name-watched (by_etcd d) name s = refl

  -- What watching a list of names makes of the shared state.
  abbrev pub watching_all : List Text → Shared Net → Shared Net
  watching_all names s = record s { watched = reverse_aux names s.watched }

  watch_upstream-watching_all :
      (d : DynServiceDiscovery) (u : UpstreamConfig) (s : Shared Net)
      → watch_upstream L d u s ≡ watching_all (service_of u) s
  unfolding watch_upstream
  watch_upstream-watching_all d (static url) s = refl
  watch_upstream-watching_all d (service name via) s = watch_name-watched d name s
  watch_upstream-watching_all d (load_balance endpoints strategy) s = refl

  watch_routes-watching_all :
      (d : DynServiceDiscovery) (rs : List RouteConfig) (s : Shared Net)
      → watch_routes L d rs s ≡ watching_all (service_names rs) s
  unfolding watch_routes service_names
  watch_routes-watching_all d [] s = refl
  watch_routes-watching_all d (r ∷ rs) s =
      ap (watch_routes L d rs) (watch_upstream-watching_all d r.upstream s)
      ∙ watch_routes-watching_all d rs (watching_all (service_of r.upstream) s)
      ∙ ap (λ (names : List Text). record s { watched = names })
          (sym (reverse_aux-append (service_of r.upstream) (service_names rs) s.watched))

  start_discovery-next :
      (rs : List RouteConfig) (c : DiscoveryConfig) (s : Shared Net) {d : DynServiceDiscovery}
      {s' : Shared Net}
      → start_discovery L rs c s ≡ (next d, s')
      → s' ≡ watching_all (service_names rs) s
  unfolding start_discovery
  start_discovery-next rs c s {d} {s'} h =
      let (a, v, e, k) = >>=-eq-next (try (open_discovery L c)) _ s h in
      let after : s' ≡ watch_routes L a rs v = cc in
      let same : v ≡ s = (try-eq-next (open_discovery L c) s e).1 in
      after ∙ (rw same (watch_routes-watching_all a rs s))

  -- What building the discovery makes of the shared state.
  abbrev pub watched_by : GatewayConfig → Shared Net → Shared Net
  watched_by config s =
      if asked (λ c. c.enabled) config.discovery
      then watching_all (service_names config.routes) s
      else s

  pub discovery-next :
      (rs : List RouteConfig) (o : Option DiscoveryConfig) (s : Shared Net)
      {r : Option DynServiceDiscovery} {s' : Shared Net}
      → optionally L (λ c. c.enabled) (start_discovery L rs) o s ≡ (next r, s')
      → (is_some r ≡ asked (λ c. c.enabled) o)
        × (s' ≡ (if asked (λ c. c.enabled) o then watching_all (service_names rs) s else s))
  unfolding optionally
  discovery-next rs none s {r} h = let same : none ≡ r = cc in (ap is_some (sym same), cc)
  discovery-next rs (some c) s {r} {s'} h = go c.enabled h
    where
      go :
          (b : Bool)
          → (if b then start_discovery L rs c >>= (λ a. pure (some a)) else pure none) s
            ≡ (next r, s')
          → (is_some r ≡ b) × (s' ≡ (if b then watching_all (service_names rs) s else s))
      go true k =
          let (a, v, e, f) = >>=-eq-next (start_discovery L rs c) _ s k in
          let same : some a ≡ r = cc in
          let after : s' ≡ v = cc in (ap is_some (sym same), after ∙ start_discovery-next rs c s e)
      go false k = let same : none ≡ r = cc in (ap is_some (sym same), cc)
