-- ===== src/Discovery/Consul/Reach.antt =====
-- What the Consul discovery answers in any state that can be reached.
use mini_api_gateway.Common.{
  ℕ, ◌≡◌, ◌≢◌, refl, sym, ap, ◌∙◌, subst, inl, inr, none, some, List, [], ◌∷◌, ◌++◌, All,
  Option-cases, Text, text, decimal, Result, ok, err, Memᴰ, >>=?-eq-ok,
}
use mini_api_gateway.Error.{GatewayError}
use mini_api_gateway.Discovery.Shared.{
  QueryClient, Shared, lookup, put, lookup-put, first_cached, AreAddresses, first_cached-IsAddress,
}
use mini_api_gateway.Discovery.Steps.{Reach, Reach-AreAddresses}
use mini_api_gateway.Discovery.Consul.{
  ConsulDiscovery, ConsulService, endpoints_of, endpoint_of, read_services, health_check, learn,
  resolve, refreshed, tick,
}
use mini_api_gateway.Discovery.Consul.Health.{IsServing, endpoints_of_sound}

-- An address that the discovery makes of a service: `http://`, a host and a port.
pub record IsHttpAddress (e : Text) : Type 0 where
  pub host : Text
  pub port : ℕ
  pub named : host ≢ []
  pub form : e ≡ text "http://" ++ (host ++ (text ":" ++ decimal port))

All-of_members : {P : Text → Type 0} (xs : List Text) → ((e : Text) → Memᴰ e xs → P e) → All P xs
All-of_members [] h = tt
All-of_members (x ∷ xs) h = (h x (Memᴰ.head refl), All-of_members xs (λ e m. h e (Memᴰ.tail m)))

endpoint-IsHttpAddress : (svc : ConsulService) → IsServing svc → IsHttpAddress (endpoint_of svc)
unfolding endpoint_of
endpoint-IsHttpAddress svc v = record {
  host = svc.service_address;
  port = svc.service_port;
  named = v.addressed;
  form = refl;
}

endpoints_of-IsHttpAddress : (svcs : List ConsulService) → All IsHttpAddress (endpoints_of svcs)
endpoints_of-IsHttpAddress svcs = All-of_members (endpoints_of svcs) (λ e m.
    let (svc, listed, v, same) = endpoints_of_sound svcs e m in
    subst IsHttpAddress (sym same) (endpoint-IsHttpAddress svc v))

module _ (client : QueryClient) (services : Text → Result Text (List ConsulService))
    (d : ConsulDiscovery) where
  open client use {Net}

  pub health_check_sound :
      (name : Text) (s : Shared Net) (es : List Text)
      → (health_check client services d name s).0 ≡ ok es
      → All IsHttpAddress es
  unfolding health_check
  health_check_sound name s es h =
      let (svcs, read, made) =
        >>=?-eq-ok (read_services client services (client.get _ s.net).0)
          (λ svcs. ok (endpoints_of svcs)) h in
      let same : endpoints_of svcs ≡ es = cc in
      subst (λ (x : List Text). All IsHttpAddress x) same (endpoints_of-IsHttpAddress svcs)

  health_check-endpoints :
      (name : Text) (s : Shared Net)
      → (health_check client services d name s).1.endpoints ≡ s.endpoints
  unfolding health_check
  health_check-endpoints name s = refl

  pub check_keeps :
      (name : Text) (s : Shared Net)
      → AreAddresses IsHttpAddress s.endpoints
      → AreAddresses IsHttpAddress (health_check client services d name s).1.endpoints
  check_keeps name s h = rw (health_check-endpoints name s) h

  -- What `learn` and `refreshed` store.
  pub learn_keeps :
      (name : Text) (r : Result GatewayError (List Text)) (s : Shared Net)
      → ((es : List Text) → r ≡ ok es → All IsHttpAddress es)
      → AreAddresses IsHttpAddress s.endpoints
      → AreAddresses IsHttpAddress (learn client services name (r, s)).1.endpoints
  unfolding learn put
  learn_keeps name (err e) s f h = h
  learn_keeps name (ok []) s f h = h
  learn_keeps name (ok (e ∷ es)) s f h = (f (e ∷ es) refl, h)

  pub refreshed_keeps :
      (name : Text) (r : Result GatewayError (List Text)) (s : Shared Net)
      → ((es : List Text) → r ≡ ok es → All IsHttpAddress es)
      → AreAddresses IsHttpAddress s.endpoints
      → AreAddresses IsHttpAddress (refreshed client services name (r, s)).endpoints
  unfolding refreshed put
  refreshed_keeps name (err e) s f h = h
  refreshed_keeps name (ok es) s f h = (f es refl, h)

  tick_keeps :
      (name : Text) (s : Shared Net)
      → AreAddresses IsHttpAddress s.endpoints
      → AreAddresses IsHttpAddress (tick client services d name s).endpoints
  unfolding tick
  tick_keeps name s h = refreshed_keeps name _ _ (health_check_sound name s) (check_keeps name s h)

  resolve-cached :
      (name : Text) (s : Shared Net) (e : Text)
      → first_cached (lookup name s.endpoints) ≡ some e
      → resolve client services d name s ≡ (ok e, s)
  unfolding resolve
  resolve-cached name s e c = rw (c, resolve) refl

  resolve-uncached :
      (name : Text) (s : Shared Net)
      → first_cached (lookup name s.endpoints) ≡ none
      → resolve client services d name s
        ≡ learn client services name (health_check client services d name s)
  unfolding resolve
  resolve-uncached name s c = rw (c, resolve) refl

  resolve_keeps :
      (name : Text) (s : Shared Net)
      → AreAddresses IsHttpAddress s.endpoints
      → AreAddresses IsHttpAddress (resolve client services d name s).1.endpoints
  resolve_keeps name s h = elim (Option-cases (first_cached (lookup name s.endpoints))) [
    | inl n ↦
        rw (resolve-uncached name s n)
          (learn_keeps name _ _ (health_check_sound name s) (check_keeps name s h))
    | inr (e, c) ↦ rw (resolve-cached name s e c) h
  ]

  pub learn_sound :
      (name : Text) (r : Result GatewayError (List Text)) (s t : Shared Net) (e : Text)
      → ((es : List Text) → r ≡ ok es → All IsHttpAddress es)
      → learn client services name (r, s) ≡ (ok e, t)
      → IsHttpAddress e × (first_cached (lookup name t.endpoints) ≡ some e)
  unfolding learn first_cached
  learn_sound name (err x) s t e f h = cc
  learn_sound name (ok []) s t e f h = cc
  learn_sound name (ok (x ∷ es)) s t e f h =
      let same : x ≡ e = cc in
      let table : t.endpoints ≡ put name (x ∷ es) s.endpoints = cc in
      (
        subst IsHttpAddress same (f (x ∷ es) refl).0,
        rw (table, lookup-put name (x ∷ es) s.endpoints) (ap some same),
      )

  -- In every state that callers, background tasks and the network can bring about, an address that
  -- `resolve` answers is `http://`, a host that is not empty, and a port. Asked again at once, it
  -- answers the same address and sends no query: the state is unchanged.
  pub resolve-IsHttpAddress :
      (name : Text) {s t : Shared Net} {e : Text}
      → Reach
          (resolve client services d)
          (health_check client services d)
          (tick client services d)
          s
      → resolve client services d name s ≡ (ok e, t)
      → IsHttpAddress e × (resolve client services d name t ≡ (ok e, t))
  resolve-IsHttpAddress name {s} {t} {e} reach h =
      let found =
        Reach-AreAddresses _ _ _ IsHttpAddress resolve_keeps check_keeps tick_keeps reach in
      elim (Option-cases (first_cached (lookup name s.endpoints))) [
        | inl n ↦
            let (address, c) =
              learn_sound name _ _ t e (health_check_sound name s)
                (sym (resolve-uncached name s n) ∙ h) in
            (address, resolve-cached name t e c)
        | inr (x, c) ↦
            let hit = resolve-cached name s x c in
            let same : x ≡ e = cc in
            let still : s ≡ t = cc in
            (
              subst IsHttpAddress same
                  (first_cached-IsAddress IsHttpAddress name s.endpoints x found c),
              subst (λ (u : Shared Net). resolve client services d name u ≡ (ok e, u)) still
                  (hit ∙ ap (λ (y : Text). (ok y, s)) same),
            )
      ]
