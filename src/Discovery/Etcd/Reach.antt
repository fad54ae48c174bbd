-- ===== src/Discovery/Etcd/Reach.antt =====
-- What the etcd discovery answers in any state that can be reached.
use mini_api_gateway.Common.{
  ◌≡◌, ◌≢◌, refl, sym, ap, ◌∙◌, subst, inl, inr, false, none, some, List, [], ◌∷◌, All, is_empty,
  Option-cases, Bool-cases, Text, Result, ok, err,
}
use mini_api_gateway.Error.{GatewayError}
use mini_api_gateway.Discovery.Shared.{
  QueryClient, Shared, lookup, put, lookup-put, first_cached, AreAddresses, first_cached-IsAddress,
}
use mini_api_gateway.Discovery.Steps.{Reach, Reach-AreAddresses}
use mini_api_gateway.Discovery.Etcd.{
  EtcdDiscovery, EtcdCodec, EtcdKeyValue, endpoint_url, endpoint_urls, found, health_check, choose,
  resolve, refreshed, tick,
}

-- A text that is not empty.
abbrev pub IsFilled : Text → Type 0
IsFilled e = e ≢ []

filled : (e : Text) → is_empty e ≡ false → IsFilled e
filled [] h = cc
filled (c ∷ e) h = cc

endpoint_urls-IsFilled :
    (codec : EtcdCodec) (kvs : List EtcdKeyValue) → All IsFilled (endpoint_urls codec kvs)
unfolding endpoint_urls
endpoint_urls-IsFilled codec [] = tt
endpoint_urls-IsFilled codec (kv ∷ kvs) = elim (Bool-cases (is_empty (endpoint_url codec kv))) [
  | inl y ↦ rw y (endpoint_urls-IsFilled codec kvs)
  | inr n ↦ rw n (filled (endpoint_url codec kv) n, endpoint_urls-IsFilled codec kvs)
]

module _ (codec : EtcdCodec) (client : QueryClient) (d : EtcdDiscovery) where
  open client use {Net}

  -- The answer of a health check and its state: the endpoints are in the table too.
  abbrev Finds : Text → Result GatewayError (List Text) × Shared Net → Type 0
  Finds name (err e, s) = AreAddresses IsFilled s.endpoints
  Finds name (ok es, s) =
      All IsFilled es × (lookup name s.endpoints ≡ some es) × AreAddresses IsFilled s.endpoints

  found-Finds :
      (name : Text) (r : Result GatewayError (List EtcdKeyValue)) (s : Shared Net)
      → AreAddresses IsFilled s.endpoints
      → Finds name (found codec client name r s)
  unfolding found put
  found-Finds name (err e) s h = h
  found-Finds name (ok kvs) s h =
      let all = endpoint_urls-IsFilled codec kvs in
      (all, lookup-put name (endpoint_urls codec kvs) s.endpoints, (all, h))

  health_check-Finds :
      (name : Text) (s : Shared Net)
      → AreAddresses IsFilled s.endpoints
      → Finds name (health_check codec client d name s)
  unfolding health_check
  health_check-Finds name s h = found-Finds name _ _ h

  Finds-AreAddresses :
      (name : Text) (x : Result GatewayError (List Text) × Shared Net)
      → Finds name x
      → AreAddresses IsFilled x.1.endpoints
  Finds-AreAddresses name (err e, s) f = f
  Finds-AreAddresses name (ok es, s) f = f.2

  check_keeps :
      (name : Text) (s : Shared Net)
      → AreAddresses IsFilled s.endpoints
      → AreAddresses IsFilled (health_check codec client d name s).1.endpoints
  check_keeps name s h = Finds-AreAddresses name _ (health_check-Finds name s h)

  refreshed_keeps :
      (name : Text) (x : Result GatewayError (List Text) × Shared Net)
      → Finds name x
      → AreAddresses IsFilled (refreshed codec client name x).endpoints
  unfolding refreshed put
  refreshed_keeps name (err e, s) f = f
  refreshed_keeps name (ok es, s) f = (f.0, f.2)

  tick_keeps :
      (name : Text) (s : Shared Net)
      → AreAddresses IsFilled s.endpoints
      → AreAddresses IsFilled (tick codec client d name s).endpoints
  unfolding tick
  tick_keeps name s h =
      refreshed_keeps name (health_check codec client d name s) (health_check-Finds name s h)

  choose-state :
      (x : Result GatewayError (List Text) × Shared Net) → (choose codec client x).1 ≡ x.1
  unfolding choose
  choose-state (err e, s) = refl
  choose-state (ok [], s) = refl
  choose-state (ok (e ∷ es), s) = refl

  resolve-cached :
      (name : Text) (s : Shared Net) (e : Text)
      → first_cached (lookup name s.endpoints) ≡ some e
      → resolve codec client d name s ≡ (ok e, s)
  unfolding resolve
  resolve-cached name s e c = rw (c, resolve) refl

  resolve-uncached :
      (name : Text) (s : Shared Net)
      → first_cached (lookup name s.endpoints) ≡ none
      → resolve codec client d name s ≡ choose codec client (health_check codec client d name s)
  unfolding resolve
  resolve-uncached name s c = rw (c, resolve) refl

  resolve_keeps :
      (name : Text) (s : Shared Net)
      → AreAddresses IsFilled s.endpoints
      → AreAddresses IsFilled (resolve codec client d name s).1.endpoints
  resolve_keeps name s h = elim (Option-cases (first_cached (lookup name s.endpoints))) [
    | inl n ↦
        rw (resolve-uncached name s n, choose-state (health_check codec client d name s))
          (check_keeps name s h)
    | inr (e, c) ↦ rw (resolve-cached name s e c) h
  ]

  choose_sound :
      (name : Text) (x : Result GatewayError (List Text) × Shared Net) (t : Shared Net) (e : Text)
      → Finds name x
      → choose codec client x ≡ (ok e, t)
      → IsFilled e × (first_cached (lookup name t.endpoints) ≡ some e)
  unfolding choose first_cached
  choose_sound name (err y, s) t e f h = cc
  choose_sound name (ok [], s) t e f h = cc
  choose_sound name (ok (y ∷ es), s) t e f h =
      let same : y ≡ e = cc in
      let state : s ≡ t = cc in
      (
        subst IsFilled same f.0.0,
        subst (λ (u : Shared Net). first_cached (lookup name u.endpoints) ≡ some e) state
            (ap first_cached f.1 ∙ ap some same),
      )

  -- In every state that callers, background tasks and the network can bring about, an address that
  -- `resolve` answers is not empty. Asked again at once, it answers the same address and sends no
  -- query: the state is unchanged.
  resolve-IsFilled :
      (name : Text) {s t : Shared Net} {e : Text}
      → Reach (resolve codec client d) (health_check codec client d) (tick codec client d) s
      → resolve codec client d name s ≡ (ok e, t)
      → IsFilled e × (resolve codec client d name t ≡ (ok e, t))
  resolve-IsFilled name {s} {t} {e} reach h =
      let kept = Reach-AreAddresses _ _ _ IsFilled resolve_keeps check_keeps tick_keeps reach in
      elim (Option-cases (first_cached (lookup name s.endpoints))) [
        | inl n ↦
            let (address, c) =
              choose_sound name _ t e (health_check-Finds name s kept)
                (sym (resolve-uncached name s n) ∙ h) in
            (address, resolve-cached name t e c)
        | inr (x, c) ↦
            let hit = resolve-cached name s x c in
            let same : x ≡ e = cc in
            let still : s ≡ t = cc in
            (
              subst IsFilled same (first_cached-IsAddress IsFilled name s.endpoints x kept c),
              subst (λ (u : Shared Net). resolve codec client d name u ≡ (ok e, u)) still
                  (hit ∙ ap (λ (y : Text). (ok y, s)) same),
            )
      ]
