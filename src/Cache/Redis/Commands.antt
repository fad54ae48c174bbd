-- ===== src/Cache/Redis/Commands.antt =====
-- What a command of the Redis cache leaves on the server, and what a reading finds there.
use mini_api_gateway.Common.{
  ℕ, ◌≡◌, ◌≢◌, refl, sym, ap, ◌∙◌, ◌⊎◌, inl, inr, Bool, true, false, Option, none, some,
  Option-cases, Text, Result, ok, err, map_err, >>=?-eq-ok, map_err-eq-ok,
}
use mini_api_gateway.Error.{GatewayError}
use mini_api_gateway.Cache.{CachedResponse}
use mini_api_gateway.Cache.Redis.{
  RedisLib, RedisState, connected, get_conn, deserialize, on_conn, read_value, get_on, set_on,
  del_on, flush_on, redis_get,
}

abbrev pub is_ok : {A : Type 0} → Result GatewayError A → Bool
is_ok (ok a) = true
is_ok (err e) = false

-- Whether a command failed, after its error has become a gateway's.
not_ok :
    (f : Text → GatewayError) (r : Result Text (Unit {0})) → r ≢ ok tt → is_ok (map_err f r) ≡ false
not_ok f (ok u) h = absurd (h refl)
not_ok f (err e) h = refl

failed_or :
    (f : Text → GatewayError) (r : Result Text (Unit {0})) {k j : Text}
    → (r ≢ ok tt) ⊎ (k ≢ j)
    → (is_ok (map_err f r) ≡ false) ⊎ (k ≢ j)
failed_or f r (inl h) = inl (not_ok f r h)
failed_or f r (inr n) = inr n

module _ (lib : RedisLib) where
  open lib use {Client, Conn, Server, stored}

  connected-stored :
      (x : Result Text Conn × Server) (j : Text)
      → stored (connected lib x).1.server j ≡ stored x.1 j
  unfolding connected
  connected-stored (ok c, server) j = refl
  connected-stored (err e, server) j = refl

  get_conn-old :
      (client : Client) (s : RedisState lib) (c : Conn)
      → s.conn ≡ some c
      → get_conn lib client s ≡ (ok c, s)
  unfolding get_conn
  get_conn-old client s c e = go s.conn e
    where
      go :
          (o : Option Conn)
          → o ≡ some c
          → elim o as (λ _. Result GatewayError Conn × RedisState lib) [
            | some d ↦ (ok d, s)
            | none ↦ connected lib (lib.connect client s.server)
          ]
            ≡ (ok c, s)
      go none e = cc
      go (some d) e = let same : d ≡ c = cc in ap (λ (x : Conn). (ok x, s)) same

  get_conn-new :
      (client : Client) (s : RedisState lib)
      → s.conn ≡ none
      → get_conn lib client s ≡ connected lib (lib.connect client s.server)
  unfolding get_conn
  get_conn-new client s e = rw (e, get_conn) refl

  pub get_conn-stored :
      (client : Client) (s : RedisState lib) (j u : Text)
      → stored (get_conn lib client s).1.server j ≡ some u
      → stored s.server j ≡ some u
  get_conn-stored client s j u h = elim (Option-cases s.conn) [
    | inl n ↦ lib.stored-connect client s.server j u (
        sym (connected-stored (lib.connect client s.server) j)
        ∙ ap (λ (x : Result GatewayError Conn × RedisState lib). stored x.1.server j)
            (sym (get_conn-new client s n))
        ∙ h)
    | inr (c, e) ↦
        ap (λ (x : Result GatewayError Conn × RedisState lib). stored x.1.server j)
          (sym (get_conn-old client s c e))
        ∙ h
  ]

  module _ (j u : Text) where
    -- What is stored after a method, given what was stored when its connection was there.
    pub get-stored :
        (k : Text) (r : Result GatewayError Conn) (s : RedisState lib)
        → stored (on_conn lib (get_on lib k) (r, s)).1.server j ≡ some u
        → stored s.server j ≡ some u
    unfolding on_conn get_on
    get-stored k (err e) s h = h
    get-stored k (ok c) s h = lib.stored-get c k s.server j u h

    pub set-stored :
        (k : Text) (b : Result GatewayError Text) (ttl : ℕ) (r : Result GatewayError Conn)
        (s : RedisState lib)
        → stored (on_conn lib (set_on lib k b ttl) (r, s)).1.server j ≡ some u
        → ((k ≡ j) × (b ≡ ok u))
          ⊎ (((is_ok (on_conn lib (set_on lib k b ttl) (r, s)).0 ≡ false) ⊎ (k ≢ j))
              × (stored s.server j ≡ some u))
    unfolding on_conn set_on
    set-stored k b ttl (err e) s h = inr (inl refl, h)
    set-stored k (err e) ttl (ok c) s h = inr (inl refl, h)
    set-stored k (ok b) ttl (ok c) s h = elim (lib.stored-set_ex c k b ttl s.server j u h) [
      | inl (same, is) ↦ inl (same, ap ok (sym is))
      | inr (kept, old) ↦ inr (failed_or _ _ kept, old)
    ]

    pub del-stored :
        (k : Text) (r : Result GatewayError Conn) (s : RedisState lib)
        → stored (on_conn lib (del_on lib k) (r, s)).1.server j ≡ some u
        → ((is_ok (on_conn lib (del_on lib k) (r, s)).0 ≡ false) ⊎ (k ≢ j))
          × (stored s.server j ≡ some u)
    unfolding on_conn del_on
    del-stored k (err e) s h = (inl refl, h)
    del-stored k (ok c) s h =
        let (kept, old) = lib.stored-del c k s.server j u h in (failed_or _ _ kept, old)

    pub flush-stored :
        (r : Result GatewayError Conn) (s : RedisState lib)
        → stored (on_conn lib (flush_on lib) (r, s)).1.server j ≡ some u
        → (is_ok (on_conn lib (flush_on lib) (r, s)).0 ≡ false) × (stored s.server j ≡ some u)
    unfolding on_conn flush_on
    flush-stored (err e) s h = (refl, h)
    flush-stored (ok c) s h =
        let (failed, old) = lib.stored-flushdb c s.server j u h in (not_ok _ _ failed, old)

  read_value_sound :
      (o : Option Text) (v : CachedResponse)
      → read_value lib o ≡ ok (some v)
      → (u : Text) × (o ≡ some u) × (lib.from_slice u ≡ ok v)
  unfolding read_value deserialize
  read_value_sound none v h = cc
  read_value_sound (some u) v h =
      let (x, reads, made) =
        >>=?-eq-ok (map_err GatewayError.serialization (lib.from_slice u))
          (λ (y : CachedResponse). ok (some y)) h in
      let same : x ≡ v = cc in
      (u, refl, map_err-eq-ok GatewayError.serialization (lib.from_slice u) reads ∙ ap ok same)

  get_on_sound :
      (key : Text) (r : Result GatewayError Conn) (s : RedisState lib) (v : CachedResponse)
      → (on_conn lib (get_on lib key) (r, s)).0 ≡ ok (some v)
      → (u : Text) × (stored s.server key ≡ some u) × (lib.from_slice u ≡ ok v)
  unfolding on_conn get_on
  get_on_sound key (err e) s v h = cc
  get_on_sound key (ok c) s v h =
      let (o, found, read) = >>=?-eq-ok _ (read_value lib) h in
      let (u, is, reads) = read_value_sound o v read in
      (u, lib.get_sound c key s.server u (map_err-eq-ok _ _ found ∙ ap ok is), reads)

  pub redis_get_sound :
      (client : Client) (s : RedisState lib) (key : Text) (v : CachedResponse)
      → (redis_get lib client s key).0 ≡ ok (some v)
      → (u : Text) × (stored s.server key ≡ some u) × (lib.from_slice u ≡ ok v)
  unfolding redis_get
  redis_get_sound client s key v h =
      let (u, holds, reads) =
        get_on_sound key (get_conn lib client s).0 (get_conn lib client s).1 v h in
      (u, get_conn-stored client s key u holds, reads)
