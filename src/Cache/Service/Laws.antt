-- ===== src/Cache/Service/Laws.antt =====
-- What the cache service answers on a hit, and what it stores on a miss.
use mini_api_gateway.Common.{
  ◌≡◌, refl, ap, ◌∙◌, true, ◌&&◌, none, some, List, [], ◌∷◌, leb, ltb, Memᴰ, Text, text, text_eq,
  starts_with, ok, Flow, next,
}
use mini_api_gateway.Config.{CacheConfig}
use mini_api_gateway.Http.{Http, Request, Response, is_plain_name, is_visible}
use mini_api_gateway.Http.Fields.{
  Field, field_value, appends, add_fields, AreValid, build_fields, get-appends_empty,
}
use mini_api_gateway.Cache.{CachedResponse, CacheBackendTrait, build_key}
use mini_api_gateway.Cache
use mini_api_gateway.Cache.Rules.{IsCacheable, should_cache_iff}
use mini_api_gateway.Cache.Service.{
  Service, put_headers, hit_response, to_cached, miss_response, store, stored_flow, answered, call,
}

-- Entries of a header map as fields.
abbrev pub fields : List (Text × Text) → List Field
fields [] = []
fields ((k, v) ∷ es) = (k, some v) ∷ fields es

-- The fields of a response that comes from the cache, or goes there: its own, and `X-Cache`.
abbrev pub marked : Text → List (Text × Text) → List Field
marked mark [] = (text "X-Cache", some mark) ∷ []
marked mark ((k, v) ∷ es) = (k, some v) ∷ marked mark es

pub hit_visible : is_visible (text "HIT") ≡ true
unfolding is_visible text
hit_visible = refl

miss_visible : is_visible (text "MISS") ≡ true
unfolding is_visible text
miss_visible = refl

module _ (http : Http) where
  open http use {HeaderMap, Builder, status, header, body, get, empty}

  -- A status, and headers, that a response may have.
  pub record IsSendable (c : CachedResponse) : Type 0 where
    pub status : leb 100 c.status && ltb c.status 1000 ≡ true
    pub headers : AreValid http (fields c.headers)

  -- A response with the status and the body of a stored one, and its headers before `X-Cache`.
  pub record Replays (mark : Text) (c : CachedResponse) (r : Response HeaderMap) : Type 0 where
    pub status : r.status ≡ c.status
    pub body : r.body ≡ c.body
    pub headers : (j : Text) → get r.headers j ≡ field_value j (marked mark c.headers)

  marked-AreValid :
      (mark : Text) (es : List (Text × Text))
      → http.valid_name (text "X-Cache") ≡ true
      → http.valid_value mark ≡ true
      → AreValid http (fields es)
      → AreValid http (marked mark es)
  marked-AreValid mark [] n v h = ((n, v), tt)
  marked-AreValid mark ((k, u) ∷ es) n v h = (h.0, marked-AreValid mark es n v h.1)

  put_headers-fields :
      (lossy : Text → Text) (backend : CacheBackendTrait) (mark : Text) (es : List (Text × Text))
      (b : Builder)
      → header (put_headers http lossy backend es b) (text "X-Cache") mark
        ≡ add_fields http b (marked mark es)
  unfolding put_headers add_fields
  put_headers-fields lossy backend mark [] b = refl
  put_headers-fields lossy backend mark ((k, v) ∷ es) b =
      put_headers-fields lossy backend mark es (header b k v)

  -- A stored response is built anew, without a panic.
  pub rebuilt :
      (lossy : Text → Text) (backend : CacheBackendTrait) (mark : Text) (c : CachedResponse)
      → IsSendable c
      → is_visible mark ≡ true
      → (r : Response HeaderMap) × (body
            (header
              (put_headers http lossy backend c.headers (status c.status))
              (text "X-Cache")
              mark)
            c.body
          ≡ some r)
        × Replays mark c r
  unfolding is_plain_name text
  rebuilt lossy backend mark c v m = (
    record {
      status = c.status;
      headers = appends http empty (marked mark c.headers);
      body = c.body;
    },
    ap (λ (b : Builder). body b c.body)
          (put_headers-fields lossy backend mark c.headers (status c.status))
        ∙ build_fields http c.status (marked mark c.headers) c.body v.status (
            marked-AreValid mark c.headers (http.plain_name_valid (text "X-Cache") refl)
              (http.visible_valid mark m) v.headers),
    record { status = refl; body = refl; headers = get-appends_empty http (marked mark c.headers) },
  )

  module _ (lossy : Text → Text) (backend : CacheBackendTrait) {W E : Type 0} (config : CacheConfig)
      (inner : Service HeaderMap W E) where
    open backend use {Store}

    -- The key of a request.
    abbrev pub key_of : Request HeaderMap → Text
    key_of req = build_key http lossy config.key_strategy req

    -- The future that the wrapped service returns, run to its end.
    abbrev pub awaited : Request HeaderMap → W → Flow E (Response HeaderMap) × W
    awaited req w = (inner req w).0 (inner req w).1

    -- The state of the backend after a response was stored.
    abbrev pub after_set : Request HeaderMap → Response HeaderMap → Store → Store
    after_set req r s =
        (backend.set s (key_of req) (to_cached http lossy backend r) config.default_ttl_secs).1

    -- A GET request whose response is stored is answered with the stored status, body and headers, and
    -- with `X-Cache: HIT`, if the stored response can be sent. The wrapped service has been
    -- called, but its future is not awaited: only what the call itself does has happened.
    call-hit :
        (req : Request HeaderMap) (s s' : Store) (w : W) (c : CachedResponse)
        → text_eq req.method (text "GET") ≡ true
        → backend.get s (key_of req) ≡ (ok (some c), s')
        → IsSendable c
        → (r : Response HeaderMap) × (call http lossy backend config inner req (s, w)
            ≡ (next r, (s', (inner req w).1)))
          × Replays (text "HIT") c r
    unfolding call answered hit_response
    call-hit req s s' w c g found v =
        let (r, built, replays) = rebuilt lossy backend (text "HIT") c v hit_visible in
        (r, rw (found, g, built) refl, replays)

    call-missed :
        (req : Request HeaderMap) (s s' : Store) (w w' : W) (resp : Response HeaderMap)
        → text_eq req.method (text "GET") ≡ true
        → backend.get s (key_of req) ≡ (ok none, s')
        → awaited req w ≡ (next resp, w')
        → call http lossy backend config inner req (s, w)
          ≡ store http lossy backend config (key_of req) resp (s', w')
    unfolding call answered stored_flow
    call-missed req s s' w w' resp g missed went = rw (missed, g, went) refl

    -- A GET request that the backend has nothing for is answered by the wrapped service. If the rules
    -- allow to cache its response as one to a GET of `/`, and it can be sent, then it is stored under
    -- the key of the request and answered with `X-Cache: MISS`.
    call-stores :
        (req : Request HeaderMap) (s s' : Store) (w w' : W) (resp : Response HeaderMap)
        → text_eq req.method (text "GET") ≡ true
        → backend.get s (key_of req) ≡ (ok none, s')
        → awaited req w ≡ (next resp, w')
        → IsCacheable config (text "GET") (text "/") resp.status
        → IsSendable (to_cached http lossy backend resp)
        → (r : Response HeaderMap) × (call http lossy backend config inner req (s, w)
            ≡ (next r, (after_set req resp s', w')))
          × Replays (text "MISS") (to_cached http lossy backend resp) r
    unfolding store miss_response Cache.set
    call-stores req s s' w w' resp g missed went allowed v =
        let (r, built, replays) =
          rebuilt lossy backend (text "MISS") (to_cached http lossy backend resp) v miss_visible in
        (
          r,
          call-missed req s s' w w' resp g missed went
              ∙ (rw ((should_cache_iff config (text "GET") (text "/") resp.status).1 allowed, built)
                  refl),
          replays,
        )

    -- Of two equal GET requests the first is answered by the wrapped service and the second from the
    -- cache, with the same status, body and headers but for `X-Cache`: if the backend had nothing
    -- before and keeps what is stored until the second request, and if the rules allow to cache the
    -- response as one to a GET of `/`, and it can be sent.
    pub call-twice :
        (req : Request HeaderMap) (s s' t : Store) (w w' v : W) (resp : Response HeaderMap)
        → text_eq req.method (text "GET") ≡ true
        → backend.get s (key_of req) ≡ (ok none, s')
        → awaited req w ≡ (next resp, w')
        → IsCacheable config (text "GET") (text "/") resp.status
        → IsSendable (to_cached http lossy backend resp)
        → backend.get (after_set req resp s') (key_of req)
          ≡ (ok (some (to_cached http lossy backend resp)), t)
        → (a : Response HeaderMap) × (b : Response HeaderMap) × (call http lossy backend config
              inner req
              (s, w)
            ≡ (next a, (after_set req resp s', w')))
          × (call http lossy backend config inner req (after_set req resp s', v)
              ≡ (next b, (t, (inner req v).1)))
          × Replays (text "MISS") (to_cached http lossy backend resp) a
          × Replays (text "HIT") (to_cached http lossy backend resp) b
    call-twice req s s' t w w' v resp g missed went allowed sendable kept =
        let (a, first, replays) = call-stores req s s' w w' resp g missed went allowed sendable in
        let (b, second, repeats) =
          call-hit req (after_set req resp s') t v (to_cached http lossy backend resp) g kept
            sendable in
        (a, b, first, second, replays, repeats)

    -- The excluded paths do not keep a response out of the cache: the response to a GET request for an
    -- excluded path, which the rules do not allow to cache, is stored all the same where they allow
    -- to cache it as one to a GET of `/`, it can be sent, and the backend had nothing for the request.
    pub call-excluded :
        (req : Request HeaderMap) (s s' : Store) (w w' : W) (resp : Response HeaderMap) (p : Text)
        → text_eq req.method (text "GET") ≡ true
        → backend.get s (key_of req) ≡ (ok none, s')
        → awaited req w ≡ (next resp, w')
        → IsCacheable config (text "GET") (text "/") resp.status
        → IsSendable (to_cached http lossy backend resp)
        → Memᴰ p config.excluded_paths
        → starts_with req.path p ≡ true
        → (¬ IsCacheable config (text "GET") req.path resp.status)
          × ((r : Response HeaderMap) × (call http lossy backend config inner req (s, w)
                ≡ (next r, (after_set req resp s', w'))))
    call-excluded req s s' w w' resp p g missed went allowed v listed begins =
        let (r, stores, replays) = call-stores req s s' w w' resp g missed went allowed v in
        ((λ c. cc (c.not_excluded p listed)), (r, stores))
