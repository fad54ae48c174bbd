-- ===== src/Gateway/Preflights.antt =====
-- src/gateway.rs and src/middleware/cors.rs: preflight requests are answered twice, by a stage of
-- `handle_request` and by a service.
use mini_api_gateway.Common.{
  ◌≡◌, ◌≢◌, refl, ◌↔◌, ◌⊎◌, inl, inr, Bool, true, false, ◌||◌, none, some, [], ◌∷◌, Memᴰ, any_sound,
  any_complete, arith, Bool-cases, is_empty, Text, text, text_eq, text_eq_iff, Flow, next, stop,
  panic, Run, ◌>>=◌, ◌>>◌,
}
use mini_api_gateway.Http.{Request, Response}
use mini_api_gateway.Http.Fields.{field_value}
use mini_api_gateway.Cors.{CorsLayer, is_origin_allowed, origin_of}
use mini_api_gateway.Cors
use mini_api_gateway.Cors.Headers.{
  IsServable, preflight_fields, response_fields, Decorates, add_cors_headers-Decorates,
}
use mini_api_gateway.Cors.Laws.{origin_of-visible, build_preflight_response-table}
use mini_api_gateway.Platform.{Platform, World}
use mini_api_gateway.Gateway.{answer_with, cors_stage}

-- An origin is allowed that is listed, and where the wild card is listed every one is.
abbrev pub IsAllowed : CorsLayer → Text → Type 0
IsAllowed cors origin = Memᴰ (text "*") cors.allow_origins ⊎ Memᴰ origin cors.allow_origins

is_origin_allowed_iff :
    (cors : CorsLayer) (origin : Text)
    → (is_origin_allowed cors origin ≡ true) ↔ IsAllowed cors origin
unfolding is_origin_allowed
is_origin_allowed_iff cors origin = (sound, complete)
  where
    named : Text → Bool
    named o = text_eq o (text "*") || text_eq o origin

    sound : is_origin_allowed cors origin ≡ true → IsAllowed cors origin
    sound h =
        let (o, listed, e) = any_sound named cors.allow_origins h in
        elim (Bool-cases (text_eq o (text "*"))) [
          | inl star ↦ inl (rw (← (text_eq_iff o (text "*")).0 star) listed)
          | inr other ↦ inr (rw (← (text_eq_iff o origin).0 (ground arith)) listed)
        ]

    complete : IsAllowed cors origin → is_origin_allowed cors origin ≡ true
    complete (inl listed) =
        any_complete named cors.allow_origins (text "*") listed
          (let e : text_eq (text "*") (text "*") ≡ true = (text_eq_iff _ _).1 refl in ground arith)
    complete (inr listed) =
        any_complete named cors.allow_origins origin listed
          (let e : text_eq origin origin ≡ true = (text_eq_iff _ _).1 refl in ground arith)

IsAllowed-cases :
    (cors : CorsLayer) (origin : Text)
    → (IsAllowed cors origin × (is_origin_allowed cors origin ≡ true))
      ⊎ ((¬ IsAllowed cors origin) × (is_origin_allowed cors origin ≡ false))
IsAllowed-cases cors origin = elim (Bool-cases (is_origin_allowed cors origin)) [
  | inl y ↦ inl ((is_origin_allowed_iff cors origin).0 y, y)
  | inr n ↦ inr ((λ a. cc ((is_origin_allowed_iff cors origin).1 a)), n)
]

origin-cases : (origin : Text) → (origin ≡ []) ⊎ ((origin ≢ []) × (is_empty origin ≡ false))
origin-cases [] = inl refl
origin-cases (c ∷ cs) = inr ((λ e. cc), refl)

module _ (p : Platform)
    (rest : Request p.http.HeaderMap
      → Run (World p) (Response p.http.HeaderMap) (Response p.http.HeaderMap)) where
  open p.http use {HeaderMap, get}

  abbrev Outcome : Type 0
  Outcome = Flow (Response HeaderMap) (Response HeaderMap) × World p

  -- What the service makes of what the rest does with a request that is no preflight: the CORS headers
  -- are put on the response of a request that names an allowed origin.
  abbrev Decorated : CorsLayer → (origin : Text) → Outcome → Outcome → Type 0
  Decorated cors origin (next r, w') service =
      (s : Response HeaderMap) × (service ≡ (next s, w'))
      × (((origin ≢ [])
            × IsAllowed cors origin
            × Decorates p.http r s (response_fields cors origin))
          ⊎ (((origin ≡ []) ⊎ (¬ IsAllowed cors origin)) × (s ≡ r)))
  Decorated cors origin (stop r, w') service = service ≡ (stop r, w')
  Decorated cors origin (panic, w') service = service ≡ (panic, w')

  -- How the service and the stage, each before the same rest, compare on each kind of request: a
  -- preflight from an allowed origin, a preflight from another, and any other request.
  pub data Meets (cors : CorsLayer) (req : Request HeaderMap) (w : World p)
      (service stage : Outcome) : Type 0 where
    answered :
        req.method ≡ text "OPTIONS"
        → IsAllowed cors (origin_of p.http req.headers)
        → (r : Response HeaderMap) → r.status ≡ 204
        → ((j : Text)
            → get r.headers j
              ≡ field_value j (preflight_fields cors (origin_of p.http req.headers)))
        → service ≡ (next r, w)
        → stage ≡ (stop r, w)
        → Meets cors req w service stage
    forbidden :
        req.method ≡ text "OPTIONS"
        → ¬ IsAllowed cors (origin_of p.http req.headers)
        → (r : Response HeaderMap) → r.status ≡ 403
        → ((j : Text) → get r.headers j ≡ none)
        → service ≡ (next r, w)
        → stage ≡ rest req w
        → Meets cors req w service stage
    passed :
        req.method ≢ text "OPTIONS"
        → Decorated cors (origin_of p.http req.headers) (rest req w) service
        → stage ≡ rest req w
        → Meets cors req w service stage

  decorate-Decorated :
      (cors : CorsLayer) (m : HeaderMap) (x : Outcome) (w : World p)
      → IsServable cors
      → Decorated cors
          (origin_of p.http m)
          x
          (((λ (u : World p). x) >>= Cors.decorate p.http rest cors (origin_of p.http m)) w)
  unfolding Cors.decorate
  decorate-Decorated cors m (next r, w') w v =
      let origin = origin_of p.http m in
      elim (origin-cases origin) [
        | inl e ↦ (r, rw e refl, inr (inl e, refl))
        | inr (named, e) ↦ elim (IsAllowed-cases cors origin) [
          | inl (a, y) ↦
              let (s, added, d) =
                add_cors_headers-Decorates p.http cors r origin v (origin_of-visible p.http m) in
              (s, rw (e, y, added) refl, inl (named, a, d))
          | inr (n, f) ↦ (r, rw (e, f) refl, inr (inr n, refl))
        ]
      ]
  decorate-Decorated cors m (stop r, w') w v = refl
  decorate-Decorated cors m (panic, w') w v = refl

  -- Where the lists of the CORS layer can stand in a header, and before any rest of the handling: an
  -- OPTIONS request from an allowed origin the service and the stage answer alike, with 204 and the
  -- table of CORS headers, and the rest is not run; an OPTIONS request from any other origin the
  -- service answers with 403 and no header, while the stage hands it on; and any other request both
  -- hand on, where the service puts the CORS headers on the response if the request names an
  -- allowed origin, and changes nothing if it does not.
  pub cors_stage-call :
      (cors : CorsLayer) (req : Request HeaderMap) (w : World p)
      → IsServable cors
      → Meets cors req w
          (Cors.call p.http rest cors req w)
          ((cors_stage p (some cors) req >> rest req) w)
  unfolding Cors.call Cors.preflight cors_stage answer_with
  cors_stage-call cors req w v =
      let origin = origin_of p.http req.headers in
      elim (Bool-cases (text_eq req.method (text "OPTIONS"))) [
        | inl o ↦
            let options = (text_eq_iff req.method (text "OPTIONS")).0 o in
            elim (IsAllowed-cases cors origin) [
              | inl (a, y) ↦
                  let (r, built, s, b, h) =
                    build_preflight_response-table p.http cors origin v
                      (origin_of-visible p.http req.headers) in
                  answered options a r s h (rw (o, y, built) refl) (rw (o, y, built) refl)
              | inr (n, f) ↦
                  forbidden options n
                    (record {
                      status = 403;
                      headers = p.http.empty;
                      body = text "CORS origin not allowed";
                    })
                    refl p.http.get-empty
                    (rw (o, f, p.http.body-status 403 (text "CORS origin not allowed")) refl)
                    (rw (o, f) refl)
            ]
        | inr n ↦
            passed (λ e. cc ((text_eq_iff req.method (text "OPTIONS")).1 e))
              (rw n (decorate-Decorated cors req.headers (rest req w) w v)) (rw n refl)
      ]
