-- ===== src/Cors/Laws.antt =====
-- What the CORS service answers: it serves every preflight request itself, and decorates the
-- response of every other request from an allowed origin.
use mini_api_gateway.Common.{
  ◌≡◌, refl, true, false, not, ◌&&◌, none, some, [], is_empty, inl, inr, Bool-cases, Option-cases,
  if◌then◌else◌, Text, text, text_eq, Run, next,
}
use mini_api_gateway.Http.{Http, Request, Response, is_visible, get_text, get_text_visible}
use mini_api_gateway.Http.Fields.{field_value, get-appends_empty}
use mini_api_gateway.Cors.{
  CorsLayer, is_origin_allowed, build_preflight_response, origin_of, decorate, call,
}
use mini_api_gateway.Cors.Headers.{
  IsServable, preflight_fields, response_fields, build_preflight_response-fields, Decorates,
  Decorates-refl, add_cors_headers-Decorates,
}

module _ (http : Http) where
  open http use {HeaderMap, get}

  -- The origin that is read of a request can stand in a header.
  pub origin_of-visible : (m : HeaderMap) → is_visible (origin_of http m) ≡ true
  unfolding origin_of is_visible
  origin_of-visible m = elim (Option-cases (get_text http m (text "origin"))) [
    | inl e ↦ rw e refl
    | inr (t, e) ↦ rw e (get_text_visible http m (text "origin") e).1
  ]

  -- Where the lists of the configuration can stand in a header, the answer to a preflight request
  -- from an origin with a visible text is built without a panic,
  -- has the status 204, no body, and as header fields exactly those of the table: the origin, the
  -- lists of the configuration, and the credentials, the age and the exposed names where set.
  pub build_preflight_response-table :
      (cors : CorsLayer) (origin : Text)
      → IsServable cors
      → is_visible origin ≡ true
      → (r : Response HeaderMap) × (build_preflight_response http cors origin ≡ some r)
        × (r.status ≡ 204)
        × (r.body ≡ [])
        × ((j : Text) → get r.headers j ≡ field_value j (preflight_fields cors origin))
  build_preflight_response-table cors origin v h = (
    _,
    build_preflight_response-fields http cors origin v h,
    refl,
    refl,
    get-appends_empty http (preflight_fields cors origin),
  )

  module _ {W E : Type 0} (inner : Request HeaderMap → Run W E (Response HeaderMap)) where
    -- Where the lists of the configuration can stand in a header, an OPTIONS request never reaches the wrapped service and changes no state: it is answered
    -- with 204 and the table of headers if its origin is allowed, and with 403 and no header if not.
    pub call-preflight :
        (cors : CorsLayer) (req : Request HeaderMap) (w : W)
        → IsServable cors
        → text_eq req.method (text "OPTIONS") ≡ true
        → (r : Response HeaderMap) × (call http inner cors req w ≡ (next r, w))
          × (r.status ≡ (if is_origin_allowed cors (origin_of http req.headers) then 204 else 403))
          × ((j : Text)
              → get r.headers j ≡ (
                  if is_origin_allowed cors (origin_of http req.headers)
                  then field_value j (preflight_fields cors (origin_of http req.headers))
                  else none))
    unfolding call
    call-preflight cors req w v o =
        let origin = origin_of http req.headers in
        elim (Bool-cases (is_origin_allowed cors origin)) [
          | inl allowed ↦
              let (r, e, s, b, h) =
                build_preflight_response-table cors origin v (origin_of-visible req.headers) in
              (r, rw (o, allowed, e) refl, rw allowed s, λ j. rw allowed (h j))
          | inr refused ↦ (
            record { status = 403; headers = http.empty; body = text "CORS origin not allowed" },
            rw (o, refused, http.body-status 403 (text "CORS origin not allowed")) refl,
            rw refused refl,
            λ j. rw refused (http.get-empty j),
          )
        ]

    -- Any other request, where the lists of the configuration can stand in a header and the wrapped
    -- service answers, is answered with the status, the body and the effects of that service. If the request names an allowed origin, the CORS headers come before those of the
    -- response; if not, the response is unchanged.
    pub call-actual :
        (cors : CorsLayer) (req : Request HeaderMap) (w w' : W) (r : Response HeaderMap)
        → IsServable cors
        → text_eq req.method (text "OPTIONS") ≡ false
        → inner req w ≡ (next r, w')
        → (s : Response HeaderMap) × (call http inner cors req w ≡ (next s, w'))
          × Decorates http r s (
              if not (is_empty (origin_of http req.headers))
                && is_origin_allowed cors (origin_of http req.headers)
              then response_fields cors (origin_of http req.headers)
              else [])
    unfolding call decorate
    call-actual cors req w w' r v o e =
        let origin = origin_of http req.headers in
        elim (Bool-cases (not (is_empty origin) && is_origin_allowed cors origin)) [
          | inl on ↦
              let (s, a, d) =
                add_cors_headers-Decorates http cors r origin v (origin_of-visible req.headers) in
              (s, rw (o, e, on, a) refl, rw on d)
          | inr off ↦ (r, rw (o, e, off) refl, rw off (Decorates-refl http r))
        ]
