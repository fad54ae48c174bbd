-- ===== src/Cors.antt =====
-- src/middleware/cors.rs: the CORS layer and its service.
pub mod Headers
pub mod Laws
use mini_api_gateway.Common.{
  ℕ, Bool, true, not, ◌&&◌, ◌||◌, Option, none, some, get_or, List, [], any, is_empty,
  if◌then◌else◌, Text, text, text_eq, join, decimal, Run, ◌>>=◌, pure, unwrap,
}
use mini_api_gateway.Http.{Http, Request, Response, get_text}

pub record CorsLayer : Type 0 where
  pub allow_origins : List Text
  pub allow_methods : List Text
  pub allow_headers : List Text
  pub allow_credentials : Bool
  pub max_age : Option ℕ
  pub expose_headers : List Text

-- `CorsLayer::new`
unfoldable pub new :
    List Text → List Text → List Text → Bool → Option ℕ → Option (List Text) → CorsLayer
new allow_origins allow_methods allow_headers allow_credentials max_age expose_headers = record {
  allow_origins = allow_origins;
  allow_methods = allow_methods;
  allow_headers = allow_headers;
  allow_credentials = allow_credentials;
  max_age = max_age;
  expose_headers = get_or expose_headers [];
}

unfoldable pub is_origin_allowed : CorsLayer → Text → Bool
is_origin_allowed cors origin =
    any (λ o. text_eq o (text "*") || text_eq o origin) cors.allow_origins

module _ (http : Http) where
  open http use {HeaderMap, Builder, insert, from_str, status, header, body}

  abbrev credentials_header : Bool → Builder → Builder
  credentials_header allow b =
      if allow then header b (text "Access-Control-Allow-Credentials") (text "true") else b

  abbrev max_age_header : Option ℕ → Builder → Builder
  max_age_header none b = b
  max_age_header (some age) b = header b (text "Access-Control-Max-Age") (decimal age)

  abbrev expose_header : List Text → Builder → Builder
  expose_header names b =
      if not (is_empty names)
      then header b (text "Access-Control-Expose-Headers") (join (text ", ") names)
      else b

  -- The builder of the answer to a preflight request.
  unfoldable pub preflight_builder : CorsLayer → Text → Builder
  preflight_builder cors origin =
      let b0 = header (status 204) (text "Access-Control-Allow-Origin") origin in
      let b1 = credentials_header cors.allow_credentials b0 in
      let b2 =
        header b1 (text "Access-Control-Allow-Methods") (join (text ", ") cors.allow_methods) in
      let b3 =
        header b2 (text "Access-Control-Allow-Headers") (join (text ", ") cors.allow_headers) in
      expose_header cors.expose_headers (max_age_header cors.max_age b3)

  -- `None` is the panic of `unwrap`.
  unfoldable pub build_preflight_response : CorsLayer → Text → Option (Response HeaderMap)
  build_preflight_response cors origin = body (preflight_builder cors origin) []

  abbrev pub insert_credentials : Bool → HeaderMap → HeaderMap
  insert_credentials allow m =
      if allow then insert m (text "Access-Control-Allow-Credentials") (text "true") else m

  -- The last step: the names to expose, if any.
  abbrev pub insert_expose : List Text → Response HeaderMap → Option (Response HeaderMap)
  insert_expose names r =
      if not (is_empty names)
      then elim (from_str (join (text ", ") names)) [
        | none ↦ none
        | some v ↦
            some
              (record r { headers = insert (r.headers) (text "Access-Control-Expose-Headers") v })
      ]
      else some r

  -- `None` is a panic.
  unfoldable pub add_cors_headers :
      CorsLayer → Response HeaderMap → Text → Option (Response HeaderMap)
  add_cors_headers cors r origin = elim (from_str origin) [
    | none ↦ none
    | some v ↦
        let m = insert r.headers (text "Access-Control-Allow-Origin") v in
        insert_expose cors.expose_headers
          (record r { headers = insert_credentials cors.allow_credentials m })
  ]

  -- The text of the request's Origin header, or none.
  unfoldable pub origin_of : HeaderMap → Text
  origin_of headers = get_or (get_text http headers (text "origin")) []

  -- `CorsService::call`, over the service that it wraps.
  module _ {W E : Type 0} (inner : Request HeaderMap → Run W E (Response HeaderMap)) where
    unfoldable pub preflight : CorsLayer → Text → Run W E (Response HeaderMap)
    preflight cors origin =
        if is_origin_allowed cors origin
        then unwrap (build_preflight_response cors origin)
        else unwrap (body (status 403) (text "CORS origin not allowed"))

    -- What is done with the response of a request that is no preflight.
    unfoldable pub decorate : CorsLayer → Text → Response HeaderMap → Run W E (Response HeaderMap)
    decorate cors origin response =
        if not (is_empty origin) && is_origin_allowed cors origin
        then unwrap (add_cors_headers cors response origin)
        else pure response

    unfoldable pub call : CorsLayer → Request HeaderMap → Run W E (Response HeaderMap)
    unfolding preflight decorate
    call cors req =
        let origin = origin_of req.headers in
        if text_eq req.method (text "OPTIONS")
        then preflight cors origin
        else inner req >>= decorate cors origin

    -- `CorsLayer::layer`: the service that the layer makes of another.
    unfoldable pub layer : CorsLayer → Request HeaderMap → Run W E (Response HeaderMap)
    unfolding call
    layer cors = call cors
