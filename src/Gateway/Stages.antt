-- ===== src/Gateway/Stages.antt =====
-- What each stage of the gateway can do: go on, or end the request with a response.
use mini_api_gateway.Common.{
  ℕ, leb, ltb, ◌≡◌, refl, true, ◌&&◌, none, some, if◌then◌else◌, Text, text, eq_ignore_ascii_case,
}
use mini_api_gateway.Error
use mini_api_gateway.Error.{GatewayError, status_code}
use mini_api_gateway.Http.{Http, Response, is_visible, is_plain_name}
use mini_api_gateway.Http.Fields.{one_header}
use mini_api_gateway.Auth.{unauthorized, unauthorized_body}
use mini_api_gateway.RateLimit.{too_many_requests}
use mini_api_gateway.Platform.{Platform}
use mini_api_gateway.Gateway.{not_found, not_found_body, error_response, error_body}

-- A response with this status and this one header.
abbrev pub Says : (http : Http) → ℕ → Text → Text → Response http.HeaderMap → Type 0
Says http s k v r =
    (r.status ≡ s)
    × ((j : Text) → http.get r.headers j ≡ (if eq_ignore_ascii_case k j then some v else none))

literals :
    (is_plain_name (text "Content-Type") ≡ true)
    × (is_plain_name (text "WWW-Authenticate") ≡ true)
    × (is_visible (text "application/json") ≡ true)
    × (is_visible (text "Bearer") ≡ true)
unfolding is_plain_name is_visible text
literals = (refl, refl, refl, refl)

module _ (http : Http) where
  pub unauthorized-Says :
      (e : Text)
      → (r : Response http.HeaderMap) × (unauthorized http e ≡ some r)
        × Says http 401 (text "WWW-Authenticate") (text "Bearer") r
  unfolding unauthorized
  unauthorized-Says e =
      let (r, built, s, b, h) =
        one_header http 401 (text "WWW-Authenticate") (text "Bearer") (unauthorized_body e) refl
          literals.1 literals.3 in
      (r, built, (s, h))

  pub too_many_requests-Says :
      (r : Response http.HeaderMap) × (too_many_requests http ≡ some r)
      × Says http 429 (text "Content-Type") (text "application/json") r
  unfolding too_many_requests
  too_many_requests-Says =
      let (r, built, s, b, h) =
        one_header http 429 (text "Content-Type") (text "application/json") _ refl literals.0
          literals.2 in
      (r, built, (s, h))

status_code-valid :
    (e : GatewayError) → (leb 100 (status_code e) && ltb (status_code e) 1000) ≡ true
unfolding status_code
status_code-valid (Error.io _) = refl
status_code-valid (Error.http _) = refl
status_code-valid (Error.http_body _) = refl
status_code-valid (Error.config _) = refl
status_code-valid (Error.tls _) = refl
status_code-valid (Error.discovery _) = refl
status_code-valid (Error.auth _) = refl
status_code-valid Error.rate_limited = refl
status_code-valid (Error.cache _) = refl
status_code-valid (Error.proxy _) = refl
status_code-valid (Error.serialization _) = refl
status_code-valid (Error.invalid_uri _) = refl
status_code-valid Error.timeout = refl
status_code-valid Error.upstream_unavailable = refl
status_code-valid (Error.internal _) = refl

module _ (p : Platform) where
  open p use {http}
  open p.http use {HeaderMap}

  pub not_found-Says :
      (r : Response HeaderMap) × (not_found p ≡ some r)
      × Says p.http 404 (text "Content-Type") (text "application/json") r
      × (r.body ≡ text "{\"error\":\"Not Found\",\"message\":\"No route matches the request\"}")
  unfolding not_found not_found_body
  not_found-Says =
      let (r, built, s, b, h) =
        one_header p.http 404 (text "Content-Type") (text "application/json") not_found_body refl
          literals.0 literals.2 in
      (r, built, (s, h), b)

  pub error_response-Says :
      (e : GatewayError)
      → (r : Response HeaderMap) × (error_response p e ≡ some r)
        × Says p.http (status_code e) (text "Content-Type") (text "application/json") r
        × (r.body ≡ error_body e)
  unfolding error_response
  error_response-Says e =
      let (r, built, s, b, h) =
        one_header p.http (status_code e) (text "Content-Type") (text "application/json")
          (error_body e) (status_code-valid e) literals.0 literals.2 in
      (r, built, (s, h), b)
