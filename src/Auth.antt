-- ===== src/Auth.antt =====
-- src/middleware/auth.rs: the authentication layer and its service.
pub mod Tokens
pub mod Exclusion
pub mod Laws
use mini_api_gateway.Common.{
  ℕ, Bool, not, ◌||◌, Option, none, some, List, any, find, drop, ◌++◌, if◌then◌else◌, Text, text,
  text_eq, starts_with, ends_with, drop_last, split, Result, ok, err, map_err, ◌>>=?◌, Run, ◌>>=◌,
  unwrap,
}
use mini_api_gateway.Config.{AuthConfig, AuthProvider, jwt, oauth2}
use mini_api_gateway.Http.{Http, Request, Response, get_text, or_first}

-- A claim's further members are kept as texts of JSON.
pub record Claims : Type 0 where
  pub sub : Text
  pub exp : ℕ
  pub iat : ℕ
  pub iss : Option Text
  pub aud : Option Text
  pub extra : List (Text × Text)

-- `jsonwebtoken::Validation` for HS256: the issuers and audiences that are asked for.
pub record Validation : Type 0 where
  pub iss : Option Text
  pub aud : Option Text

-- The `jsonwebtoken` crate, which the gateway uses and does not implement. `decode` checks a token
-- at the time of the call.
pub record JwtLib : Type 1 where
  pub DecodingKey : Type 0
  pub from_secret : Text → DecodingKey
  pub decode : Text → DecodingKey → Validation → Result Text Claims

pub data AuthError : Type 0 where
  missing_token : AuthError
  invalid_token configuration : Text → AuthError

unfoldable pub display : AuthError → Text
display missing_token = text "Missing token"
display (invalid_token e) = text "Invalid token: " ++ e
display (configuration e) = text "Configuration error: " ++ e

pub record AuthLayer (K : Type 0) : Type 0 where
  pub config : AuthConfig
  pub decoding_key : Option K

-- The test of one excluded path.
unfoldable pub excludes : Text → Text → Bool
excludes p path =
    if ends_with p (text "/**")
    then starts_with path (drop_last 3 p)
    else if ends_with p (text "/*")
    then starts_with path (drop_last 2 p)
    else text_eq path p

unfoldable pub is_excluded_path : {K : Type 0} → AuthLayer K → Text → Bool
unfolding excludes
is_excluded_path auth path = any (λ p. excludes p path) auth.config.excluded_paths

-- The token of an Authorization header.
unfoldable pub bearer : Text → Option Text
bearer s = if starts_with s (text "Bearer ") then some (drop 7 s) else none

-- The token of a query string: its first `token` parameter.
unfoldable pub query_token : Text → Option Text
query_token q = elim (find (λ p. starts_with p (text "token=")) (split b'&' q)) [
  | none ↦ none
  | some p ↦ some (drop 6 p)
]

abbrev pub and_then {ℓ κ} : {A : Type ℓ} {B : Type κ} → (A → Option B) → Option A → Option B
and_then f none = none
and_then f (some a) = f a

-- The JSON body of a refusal, around its message.
unfoldable pub unauthorized_body : Text → Text
unauthorized_body e = text "{\"error\":\"Unauthorized\",\"message\":\"" ++ (e ++ text "\"}")

module _ (lib : JwtLib) where
  open lib use {DecodingKey, from_secret, decode}

  -- `AuthLayer::new`, which never fails.
  unfoldable pub new : AuthConfig → AuthLayer DecodingKey
  new config = record {
    config = config;
    decoding_key = elim config.provider [
      | jwt secret issuer audience ↦ some (from_secret secret)
      | oauth2 client secret token authorize scopes ↦ none
    ];
  }

  unfoldable pub validation_of : AuthProvider → Validation
  validation_of (jwt secret issuer audience) = record { iss = issuer; aud = audience }
  validation_of (oauth2 client secret token authorize scopes) = record { iss = none; aud = none }

  unfoldable pub validate_jwt : AuthLayer DecodingKey → Text → Result AuthError Claims
  validate_jwt auth token = elim auth.decoding_key [
    | none ↦ err (configuration (text "JWT not configured"))
    | some key ↦ map_err invalid_token (decode token key (validation_of auth.config.provider))
  ]

module _ (http : Http) where
  open http use {HeaderMap, insert, from_str, status, header, body}

  unfoldable pub extract_token : Request HeaderMap → Option Text
  extract_token req =
      or_first (and_then bearer (get_text http req.headers (text "authorization")))
        (and_then query_token req.query)

  -- `None` is the panic of `unwrap`.
  unfoldable pub unauthorized : Text → Option (Response HeaderMap)
  unauthorized e =
      body (header (status 401) (text "WWW-Authenticate") (text "Bearer")) (unauthorized_body e)

  module _ (lib : JwtLib) where
    open lib use {DecodingKey}

    -- `AuthService::call`, over the service that it wraps.
    module _ {W E : Type 0} (inner : Request HeaderMap → Run W E (Response HeaderMap)) where
      unfoldable pub authenticated :
          Result AuthError Claims → Request HeaderMap → Run W E (Response HeaderMap)
      authenticated (ok claims) req = do
        value ← unwrap (from_str claims.sub)
        inner (record req { headers = insert (req.headers) (text "x-user-id") value })
      authenticated (err e) req = unwrap (unauthorized (display e))

      unfoldable pub with_token :
          AuthLayer DecodingKey → Option Text → Request HeaderMap → Run W E (Response HeaderMap)
      unfolding authenticated
      with_token auth none req = unwrap (unauthorized (text "Missing or invalid token"))
      with_token auth (some token) req = authenticated (validate_jwt lib auth token) req

      unfoldable pub call : AuthLayer DecodingKey → Request HeaderMap → Run W E (Response HeaderMap)
      unfolding with_token
      call auth req =
          if not auth.config.enabled || is_excluded_path auth req.path
          then inner req
          else with_token auth (extract_token req) req

      -- `AuthLayer::layer`: the service that the layer makes of another.
      unfoldable pub layer :
          AuthLayer DecodingKey → Request HeaderMap → Run W E (Response HeaderMap)
      unfolding call
      layer auth = call auth
