-- ===== src/Auth/Laws.antt =====
-- What the authentication service lets through to the service that it wraps.
use mini_api_gateway.Common.{
  ◌≡◌, refl, ap, ◌∙◌, ◌⊎◌, inl, inr, false, not, ◌||◌, Option, none, some, Text, text,
  eq_ignore_ascii_case, ok, err, Run, next, Option-cases, List,
}
use mini_api_gateway.Config.{AuthConfig, oauth2}
use mini_api_gateway.Http.{Http, Request, Response}
use mini_api_gateway.Auth
use mini_api_gateway.Auth.{
  AuthLayer, AuthError, Claims, JwtLib, is_excluded_path, extract_token, validate_jwt,
  configuration, new, authenticated, with_token, call,
}
use mini_api_gateway.Gateway.Stages.{Says, unauthorized-Says}

-- No layer for OAuth2 accepts a token.
new-oauth2 :
    (lib : JwtLib) (config : AuthConfig) (t : Text) {client secret token : Text}
    {authorize : Option Text} {scopes : Option (List Text)}
    → config.provider ≡ oauth2 client secret token authorize scopes
    → validate_jwt lib (new lib config) t ≡ err (configuration (text "JWT not configured"))
unfolding validate_jwt new
new-oauth2 lib config t e = rw e refl

module _ (http : Http) (lib : JwtLib) {W : Type 0} {E : Type 0}
    (inner : Request http.HeaderMap → Run W E (Response http.HeaderMap)) where
  open http use {HeaderMap, insert, from_str}

  with_token-refused :
      (auth : AuthLayer lib.DecodingKey) (o : Option Text) (req : Request HeaderMap) (w : W)
      → ((o ≡ none)
          ⊎ ((t : Text) × (o ≡ some t) × ((e : AuthError) × (validate_jwt lib auth t ≡ err e))))
      → (r : Response HeaderMap) × (with_token http lib inner auth o req w ≡ (next r, w))
        × Says http 401 (text "WWW-Authenticate") (text "Bearer") r
  unfolding with_token
  with_token-refused auth o req w (inl n) =
      let (r, built, says) = unauthorized-Says http (text "Missing or invalid token") in
      (r, rw (n, built) refl, says)
  with_token-refused auth o req w (inr (t, s, (e, v))) =
      let (r, built, says) = unauthorized-Says http (Auth.display e) in
      (r, rw (s, v, built) refl, says)

  -- To a path that an enabled layer guards, a request without a token, or with one that does not
  -- validate, is answered with 401 and a challenge, and the wrapped service is not called: the
  -- state is unchanged.
  call-refused :
      (auth : AuthLayer lib.DecodingKey) (req : Request HeaderMap) (w : W)
      → (not auth.config.enabled || is_excluded_path auth req.path) ≡ false
      → ((extract_token http req ≡ none)
          ⊎ ((t : Text) × (extract_token http req ≡ some t)
              × ((e : AuthError) × (validate_jwt lib auth t ≡ err e))))
      → (r : Response HeaderMap) × (call http lib inner auth req w ≡ (next r, w))
        × Says http 401 (text "WWW-Authenticate") (text "Bearer") r
  unfolding call
  call-refused auth req w g h = rw g (with_token-refused auth (extract_token http req) req w h)

  -- The layer that is built for an OAuth2 provider lets no guarded request through: whatever
  -- token it has, the answer is 401 and the wrapped service is not called.
  pub call-oauth2 :
      (config : AuthConfig) (req : Request HeaderMap) (w : W) {client secret token : Text}
      {authorize : Option Text} {scopes : Option (List Text)}
      → config.provider ≡ oauth2 client secret token authorize scopes
      → (not config.enabled || is_excluded_path (new lib config) req.path) ≡ false
      → (r : Response HeaderMap) × (call http lib inner (new lib config) req w ≡ (next r, w))
        × Says http 401 (text "WWW-Authenticate") (text "Bearer") r
  unfolding new
  call-oauth2 config req w o g =
      call-refused (new lib config) req w g (elim (Option-cases (extract_token http req)) [
        | inl n ↦ inl n
        | inr (t, s) ↦ inr (t, s, (_, new-oauth2 lib config t o))
      ])

  -- A request to a guarded path whose token validates reaches the wrapped service once, with the
  -- token's subject as its `x-user-id` header, where the subject can stand in a header.
  call-accepted :
      (auth : AuthLayer lib.DecodingKey) (req : Request HeaderMap) (w : W) {t v : Text}
      {claims : Claims}
      → (not auth.config.enabled || is_excluded_path auth req.path) ≡ false
      → extract_token http req ≡ some t
      → validate_jwt lib auth t ≡ ok claims
      → from_str claims.sub ≡ some v
      → (req' : Request HeaderMap) × (call http lib inner auth req w ≡ inner req' w)
        × (http.get req'.headers (text "x-user-id") ≡ some claims.sub)
        × (req'.path ≡ req.path)
        × (req'.body ≡ req.body)
  unfolding call with_token authenticated eq_ignore_ascii_case text
  call-accepted auth req w {t} {v} {claims} g s c u = (
    record req { headers = insert (req.headers) (text "x-user-id") v },
    rw (g, s, c, u) refl,
    http.get-insert req.headers (text "x-user-id") v (text "x-user-id")
        ∙ ap some (http.from_str_sound claims.sub v u),
    refl,
    refl,
  )
