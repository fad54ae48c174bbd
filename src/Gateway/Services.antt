-- ===== src/Gateway/Services.antt =====
-- src/gateway.rs and src/middleware/auth.rs: the authentication of a request is written twice, as a stage
-- of `handle_request` and as a service.
use mini_api_gateway.Common.{
  ◌≡◌, refl, ap, ◌⊎◌, inl, inr, Bool, true, false, not, ◌&&◌, ◌||◌, Option, none, some,
  Option-cases, if◌then◌else◌, Text, text, Result, ok, err, Flow, next, stop, panic, Run, ◌>>=◌,
  unwrap, pure,
}
use mini_api_gateway.Http.{Request, Response}
use mini_api_gateway.Auth.{
  AuthLayer, AuthError, Claims, is_excluded_path, extract_token, validate_jwt, unauthorized,
  authenticated, with_token,
}
use mini_api_gateway.Auth
use mini_api_gateway.Metrics.{RequestMetrics, record_auth_failure}
use mini_api_gateway.Platform.{Platform, World, note}
use mini_api_gateway.Gateway.{answer_with, refuse, with_user, check_claims, check_token, auth_stage}
use mini_api_gateway.Gateway.Stages.{Says, unauthorized-Says}
use mini_api_gateway.Gateway.Access.{IsDenied}

module _ (p : Platform) (m : RequestMetrics)
    (rest : Request p.http.HeaderMap
      → Run (World p) (Response p.http.HeaderMap) (Response p.http.HeaderMap)) where
  open p.http use {HeaderMap, from_str}

  abbrev Outcome : Type 0
  Outcome = Flow (Response HeaderMap) (Response HeaderMap) × World p

  -- A request to a path that the layer guards, with a token that the library accepts.
  pub record IsGranted (auth : AuthLayer p.jwt.DecodingKey) (req : Request HeaderMap)
      (claims : Claims) : Type 0 where
    pub enabled : auth.config.enabled ≡ true
    pub guarded : is_excluded_path auth req.path ≡ false
    pub token : Text
    pub extracted : extract_token p.http req ≡ some token
    pub validated : validate_jwt p.jwt auth token ≡ ok claims

  abbrev named : Request HeaderMap → Text → Request HeaderMap
  named req v = record req { headers = p.http.insert (req.headers) (text "x-user-id") v }

  -- How the service and the stage, each before the same rest, compare on each kind of request: one that
  -- is not guarded, one without an accepted token, and one with an accepted token, whose subject
  -- can stand in a header or cannot.
  pub data Compares (auth : AuthLayer p.jwt.DecodingKey) (req : Request HeaderMap) (w : World p)
      (service stage : Outcome) : Type 0 where
    unguarded :
        (auth.config.enabled ≡ false) ⊎ (is_excluded_path auth req.path ≡ true)
        → service ≡ rest req w
        → stage ≡ rest req w
        → Compares auth req w service stage
    refused :
        IsDenied p auth req
        → (r : Response HeaderMap) → Says p.http 401 (text "WWW-Authenticate") (text "Bearer") r
        → service ≡ (next r, w)
        → stage ≡ (stop r, note (record_auth_failure m) w)
        → Compares auth req w service stage
    accepted :
        (claims : Claims)
        → IsGranted auth req claims
        → (v : Text) → from_str claims.sub ≡ some v
        → service ≡ rest (named req v) w
        → stage ≡ rest (named req v) w
        → Compares auth req w service stage
    unprintable :
        (claims : Claims)
        → IsGranted auth req claims
        → from_str claims.sub ≡ none
        → service ≡ (panic, w)
        → stage ≡ rest req w
        → Compares auth req w service stage

  refuse-Compares :
      (auth : AuthLayer p.jwt.DecodingKey) (req : Request HeaderMap) (w : World p) (e : Text)
      → IsDenied p auth req
      → Compares auth req w (unwrap (unauthorized p.http e) w) ((refuse p m e >>= rest) w)
  unfolding refuse answer_with
  refuse-Compares auth req w e d =
      let (r, built, says) = unauthorized-Says p.http e in
      refused d r says (rw built refl) (rw built refl)

  with_user-none :
      (req : Request HeaderMap) (claims : Claims)
      → from_str claims.sub ≡ none
      → with_user p req claims ≡ req
  unfolding with_user
  with_user-none req claims n = rw (n, with_user) refl

  with_user-some :
      (req : Request HeaderMap) (claims : Claims) (v : Text)
      → from_str claims.sub ≡ some v
      → with_user p req claims ≡ named req v
  unfolding with_user
  with_user-some req claims v e = rw (e, with_user) refl

  module _ (auth : AuthLayer p.jwt.DecodingKey) (req : Request HeaderMap) (w : World p)
      (enabled : auth.config.enabled ≡ true)
      (guarded : is_excluded_path auth req.path ≡ false) where
    claims-Compares :
        (t : Text) (c : Result AuthError Claims)
        → extract_token p.http req ≡ some t
        → validate_jwt p.jwt auth t ≡ c
        → Compares auth req w
            (authenticated p.http p.jwt rest c req w)
            ((check_claims p m req c >>= rest) w)
    unfolding authenticated check_claims with_user
    claims-Compares t (ok claims) e v =
        let granted : IsGranted auth req claims = record {
          enabled = enabled;
          guarded = guarded;
          token = t;
          extracted = e;
          validated = v;
        } in
        elim (Option-cases (from_str claims.sub)) [
          | inl n ↦
              unprintable claims granted n (rw n refl)
                (ap (λ q. rest q w) (with_user-none req claims n))
          | inr (x, s) ↦
              accepted claims granted x s (rw s refl)
                (ap (λ q. rest q w) (with_user-some req claims x s))
        ]
    claims-Compares t (err f) e v =
        refuse-Compares auth req w (Auth.display f)
          (record { enabled = enabled; guarded = guarded; no_token = inr (t, e, (f, v)) })

    token-Compares :
        (t : Option Text)
        → extract_token p.http req ≡ t
        → Compares auth req w
            (with_token p.http p.jwt rest auth t req w)
            ((check_token p auth m req t >>= rest) w)
    unfolding with_token check_token
    token-Compares none e =
        refuse-Compares auth req w (text "Missing or invalid token")
          (record { enabled = enabled; guarded = guarded; no_token = inl e })
    token-Compares (some t) e = claims-Compares t (validate_jwt p.jwt auth t) e refl

  guarded-Compares :
      (auth : AuthLayer p.jwt.DecodingKey) (req : Request HeaderMap) (w : World p) (a b : Bool)
      → auth.config.enabled ≡ a
      → is_excluded_path auth req.path ≡ b
      → Compares auth req w
          ((if not a || b
              then rest req
              else with_token p.http p.jwt rest auth (extract_token p.http req) req)
            w)
          (((if a && not b then check_token p auth m req (extract_token p.http req) else pure req)
              >>= rest)
            w)
  guarded-Compares auth req w false b e x = unguarded (inl e) refl refl
  guarded-Compares auth req w true true e x = unguarded (inr x) refl refl
  guarded-Compares auth req w true false e x =
      token-Compares auth req w e x (extract_token p.http req) refl

  -- Before any rest of the handling, the service and the stage compare as follows. Where the layer is
  -- disabled or excludes the path, both hand the request on as it is. Where a guarded request has
  -- no token, or one that does not validate, both refuse with the same answer, of status 401 and with
  -- a challenge, and only the stage counts that. Where the token of a guarded request validates
  -- and its subject can stand in a header, both hand the request on with the subject as its
  -- `x-user-id`; where the subject cannot, the service panics, and the stage hands the request on as
  -- it is.
  pub auth_stage-call :
      (auth : AuthLayer p.jwt.DecodingKey) (req : Request HeaderMap) (w : World p)
      → Compares auth req w
          (Auth.call p.http p.jwt rest auth req w)
          ((auth_stage p (some auth) m req >>= rest) w)
  unfolding Auth.call auth_stage
  auth_stage-call auth req w =
      guarded-Compares auth req w auth.config.enabled (is_excluded_path auth req.path) refl refl
