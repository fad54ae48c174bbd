-- ===== src/Cors/Headers.antt =====
-- What the two groups of CORS headers hold, as tables of fields.
use mathlib.Core.Option
use mathlib.Core.Option.{some-injective}
use mini_api_gateway.Common.{
  ℕ, ◌≡◌, refl, ap, ◌∙◌, subst, Bool, true, false, not, Option, none, some, List, [], ◌∷◌, is_empty,
  All, if◌then◌else◌, Text, text, join, decimal, eq_ignore_ascii_case, arith, IsDigit,
  decimal-IsDigit,
}
use mini_api_gateway.Http.{Http, Response, is_visible, is_plain_name, or_first}
use mini_api_gateway.Http.Fields.{
  Field, field_value, appends, add_fields, AreValid, build_fields, visible-IsValidField,
}
use mini_api_gateway.Cors.{
  CorsLayer, preflight_builder, build_preflight_response, insert_credentials, insert_expose,
  add_cors_headers,
}

abbrev when {ℓ} : {A : Type ℓ} → Bool → A → Option A
when b a = if b then some a else none

-- The answer to a preflight request, field by field.
unfoldable pub preflight_fields : CorsLayer → Text → List Field
preflight_fields cors origin =
    (text "Access-Control-Allow-Origin", some origin)
    ∷ (text "Access-Control-Allow-Credentials", when cors.allow_credentials (text "true"))
    ∷ (text "Access-Control-Allow-Methods", some (join (text ", ") cors.allow_methods))
    ∷ (text "Access-Control-Allow-Headers", some (join (text ", ") cors.allow_headers))
    ∷ (text "Access-Control-Max-Age", Option.map decimal cors.max_age)
    ∷ (
      text "Access-Control-Expose-Headers",
      when (not (is_empty cors.expose_headers)) (join (text ", ") cors.expose_headers),
    )
    ∷ []

-- The fields that are put on the response of any other request, the last that is inserted first.
unfoldable pub response_fields : CorsLayer → Text → List Field
response_fields cors origin =
    (
      text "Access-Control-Expose-Headers",
      when (not (is_empty cors.expose_headers)) (join (text ", ") cors.expose_headers),
    )
    ∷ (text "Access-Control-Allow-Credentials", when cors.allow_credentials (text "true"))
    ∷ (text "Access-Control-Allow-Origin", some origin)
    ∷ []

-- The configured lists can stand in a header.
pub record IsServable (cors : CorsLayer) : Type 0 where
  pub methods : is_visible (join (text ", ") cors.allow_methods) ≡ true
  pub headers : is_visible (join (text ", ") cors.allow_headers) ≡ true
  pub expose : is_visible (join (text ", ") cors.expose_headers) ≡ true

visible_of_digits : (s : Text) → All IsDigit s → is_visible s ≡ true
unfolding is_visible
visible_of_digits [] h = refl
visible_of_digits (c ∷ s) h = ground (arith, visible_of_digits s h.1)

when-visible :
    (b : Bool) (t : Text)
    → is_visible t ≡ true
    → (v : Text) → when b t ≡ some v
    → is_visible v ≡ true
when-visible true t h v e = ground arith
when-visible false t h v e = cc

decimal-visible : (o : Option ℕ) (v : Text) → Option.map decimal o ≡ some v → is_visible v ≡ true
decimal-visible none v e = cc
decimal-visible (some n) v e =
    subst (λ t. is_visible t ≡ true) (some-injective _ _ e)
      (visible_of_digits (decimal n) (decimal-IsDigit n))

true-visible : is_visible (text "true") ≡ true
unfolding is_visible text
true-visible = refl

names-plain :
    (is_plain_name (text "Access-Control-Allow-Origin") ≡ true)
    × (is_plain_name (text "Access-Control-Allow-Credentials") ≡ true)
    × (is_plain_name (text "Access-Control-Allow-Methods") ≡ true)
    × (is_plain_name (text "Access-Control-Allow-Headers") ≡ true)
    × (is_plain_name (text "Access-Control-Max-Age") ≡ true)
    × (is_plain_name (text "Access-Control-Expose-Headers") ≡ true)
unfolding is_plain_name text
names-plain = (refl, refl, refl, refl, refl, refl)

front :
    (b : Bool) (v : Text) (o p q : Option Text)
    → o ≡ or_first p q
    → (if b then some v else o) ≡ or_first (if b then some v else p) q
front true v o p q e = refl
front false v o p q e = e

module _ (http : Http) where
  open http use {HeaderMap, empty, status}

  builder-fields :
      (cors : CorsLayer) (origin : Text)
      → preflight_builder http cors origin
        ≡ add_fields http (status 204) (preflight_fields cors origin)
  unfolding preflight_builder preflight_fields add_fields
  builder-fields cors origin = ground arith

  fields-AreValid :
      (cors : CorsLayer) (origin : Text)
      → IsServable cors
      → is_visible origin ≡ true
      → AreValid http (preflight_fields cors origin)
  unfolding preflight_fields
  fields-AreValid cors origin v h =
      let (origins, credentials, methods, headers, age, expose) = names-plain in
      (
        visible-IsValidField http _ (some origin) origins (λ w e. ground arith),
        (
          visible-IsValidField http _ (when cors.allow_credentials (text "true")) credentials
              (when-visible cors.allow_credentials (text "true") true-visible),
          (
            visible-IsValidField http _ (some (join (text ", ") cors.allow_methods)) methods
                (λ w e. ground arith),
            (
              visible-IsValidField http _ (some (join (text ", ") cors.allow_headers)) headers
                  (λ w e. ground arith),
              (
                visible-IsValidField http _ (Option.map decimal cors.max_age) age
                    (decimal-visible cors.max_age),
                (
                  visible-IsValidField http _
                      (when (not (is_empty cors.expose_headers))
                        (join (text ", ") cors.expose_headers))
                      expose (when-visible (not (is_empty cors.expose_headers)) _ v.expose),
                  tt,
                ),
              ),
            ),
          ),
        ),
      )

  pub build_preflight_response-fields :
      (cors : CorsLayer) (origin : Text)
      → IsServable cors
      → is_visible origin ≡ true
      → build_preflight_response http cors origin
        ≡ some (record {
          status = 204;
          headers = appends http empty (preflight_fields cors origin);
          body = [];
        })
  unfolding build_preflight_response
  build_preflight_response-fields cors origin v h =
      ap (λ b. http.body b []) (builder-fields cors origin)
      ∙ (build_fields http 204 (preflight_fields cors origin) [] refl
          (fields-AreValid cors origin v h))

  -- The response `s` is `r` but for the given fields, which come before those of `r`.
  pub record Decorates (r s : Response HeaderMap) (fs : List Field) : Type 0 where
    pub status : s.status ≡ r.status
    pub body : s.body ≡ r.body
    pub headers :
        (j : Text) → http.get s.headers j ≡ or_first (field_value j fs) (http.get r.headers j)

  pub Decorates-refl : (r : Response HeaderMap) → Decorates r r []
  unfolding field_value
  Decorates-refl r = record { status = refl; body = refl; headers = λ j. refl }

  Decorates-none :
      {r t : Response HeaderMap} (k : Text) (fs : List Field)
      → Decorates r t fs
      → Decorates r t ((k, none) ∷ fs)
  unfolding field_value
  Decorates-none k fs d = record { status = d.status; body = d.body; headers = d.headers }

  Decorates-insert :
      {r t : Response HeaderMap} (k v : Text) (fs : List Field)
      → Decorates r t fs
      → Decorates r (record t { headers = http.insert (t.headers) k v }) ((k, some v) ∷ fs)
  unfolding field_value
  Decorates-insert {t = t} k v fs d = record {
    status = d.status;
    body = d.body;
    headers = λ j.
        http.get-insert t.headers k v j ∙ front (eq_ignore_ascii_case k j) v _ _ _ (d.headers j);
  }

  insert_expose-Decorates :
      (names : List Text) (fs : List Field) (r t : Response HeaderMap)
      → is_visible (join (text ", ") names) ≡ true
      → Decorates r t fs
      → (s : Response HeaderMap) × (insert_expose http names t ≡ some s)
        × Decorates r s (
            (
              text "Access-Control-Expose-Headers",
              when (not (is_empty names)) (join (text ", ") names),
            )
            ∷ fs)
  insert_expose-Decorates [] fs r t v d = (t, refl, Decorates-none _ fs d)
  insert_expose-Decorates (n ∷ names) fs r t v d =
      (_, rw (http.from_str_visible _ v), Decorates-insert _ (join (text ", ") (n ∷ names)) fs d)

  insert_credentials-Decorates :
      (b : Bool) (fs : List Field) (r t : Response HeaderMap)
      → Decorates r t fs
      → Decorates r
          (record t { headers = insert_credentials http b (t.headers) })
          ((text "Access-Control-Allow-Credentials", when b (text "true")) ∷ fs)
  insert_credentials-Decorates true fs r t d = Decorates-insert _ (text "true") fs d
  insert_credentials-Decorates false fs r t d = Decorates-none _ fs d

  -- The CORS headers are put on every response without a panic: the origin, and as
  -- configured the credentials and the names to expose. All else of the response stays.
  pub add_cors_headers-Decorates :
      (cors : CorsLayer) (r : Response HeaderMap) (origin : Text)
      → IsServable cors
      → is_visible origin ≡ true
      → (s : Response HeaderMap) × (add_cors_headers http cors r origin ≡ some s)
        × Decorates r s (response_fields cors origin)
  unfolding add_cors_headers response_fields
  add_cors_headers-Decorates cors r origin v h =
      let first =
        Decorates-insert (text "Access-Control-Allow-Origin") origin [] (Decorates-refl r) in
      let second = insert_credentials-Decorates cors.allow_credentials _ r _ first in
      let (s, e, d) = insert_expose-Decorates cors.expose_headers _ r _ v.expose second in
      (s, rw (http.from_str_visible origin h, add_cors_headers) e, d)
