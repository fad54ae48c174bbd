-- ===== src/Http/Fields.antt =====
-- Headers that are added to a response one after the other, some of them only on a condition.
use mathlib.Core.Option.{some-injective}
use mini_api_gateway.Common.{
  ◌≡◌, refl, ap, subst, ◌∙◌, Bool, true, false, ◌&&◌, Option, none, some, List, [], ◌∷◌,
  if◌then◌else◌, Text, eq_ignore_ascii_case, leb, ltb, ℕ,
}
use mini_api_gateway.Http.{Http, Response, add_header, or_first, is_plain_name, is_visible}

-- A header field that may be absent.
abbrev pub Field : Type 0
Field = Text × Option Text

-- The value that a list of fields gives a name: that of its first field.
unfoldable pub field_value : Text → List Field → Option Text
field_value j [] = none
field_value j ((k, none) ∷ fs) = field_value j fs
field_value j ((k, some v) ∷ fs) = if eq_ignore_ascii_case k j then some v else field_value j fs

or_first_assoc : (a b c : Option Text) → or_first (or_first a b) c ≡ or_first a (or_first b c)
or_first_assoc none b c = refl
or_first_assoc (some a) b c = refl

or_first-none : (o : Option Text) → o ≡ or_first o none
or_first-none none = refl
or_first-none (some a) = refl

if-or_first :
    (b : Bool) (v : Text) (o : Option Text)
    → or_first (if b then some v else none) o ≡ (if b then some v else o)
if-or_first true v o = refl
if-or_first false v o = refl

module _ (http : Http) where
  open http use {
    HeaderMap, Builder, append, get, valid_name, valid_value, header, body, empty, status,
  }

  -- The header map after the fields are added.
  pub appends : HeaderMap → List Field → HeaderMap
  appends m [] = m
  appends m ((k, none) ∷ fs) = appends m fs
  appends m ((k, some v) ∷ fs) = appends (append m k v) fs

  pub get-appends :
      (m : HeaderMap) (fs : List Field) (j : Text)
      → get (appends m fs) j ≡ or_first (get m j) (field_value j fs)
  unfolding appends field_value
  get-appends m [] j = or_first-none (get m j)
  get-appends m ((k, none) ∷ fs) j = get-appends m fs j
  get-appends m ((k, some v) ∷ fs) j =
      get-appends (append m k v) fs j
      ∙ ap (λ o. or_first o (field_value j fs)) (http.get-append m k v j)
      ∙ or_first_assoc (get m j) (if eq_ignore_ascii_case k j then some v else none)
          (field_value j fs)
      ∙ ap (or_first (get m j)) (if-or_first (eq_ignore_ascii_case k j) v (field_value j fs))

  -- The builder after the fields are added.
  unfoldable pub add_fields : Builder → List Field → Builder
  add_fields r [] = r
  add_fields r ((k, none) ∷ fs) = add_fields r fs
  add_fields r ((k, some v) ∷ fs) = add_fields (header r k v) fs

  -- The names and values that the builder accepts.
  abbrev pub IsValidField : Text → Option Text → Type 0
  IsValidField k none = Unit {0}
  IsValidField k (some v) = (valid_name k ≡ true) × (valid_value v ≡ true)

  abbrev pub AreValid : List Field → Type 0
  AreValid [] = Unit {0}
  AreValid ((k, o) ∷ fs) = IsValidField k o × AreValid fs

  -- A plain name and a visible value, if there is one.
  pub visible-IsValidField :
      (k : Text) (o : Option Text)
      → is_plain_name k ≡ true
      → ((v : Text) → o ≡ some v → is_visible v ≡ true)
      → IsValidField k o
  visible-IsValidField k none p h = tt
  visible-IsValidField k (some v) p h = (http.plain_name_valid k p, http.visible_valid v (h v refl))

  body-add_fields :
      (r : Builder) (fs : List Field) (b : Text) (p : Response HeaderMap)
      → AreValid fs
      → body r b ≡ some p
      → body (add_fields r fs) b ≡ some (record p { headers = appends p.headers fs })
  unfolding add_fields appends
  body-add_fields r [] b p h e = e
  body-add_fields r ((k, none) ∷ fs) b p h e = body-add_fields r fs b p h.1 e
  body-add_fields r ((k, some v) ∷ fs) b p h e =
      body-add_fields (header r k v) fs b (add_header append k v p) h.1
        (rw (http.body-header r k v b, h.0.0, h.0.1, e) refl)

  -- A response is built from a valid status and valid fields, and has exactly those.
  pub build_fields :
      (s : ℕ) (fs : List Field) (b : Text)
      → leb 100 s && ltb s 1000 ≡ true
      → AreValid fs
      → body (add_fields (status s) fs) b
        ≡ some (record { status = s; headers = appends empty fs; body = b })
  build_fields s fs b ok h =
      body-add_fields (status s) fs b (record { status = s; headers = empty; body = b }) h
        (rw (http.body-status s b, ok))

  pub get-appends_empty : (fs : List Field) (j : Text) → get (appends empty fs) j ≡ field_value j fs
  get-appends_empty fs j = rw (get-appends empty fs j, http.get-empty j)

-- A response with one header.
pub one_header :
    (http : Http) (s : ℕ) (k v b : Text)
    → leb 100 s && ltb s 1000 ≡ true
    → is_plain_name k ≡ true
    → is_visible v ≡ true
    → (r : Response http.HeaderMap) × (http.body (http.header (http.status s) k v) b ≡ some r)
      × (r.status ≡ s)
      × (r.body ≡ b)
      × ((j : Text) → http.get r.headers j ≡ (if eq_ignore_ascii_case k j then some v else none))
unfolding add_fields field_value
one_header http s k v b ok plain visible = (
  record { status = s; headers = appends http http.empty ((k, some v) ∷ []); body = b },
  build_fields http s ((k, some v) ∷ []) b ok (
    visible-IsValidField http k (some v) plain
        (λ w e. subst (λ t. is_visible t ≡ true) (some-injective v w e) visible),
    tt,
  ),
  refl,
  refl,
  get-appends_empty http ((k, some v) ∷ []),
)
