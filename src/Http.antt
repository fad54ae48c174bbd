-- ===== src/Http.antt =====
-- The `http` crate, which the gateway uses and does not implement: header maps and the response
-- builder, with the documented behaviour that the gateway relies on. Requests and responses are
-- what the gateway reads and writes of them.
pub mod Fields
use mathlib.Core.Option
use mini_api_gateway.Common.{
  ℕ, ◌≡◌, Bool, true, Option, none, some, List, is_empty, all, not, leb, ltb, ◌==◌, ◌&&◌, ◌||◌,
  if◌then◌else◌, Text, eq_ignore_ascii_case, Result, arith, refl,
}

-- A visible ASCII character or a tab, as `HeaderValue::to_str` accepts them.
unfoldable pub is_visible : Text → Bool
is_visible v = all (λ c. c == 9 || (leb 32 c && ltb c 127)) v

-- A letter, a digit or a dash: some of the characters that a header name may hold.
unfoldable pub is_plain : ℕ → Bool
is_plain c =
    c == b'-'
    || (leb b'0' c && leb c b'9')
    || (leb b'A' c && leb c b'Z')
    || (leb b'a' c && leb c b'z')

unfoldable pub is_plain_name : Text → Bool
unfolding is_plain
is_plain_name k = not (is_empty k) && all is_plain k

-- The parts of a request. `uri` is the text of the whole URI. `body` is what collecting the body
-- yields: its bytes, or the error that the client's connection ran into.
pub record Request (H : Type 0) : Type 0 where
  pub method : Text
  pub path : Text
  pub query : Option Text
  pub uri : Text
  pub headers : H
  pub body : Result Text Text

pub record Response (H : Type 0) : Type 0 where
  pub status : ℕ
  pub headers : H
  pub body : Text

-- One more header on a response, by the header map's `append`.
abbrev pub add_header : {H : Type 0} → (H → Text → Text → H) → Text → Text → Response H → Response H
add_header append k v r = record r { headers = append (r.headers) k v }

abbrev pub or_first {ℓ} : {A : Type ℓ} → Option A → Option A → Option A
or_first (some a) o = some a
or_first none o = o

-- Names of headers are compared without regard to case; a value is its bytes.
pub record Http : Type 1 where
  pub HeaderMap : Type 0
  pub empty : HeaderMap
  pub get : HeaderMap → Text → Option Text
  pub insert : HeaderMap → Text → Text → HeaderMap
  pub append : HeaderMap → Text → Text → HeaderMap
  pub entries : HeaderMap → List (Text × Text)
  pub valid_name : Text → Bool
  pub valid_value : Text → Bool
  pub from_str : Text → Option Text
  pub to_str : Text → Option Text
  pub Builder : Type 0
  pub status : ℕ → Builder
  pub header : Builder → Text → Text → Builder
  pub body : Builder → Text → Option (Response HeaderMap)
  -- The text of the error of a builder that has an invalid part.
  pub error : Builder → Text
  pub get-empty : (j : Text) → get empty j ≡ none
  -- `insert` replaces the values of the name; `append` adds one behind them, and `get` returns the
  -- first.
  pub get-insert :
      (m : HeaderMap) (k v j : Text)
      → get (insert m k v) j ≡ (if eq_ignore_ascii_case k j then some v else get m j)
  pub get-append :
      (m : HeaderMap) (k v j : Text)
      → get (append m k v) j
        ≡ or_first (get m j) (if eq_ignore_ascii_case k j then some v else none)
  pub plain_name_valid : (k : Text) → is_plain_name k ≡ true → valid_name k ≡ true
  pub visible_valid : (v : Text) → is_visible v ≡ true → valid_value v ≡ true
  -- `HeaderValue::from_str` and `to_str`.
  pub from_str_visible : (v : Text) → is_visible v ≡ true → from_str v ≡ some v
  pub from_str_sound : (v w : Text) → from_str v ≡ some w → w ≡ v
  pub to_str_lem : (v : Text) → to_str v ≡ (if is_visible v then some v else none)
  -- `Response::builder()`: an invalid part makes `body` fail.
  pub body-status :
      (s : ℕ) (b : Text)
      → body (status s) b ≡ (
          if leb 100 s && ltb s 1000
          then some (record { status = s; headers = empty; body = b })
          else none)
  pub body-header :
      (r : Builder) (k v b : Text)
      → body (header r k v) b ≡ (
          if valid_name k && valid_value v
          then Option.map (add_header append k v) (body r b)
          else none)

-- `headers.get(name).and_then(|v| v.to_str().ok())`
unfoldable pub get_text : (http : Http) → http.HeaderMap → Text → Option Text
get_text http headers name = elim (http.get headers name) [ none ↦ none | some v ↦ http.to_str v ]

pub get_text_visible :
    (http : Http) (headers : http.HeaderMap) (name : Text) {t : Text}
    → get_text http headers name ≡ some t
    → (http.get headers name ≡ some t) × (is_visible t ≡ true)
unfolding get_text
get_text_visible http headers name {t} h = go (http.get headers name) refl h
  where
    go :
        (o : Option Text)
        → http.get headers name ≡ o
        → elim o as (λ _. Option Text) [ none ↦ none | some v ↦ http.to_str v ] ≡ some t
        → (http.get headers name ≡ some t) × (is_visible t ≡ true)
    go none e k = cc
    go (some v) e k = ground (arith, http.to_str_lem v)

-- `status().is_client_error()` and `is_server_error()`.
abbrev pub is_client_error : ℕ → Bool
is_client_error s = leb 400 s && ltb s 500

abbrev pub is_server_error : ℕ → Bool
is_server_error s = leb 500 s && ltb s 600
