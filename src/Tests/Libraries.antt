-- ===== src/Tests/Libraries.antt =====
-- Small implementations of the libraries that the gateway uses, for the examples: a header map as a
-- list, the two forms of regular expressions, a client that fails once, a limiter that
-- counts down, and a cache that drops nothing.
use mathlib.Core.Option
use mini_api_gateway.Common.{
  ℕ, zero, suc, ◌≡◌, ◌≢◌, refl, sym, ap, ◌∙◌, ◌⊎◌, inl, inr, Bool, true, false, ◌&&◌, ◌==◌, leb,
  ltb, Option, none, some, List, [], ◌∷◌, ◌++◌, drop, if◌then◌else◌, Text, text, text_eq,
  text_eq_iff, eq_ignore_ascii_case, Result, ok, err, ok-injective, Bool-cases, arith,
}
use mini_api_gateway.Http.{Http, Response, is_visible, is_plain_name, or_first, add_header}
use mini_api_gateway.Client.{HttpClient}
use mini_api_gateway.Discovery.{ServiceDiscovery}
use mini_api_gateway.Router.Regex.{RegexLib, is_below}
use mini_api_gateway.Auth.{JwtLib, Claims}
use mini_api_gateway.RateLimit.{Limiter}
use mini_api_gateway.Cache.{CachedResponse}
use mini_api_gateway.Cache.Memory.{Moka}

abbrev pub Headers : Type 0
Headers = List (Text × Text)

abbrev pub lookup : Headers → Text → Option Text
lookup [] j = none
lookup ((k, v) ∷ m) j = let rest = lookup m j in if eq_ignore_ascii_case k j then some v else rest

pub lookup-append :
    (m : Headers) (k v j : Text)
    → lookup (m ++ (k, v) ∷ []) j
      ≡ or_first (lookup m j) (if eq_ignore_ascii_case k j then some v else none)
lookup-append [] k v j = refl
lookup-append ((l, u) ∷ m) k v j = elim (Bool-cases (eq_ignore_ascii_case l j)) [
  | inl y ↦ rw y refl
  | inr n ↦ rw n (lookup-append m k v j)
]

abbrev pub Building : Type 0
Building = Text → Option (Response Headers)

abbrev pub accept : Text → Option Text
accept v = if is_visible v then some v else none

pub accept_sound : (v w : Text) → accept v ≡ some w → w ≡ v
accept_sound v w e = ground arith

pub accept_visible : (v : Text) → is_visible v ≡ true → accept v ≡ some v
accept_visible v e = rw e refl

abbrev pub http_list : Http
http_list = record {
  HeaderMap = Headers;
  empty = [];
  get = lookup;
  insert = λ m k v. (k, v) ∷ m;
  append = λ m k v. m ++ (k, v) ∷ [];
  entries = λ m. m;
  valid_name = is_plain_name;
  valid_value = is_visible;
  from_str = accept;
  to_str = accept;
  Builder = Building;
  status = λ s b.
      if leb 100 s && ltb s 1000
      then some (record { status = s; headers = []; body = b })
      else none;
  header = λ r k v b.
      if is_plain_name k && is_visible v
      then Option.map (add_header (λ m k v. m ++ (k, v) ∷ []) k v) (r b)
      else none;
  body = λ r b. r b;
  error = λ r. text "invalid";
  get-empty = λ j. refl;
  get-insert = λ m k v j. refl;
  get-append = lookup-append;
  plain_name_valid = λ k e. e;
  visible_valid = λ v e. e;
  from_str_visible = accept_visible;
  from_str_sound = accept_sound;
  to_str_lem = λ v. refl;
  body-status = λ s b. refl;
  body-header = λ r k v b. refl;
}

-- A regular expression that the router builds.
pub data Pattern : Type 0 where
  exact below : Text → Pattern

abbrev pub escape : Text → Text
escape [] = []
escape (c ∷ s) = b'\\' ∷ c ∷ escape s

-- The escaped characters at the front, and the rest.
abbrev pub decode : Text → Text × Text
decode [] = ([], [])
decode (c ∷ []) = ([], c ∷ [])
decode (c ∷ d ∷ s) =
    let rest = decode s in if c == b'\\' then (d ∷ rest.0, rest.1) else ([], c ∷ d ∷ s)

abbrev pub to_pattern : Text × Text → Result Text Pattern
to_pattern (base, rest) =
    if text_eq rest (text "$")
    then ok (exact base)
    else if text_eq rest (text "(/.*)?$")
    then ok (below base)
    else err (text "no pattern")

abbrev pub parse : Text → Result Text Pattern
parse t = to_pattern (decode (drop 1 t))

abbrev pub matches : Pattern → Text → Bool
matches (exact base) path = text_eq path base
matches (below base) path = is_below base path

pub decode-escape :
    (base rest : Text) → decode rest ≡ ([], rest) → decode (escape base ++ rest) ≡ (base, rest)
decode-escape [] rest e = e
decode-escape (c ∷ base) rest e = rw (decode-escape base rest e) refl

pub parse-exact : (base : Text) → parse (text "^" ++ (escape base ++ text "$")) ≡ ok (exact base)
unfolding text text_eq
parse-exact base = ap to_pattern (decode-escape base (text "$") refl)

pub parse-below :
    (base : Text) → parse (text "^" ++ (escape base ++ text "(/.*)?$")) ≡ ok (below base)
unfolding text text_eq
parse-below base = ap to_pattern (decode-escape base (text "(/.*)?$") refl)

abbrev pub patterns : RegexLib
patterns = record {
  Regex = Pattern;
  compile = parse;
  escape = escape;
  is_match = matches;
  match_exact = λ base r e path. ap (λ x. matches x path) (ok-injective (sym e ∙ parse-exact base));
  match_below = λ base r e path. ap (λ x. matches x path) (ok-injective (sym e ∙ parse-below base));
}

-- The first answer is a server error, every later one is a success.
abbrev pub fails_once : HttpClient Headers
fails_once = record {
  Net = ℕ;
  parse_method = ok;
  valid_url = λ u. true;
  try_clone = some;
  send = λ r t n. (
    ok (record { status = if n == 0 then 503 else 200; headers = []; bytes = ok (text "hi") }),
    suc n,
  );
  try_clone-valid = λ r e. refl;
}

abbrev pub one_address : ServiceDiscovery
one_address = record {
  State = ℕ;
  resolve = λ n s. (ok (text "http://10.0.0.1"), suc n);
  health_check = λ n s. (ok [], n);
  watch = λ n s. (ok tt, n);
}

abbrev pub alice : Claims
alice = record { sub = text "alice"; exp = 2; iat = 1; iss = none; aud = none; extra = [] }

abbrev pub one_token : JwtLib
one_token = record {
  DecodingKey = Text;
  from_secret = λ t. t;
  decode = λ t k v. if text_eq t (text "good") then ok alice else err (text "bad");
}

abbrev pub take_one : ℕ → Text → Bool × ℕ
take_one zero k = (false, 0)
take_one (suc n) k = (true, n)

abbrev pub count_down : Limiter
count_down = record { State = ℕ; keyed = λ q. q.burst; check_key = take_one }

-- What is kept under each key.
abbrev pub Kept : Type 0 → Type 0
Kept A = Text → Option A

abbrev pub put : {A : Type 0} → Kept A → Text → Option A → Kept A
put c k o j = if text_eq k j then o else c j

pub put-some :
    {A : Type 0} (c : Kept A) (k j : Text) (v u : A)
    → put c k (some v) j ≡ some u
    → ((k ≡ j) × (u ≡ v)) ⊎ ((k ≢ j) × (c j ≡ some u))
put-some c k j v u e = ground (arith, text_eq_iff k j)

pub put-none :
    {A : Type 0} (c : Kept A) (k j : Text) (u : A)
    → put c k none j ≡ some u
    → (k ≢ j) × (c j ≡ some u)
put-none c k j u e = ground (arith, text_eq_iff k j)

abbrev pub keeps_all : Moka
keeps_all = record {
  Cache = Kept CachedResponse;
  build = λ n j. none;
  get = λ c k. (c k, c);
  insert = λ c k v. put c k (some v);
  invalidate = λ c k. put c k none;
  invalidate_all = λ c j. none;
  get-build = λ n j. refl;
  get-get = λ c k j u e. e;
  get-insert = put-some;
  get-invalidate = put-none;
  get-invalidate_all = λ c j. refl;
}
