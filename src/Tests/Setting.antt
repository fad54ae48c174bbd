-- ===== src/Tests/Setting.antt =====
-- The configuration, the requests and the state that the examples share.
use mini_api_gateway.Common.{true, false, none, some, [], ◌∷◌, Text, text, ok}
use mini_api_gateway.Config.{RouteConfig, static, AuthConfig, jwt, oauth2, global, SocketAddr}
use mini_api_gateway.Http.{Request}
use mini_api_gateway.Router.{Router, RouteMatch, matched}
use mini_api_gateway.Cors.{CorsLayer}
use mini_api_gateway.Auth.{AuthLayer}
use mini_api_gateway.RateLimit.{RateLimitLayer}
use mini_api_gateway.Cache.Memory.{memory_backend}
use mini_api_gateway.Platform.{Platform, World}
use mini_api_gateway.Gateway.{Gateway}
use mini_api_gateway.Tests.Libraries.{
  Headers, http_list, Pattern, below, patterns, fails_once, one_address, one_token, count_down,
  keeps_all,
}

abbrev pub small : Platform
small = record {
  http = http_list;
  client = fails_once;
  regex = patterns;
  discovery = one_address;
  jwt = one_token;
  limiter = count_down;
  cache = memory_backend keeps_all;
  lossy = λ t. t;
}

abbrev pub users : RouteConfig
users = record {
  id = text "users";
  path = text "/users/**";
  methods = some (text "GET" ∷ []);
  upstream = static (text "http://up");
  strip_prefix = some (text "/users");
  retry = some (record { max_attempts = 3; backoff_ms = 10 });
  timeout_ms = some 1000;
  cache_enabled = some true;
  auth_required = none;
  rate_limit_key = none;
}

abbrev pub users_router : Router Pattern
users_router = record {
  routes = record { config = users; path_regex = below (text "/users") } ∷ [];
  discovery = false;
}

abbrev pub users_match : RouteMatch
users_match = matched users (text "http://up")

abbrev pub get_user : Request Headers
get_user = record {
  method = text "GET";
  path = text "/users/7";
  query = some (text "a=1&token=good&b=2");
  uri = text "/users/7?a=1&token=good&b=2";
  headers = [];
  body = ok [];
}

abbrev pub get_user_plain : Request Headers
get_user_plain = record get_user { query = none; uri = text "/users/7" }

abbrev pub get_missing : Request Headers
get_missing = record get_user { path = text "/missing"; uri = text "/missing" }

abbrev pub preflight_user : Request Headers
preflight_user = record get_user_plain {
  method = text "OPTIONS";
  headers = (text "Origin", text "http://a") ∷ [];
}

abbrev pub any_origin : CorsLayer
any_origin = record {
  allow_origins = text "*" ∷ [];
  allow_methods = text "GET" ∷ [];
  allow_headers = text "X-A" ∷ [];
  allow_credentials = true;
  max_age = some 60;
  expose_headers = [];
}

abbrev pub guard_config : AuthConfig
guard_config = record {
  enabled = true;
  provider = jwt (text "secret") none none;
  excluded_paths = text "/open/**" ∷ [];
}

abbrev pub guard : AuthLayer Text
guard = record { config = guard_config; decoding_key = some (text "secret") }

abbrev pub oauth2_config : AuthConfig
oauth2_config = record guard_config {
  provider = oauth2 (text "id") (text "secret") (text "http://t") none none;
}

abbrev pub by_all : RateLimitLayer
by_all = record { key_strategy = global }

abbrev pub small_gateway : Gateway small
small_gateway = record {
  request_id_header = some (text "x-request-id");
  router = users_router;
  auth_layer = some guard;
  rate_limit_layer = some by_all;
  cors_layer = some any_origin;
  cache_layer = none;
}

-- A limiter with no room left, and nothing sent so far.
abbrev pub start : World small
start = record {
  limiter = 0;
  cache = λ k. none;
  discovery = 0;
  net = 0;
  sent = [];
  slept = [];
  metrics = [];
}

abbrev pub localhost : SocketAddr
localhost = record { ip = text "127.0.0.1"; port = 80 }

abbrev pub any_method : RouteConfig
any_method = record users { methods = none }

abbrev pub options_gateway : Gateway small
options_gateway = record small_gateway {
  router = record {
    routes = record { config = any_method; path_regex = below (text "/users") } ∷ [];
    discovery = false;
  };
}
