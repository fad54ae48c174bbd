-- ===== src/Tests/Requests.antt =====
-- Whole requests through the gateway.
use mini_api_gateway.Common.{
  ◌≡◌, refl, inl, true, false, none, some, [], ◌∷◌, text, Text, text_eq, next, stop, ◌>>=◌, ◌>>◌,
}
use mini_api_gateway.Http.{Request, Response, is_visible}
use mini_api_gateway.Http.Fields.{field_value}
use mini_api_gateway.Router.{match_route, match_entries, matched}
use mini_api_gateway.Router.Regex.{is_below}
use mini_api_gateway.Router.Globs.{pattern_matches, pattern_matches_iff}
use mini_api_gateway.Router.Matching.{Accepts}
use mini_api_gateway.Tests.Routing.{users_compiled}
use mini_api_gateway.Cors.{origin_of, is_origin_allowed}
use mini_api_gateway.Cors.Headers.{IsServable, preflight_fields}
use mini_api_gateway.Metrics
use mini_api_gateway.Metrics.{RequestMetrics, record_auth_failure, record_rate_limited}
use mini_api_gateway.Platform.{note}
use mini_api_gateway.Gateway.{add_request_id, auth_stage, cors_stage, proxy_stage, handle_request}
use mini_api_gateway.Gateway.Stages.{Says}
use mini_api_gateway.Gateway.Access.{
  IsDenied, handle_request-unmatched, handle_request-IsDenied, handle_request-limited,
  handle_request-preflight,
}
use mini_api_gateway.Gateway.Logs.{Ending, handle_logged, handle_logged-Ending}
use mini_api_gateway.Cors
use mini_api_gateway.Gateway.Preflights.{Meets, cors_stage-call}
use mini_api_gateway.Gateway.Services.{Compares, auth_stage-call}
use mini_api_gateway.Auth
use mini_api_gateway.Tests.Libraries.{Headers, http_list, lookup}
use mini_api_gateway.Tests.Setting.{
  small, small_gateway, start, get_user, get_user_plain, get_missing, preflight_user, guard, users,
  users_router, users_match, any_origin, options_gateway, any_method,
}

missing_unmatched : ¬ Accepts users get_missing
unfolding pattern_matches text is_below mini_api_gateway.Common.ends_with
    mini_api_gateway.Common.drop_last mini_api_gateway.Common.strip_prefix text_eq
missing_unmatched (path, method) =
    let accepted : false ≡ true = (pattern_matches_iff users.path get_missing.path).1 path in cc

handle_request-unmatched_example :
    (r : Response Headers) × (handle_request small small_gateway (text "1") get_missing start
      ≡ (stop r, start))
    × Says http_list 404 (text "Content-Type") (text "application/json") r
    × (r.body ≡ text "{\"error\":\"Not Found\",\"message\":\"No route matches the request\"}")
handle_request-unmatched_example =
    handle_request-unmatched small small_gateway (users ∷ []) users_router (text "1") get_missing
      start users_compiled (inl refl) (missing_unmatched, tt)

plain_matched :
    match_route small.discovery small.regex small_gateway.router 0
      (add_request_id small small_gateway.request_id_header (text "1") get_user_plain)
    ≡ (some users_match, 0)
unfolding match_route match_entries is_below add_request_id text
    mini_api_gateway.Common.strip_prefix mini_api_gateway.Http.is_plain_name is_visible
    mini_api_gateway.Router.method_allowed mini_api_gateway.Common.eq_ignore_ascii_case
    mini_api_gateway.Router.resolve_upstream
plain_matched = refl

plain-IsDenied :
    IsDenied small guard
      (add_request_id small small_gateway.request_id_header (text "1") get_user_plain)
unfolding add_request_id text mini_api_gateway.Auth.is_excluded_path
    mini_api_gateway.Common.ends_with mini_api_gateway.Common.starts_with
    mini_api_gateway.Common.drop_last mini_api_gateway.Http.is_plain_name is_visible
    mini_api_gateway.Auth.extract_token mini_api_gateway.Http.get_text
    mini_api_gateway.Common.eq_ignore_ascii_case
plain-IsDenied = record { enabled = refl; guarded = refl; no_token = inl refl }

plain_no_options : text_eq get_user_plain.method (text "OPTIONS") ≡ false
unfolding text_eq text
plain_no_options = refl

handle_request-IsDenied_example :
    (r : Response Headers) × (handle_request small small_gateway (text "1") get_user_plain start ≡ (
      stop r,
      note
          (record_auth_failure
            (Metrics.new get_user_plain.method get_user_plain.path users_match.route_id))
          start,
    ))
    × Says http_list 401 (text "WWW-Authenticate") (text "Bearer") r
handle_request-IsDenied_example =
    handle_request-IsDenied small small_gateway (text "1") get_user_plain start refl plain_matched
      plain_no_options plain-IsDenied

user_matched :
    match_route small.discovery small.regex small_gateway.router 0
      (add_request_id small small_gateway.request_id_header (text "1") get_user)
    ≡ (some users_match, 0)
unfolding match_route match_entries is_below add_request_id text
    mini_api_gateway.Common.strip_prefix mini_api_gateway.Http.is_plain_name is_visible
    mini_api_gateway.Router.method_allowed mini_api_gateway.Common.eq_ignore_ascii_case
    mini_api_gateway.Router.resolve_upstream
user_matched = refl

user_no_options : text_eq get_user.method (text "OPTIONS") ≡ false
unfolding text_eq text
user_no_options = refl

abbrev as_alice : Request Headers
as_alice = record get_user {
  headers = (text "x-user-id", text "alice") ∷ (text "x-request-id", text "1") ∷ [];
}

user_accepted :
    auth_stage small small_gateway.auth_layer
      (Metrics.new get_user.method get_user.path users_match.route_id)
      (add_request_id small small_gateway.request_id_header (text "1") get_user)
      start
    ≡ (next as_alice, start)
unfolding auth_stage add_request_id text mini_api_gateway.Auth.is_excluded_path
    mini_api_gateway.Common.ends_with mini_api_gateway.Common.starts_with
    mini_api_gateway.Common.drop_last mini_api_gateway.Http.is_plain_name is_visible
    mini_api_gateway.Gateway.check_token mini_api_gateway.Auth.extract_token
    mini_api_gateway.Http.get_text mini_api_gateway.Common.eq_ignore_ascii_case
    mini_api_gateway.Auth.query_token mini_api_gateway.Common.split
    mini_api_gateway.Gateway.check_claims mini_api_gateway.Auth.validate_jwt
    mini_api_gateway.Gateway.with_user
user_accepted = refl

handle_request-limited_example :
    (r : Response Headers) × (handle_request small small_gateway (text "1") get_user start ≡ (
      stop r,
      note
          (record_rate_limited (Metrics.new get_user.method get_user.path users_match.route_id))
          start,
    ))
    × Says http_list 429 (text "Content-Type") (text "application/json") r
handle_request-limited_example =
    handle_request-limited small small_gateway (text "1") get_user as_alice start refl user_matched
      user_no_options user_accepted refl

any_origin-IsServable : IsServable any_origin
unfolding is_visible text mini_api_gateway.Common.join
any_origin-IsServable = record { methods = refl; headers = refl; expose = refl }

preflight_matched :
    match_route small.discovery small.regex options_gateway.router 0
      (add_request_id small options_gateway.request_id_header (text "1") preflight_user)
    ≡ (some (matched any_method (text "http://up")), 0)
unfolding match_route match_entries is_below add_request_id text
    mini_api_gateway.Common.strip_prefix mini_api_gateway.Http.is_plain_name is_visible
    mini_api_gateway.Router.method_allowed mini_api_gateway.Router.resolve_upstream
preflight_matched = refl

preflight_options : text_eq preflight_user.method (text "OPTIONS") ≡ true
unfolding text_eq text
preflight_options = refl

preflight_allowed :
    is_origin_allowed any_origin (
      origin_of http_list
        (add_request_id small options_gateway.request_id_header (text "1") preflight_user).headers)
    ≡ true
unfolding is_origin_allowed text text_eq
preflight_allowed = refl

handle_request-preflight_example :
    (r : Response Headers) × (handle_request small options_gateway (text "1") preflight_user start
      ≡ (stop r, start))
    × (r.status ≡ 204)
    × ((j : Text)
        → lookup r.headers j
          ≡ field_value j (
              preflight_fields any_origin (
                origin_of http_list
                  (add_request_id small options_gateway.request_id_header
                    (text "1")
                    preflight_user).headers)))
handle_request-preflight_example =
    handle_request-preflight small options_gateway (text "1") preflight_user start refl
      any_origin-IsServable preflight_matched preflight_options preflight_allowed

handle_logged-Ending_example :
    Ending small
      (text "1")
      get_missing
      start
      []
      (handle_logged small small_gateway (text "1") get_missing (start, []))
handle_logged-Ending_example =
    handle_logged-Ending small small_gateway (text "1") get_missing start []

abbrev counted_as : RequestMetrics
counted_as = Metrics.new (text "GET") (text "/users/7") (text "users")

auth_stage-call_example :
    Compares small counted_as
      (proxy_stage small none users_match counted_as)
      guard
      get_user
      start
      (Auth.call small.http small.jwt
        (proxy_stage small none users_match counted_as)
        guard
        get_user
        start)
      ((auth_stage small (some guard) counted_as get_user
          >>= proxy_stage small none users_match counted_as)
        start)
auth_stage-call_example =
    auth_stage-call small counted_as (proxy_stage small none users_match counted_as) guard get_user
      start

cors_stage-call_example :
    Meets small
      (proxy_stage small none users_match counted_as)
      any_origin
      preflight_user
      start
      (Cors.call small.http
        (proxy_stage small none users_match counted_as)
        any_origin
        preflight_user
        start)
      ((cors_stage small (some any_origin) preflight_user
          >> proxy_stage small none users_match counted_as preflight_user)
        start)
cors_stage-call_example =
    cors_stage-call small (proxy_stage small none users_match counted_as) any_origin preflight_user
      start any_origin-IsServable
