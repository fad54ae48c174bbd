-- ===== src/Tests/Layers.antt =====
-- The middleware at concrete requests.
use mini_api_gateway.Common.{
  ℕ, ◌+◌, ◌≡◌, ◌↔◌, refl, true, false, not, ◌&&◌, ◌||◌, none, [], is_empty, Memᴰ, join, text,
  text_eq, Text, next, Run, if◌then◌else◌,
}
use mini_api_gateway.Http.{Request, Response, is_visible}
use mini_api_gateway.Http.Fields.{field_value}
use mini_api_gateway.Cors.{is_origin_allowed, origin_of}
use mini_api_gateway.Cors
use mini_api_gateway.Cors.Headers.{IsServable, preflight_fields, response_fields, Decorates}
use mini_api_gateway.Cors.Laws.{call-preflight, call-actual}
use mini_api_gateway.Auth.{is_excluded_path, new}
use mini_api_gateway.Auth
use mini_api_gateway.Auth.Exclusion.{LetsThrough, is_excluded_path_iff}
use mini_api_gateway.Auth.Laws.{call-oauth2}
use mini_api_gateway.Gateway.Stages.{Says}
use mini_api_gateway.Tests.Libraries.{Headers, http_list, one_token, lookup}
use mini_api_gateway.Tests.Setting.{get_user, preflight_user, any_origin, guard, oauth2_config}

-- The service behind the layers counts its calls.
abbrev counted : Request Headers → Run ℕ Text (Response Headers)
counted req n = (next (record { status = 200; headers = []; body = text "hi" }), n + 1)

servable : IsServable any_origin
unfolding is_visible text join
servable = record { methods = refl; headers = refl; expose = refl }

preflight_method : text_eq preflight_user.method (text "OPTIONS") ≡ true
unfolding text_eq text
preflight_method = refl

call-preflight_example :
    (r : Response Headers) × (Cors.call http_list counted any_origin preflight_user 0 ≡ (next r, 0))
    × (r.status ≡ (
        if is_origin_allowed any_origin (origin_of http_list preflight_user.headers)
        then 204
        else 403))
    × ((j : Text)
        → lookup r.headers j ≡ (
            if is_origin_allowed any_origin (origin_of http_list preflight_user.headers)
            then field_value j
                (preflight_fields any_origin (origin_of http_list preflight_user.headers))
            else none))
call-preflight_example =
    call-preflight http_list counted any_origin preflight_user 0 servable preflight_method

user_method : text_eq get_user.method (text "OPTIONS") ≡ false
unfolding text_eq text
user_method = refl

abbrev hi : Response Headers
hi = record { status = 200; headers = []; body = text "hi" }

call-actual_example :
    (s : Response Headers) × (Cors.call http_list counted any_origin get_user 0 ≡ (next s, 1))
    × Decorates http_list hi s (
        if not (is_empty (origin_of http_list get_user.headers))
          && is_origin_allowed any_origin (origin_of http_list get_user.headers)
        then response_fields any_origin (origin_of http_list get_user.headers)
        else [])
call-actual_example =
    call-actual http_list counted any_origin get_user 0 1 hi servable user_method refl

is_excluded_path_iff_example :
    (is_excluded_path guard (text "/opening") ≡ true)
    ↔ ((p : Text) × Memᴰ p guard.config.excluded_paths × LetsThrough p (text "/opening"))
is_excluded_path_iff_example = is_excluded_path_iff guard (text "/opening")

oauth2_guarded :
    (not oauth2_config.enabled || is_excluded_path (new one_token oauth2_config) get_user.path)
    ≡ false
unfolding is_excluded_path new text mini_api_gateway.Common.ends_with
    mini_api_gateway.Common.starts_with mini_api_gateway.Common.drop_last
oauth2_guarded = refl

call-oauth2_example :
    (r : Response Headers) × (Auth.call http_list one_token counted
        (new one_token oauth2_config)
        get_user
        0
      ≡ (next r, 0))
    × Says http_list 401 (text "WWW-Authenticate") (text "Bearer") r
call-oauth2_example =
    call-oauth2 http_list one_token counted oauth2_config get_user 0 refl oauth2_guarded
