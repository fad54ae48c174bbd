-- ===== src/Tests/Routing.antt =====
-- The router at a concrete table of routes.
use mini_api_gateway.Common.{◌≡◌, refl, true, false, [], ◌∷◌, text, ok}
use mini_api_gateway.Router.{
  new, match_route, with_discovery, compile_route, compile_routes, pattern_of,
}
use mini_api_gateway.Router.Matching.{AnswersFirst, match_route-new}
use mini_api_gateway.Tests.Libraries.{patterns, one_address}
use mini_api_gateway.Tests.Setting.{users, users_router, get_user}

-- The routes of the examples' gateway.
pub users_compiled : new patterns (users ∷ []) ≡ ok users_router
unfolding new compile_route compile_routes pattern_of text mini_api_gateway.Common.text_eq
    mini_api_gateway.Common.ends_with mini_api_gateway.Common.drop_last
users_compiled = refl

match_route-new_example :
    AnswersFirst one_address patterns false 0 get_user
      (users ∷ [])
      (match_route one_address patterns users_router 0 get_user)
    × AnswersFirst one_address patterns true 0 get_user
        (users ∷ [])
        (match_route one_address patterns (with_discovery users_router) 0 get_user)
match_route-new_example =
    match_route-new one_address patterns (users ∷ []) users_router 0 get_user users_compiled
