-- ===== src/Tests/Forwarding.antt =====
-- The proxy at concrete requests.
use mini_api_gateway.Common.{
  ℕ, ◌≡◌, ◌≢◌, ◌<◌, ◌≤◌, ◌+◌, ◌^◌, refl, Option, none, some, List, [], ◌∷◌, get_elem?, length, text,
  Text, next, arith, if◌then◌else◌,
}
use mini_api_gateway.Config.{RetryConfig, round_robin}
use mini_api_gateway.Client.{ProxyRequest}
use mini_api_gateway.Proxy.{
  execute_with_retry, max_attempts, backoff_of, forward_headers, is_hop_by_hop, select_endpoint,
}
use mini_api_gateway.Proxy.Headers.{last_value, get-forward_headers}
use mini_api_gateway.Metrics
use mini_api_gateway.Proxy.{forward}
use mini_api_gateway.Proxy.Forward.{Forwards, forwarded, forward-Forwards}
use mini_api_gateway.Proxy.Retry.{Ends, execute_with_retry-Ends}
use mini_api_gateway.Proxy.Balance.{counter_after, select_endpoint-ok, round_robin_fair}
use mini_api_gateway.Tests.Libraries.{Headers, lookup}
use mini_api_gateway.Tests.Setting.{small, start, users_match, get_user}

abbrev three_tries : Option RetryConfig
three_tries = some (record { max_attempts = 3; backoff_ms = 10 })

abbrev sent_request : ProxyRequest Headers
sent_request = record { method = text "GET"; url = text "http://up/7"; headers = []; body = [] }

a_try : 0 < max_attempts three_tries
unfolding max_attempts
a_try = omega arith

execute_with_retry-Ends_example :
    Ends small sent_request
      (backoff_of three_tries)
      (some 1000)
      (max_attempts three_tries)
      start
      (execute_with_retry small sent_request three_tries (some 1000) start)
execute_with_retry-Ends_example =
    execute_with_retry-Ends small sent_request three_tries (some 1000) start refl a_try

abbrev servers : List Text
servers = text "a" ∷ text "b" ∷ []

some_server : servers ≢ []
some_server e = cc

select_endpoint-ok_example :
    (e : Text) × ((i : ℕ) × (get_elem? servers i ≡ some e))
    × ((select_endpoint length 7 servers round_robin none 5).0 ≡ next e)
select_endpoint-ok_example = select_endpoint-ok length 7 servers round_robin none 5 some_server

counter_fits : 5 + length servers ≤ 2 ^ 64
counter_fits = omega arith

second_server : 1 < length servers
second_server = omega arith

round_robin_fair_example :
    (i : ℕ) × (i < length servers)
    × ((e : Text) × (get_elem? servers 1 ≡ some e)
        × ((select_endpoint length 7 servers round_robin none
              (counter_after length 7 servers i 5)).0
            ≡ next e))
round_robin_fair_example = round_robin_fair length 7 servers 5 1 counter_fits second_server

abbrev entries : List (Text × Text)
entries = (text "connection", text "close") ∷ (text "x", text "1") ∷ (text "X", text "2") ∷ []

get-forward_headers_example :
    lookup (forward_headers small entries []) (text "x")
    ≡ (if is_hop_by_hop (text "x") then none else last_value (text "x") entries)
get-forward_headers_example = get-forward_headers small entries (text "x")

some_attempt : 0 < max_attempts users_match.retry
unfolding max_attempts
some_attempt = omega arith

forward-Forwards_example :
    Forwards small
      (forwarded small users_match get_user (text "GET") [])
      (max_attempts users_match.retry)
      start
      (forward small users_match
        (Metrics.new (text "GET") get_user.path (text "users"))
        get_user
        start).1
forward-Forwards_example =
    forward-Forwards small users_match (Metrics.new (text "GET") get_user.path (text "users"))
      get_user start refl refl refl some_attempt
