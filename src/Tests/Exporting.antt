-- ===== src/Tests/Exporting.antt =====
-- A connection to the metrics server at which nothing new is shown.
use mini_api_gateway.Common.{
  ◌≡◌, refl, true, none, some, List, [], ◌∷◌, length, decimal, Text, text, ok,
}
use mini_api_gateway.Http.{Response}
use mini_api_gateway.Metrics.{Metric, record_active_connections}
use mini_api_gateway.Metrics.Server.{Exporter, Event, records, accepts, asks, run}
use mini_api_gateway.Metrics.Server.Connections.{Page, asks-accepts}
use mini_api_gateway.Tests.Libraries.{Headers, http_list}

-- The number of calls so far.
abbrev render : List Metric → Text
render calls = decimal (length calls)

abbrev listening : Exporter http_list
listening = record {
  endpoint = text "/metrics";
  recorded = record_active_connections true;
  shown = text "0" ∷ [];
  answers = [];
  stopped = none;
}

abbrev busy : List Event
busy = records (record_active_connections true) ∷ accepts (ok tt) ∷ asks 0 (text "/") ∷ []

asks-accepts_example :
    (r : Response Headers) × ((run http_list render
        (asks (length listening.shown) (text "/metrics") ∷ [])
        (run http_list render (accepts (ok tt) ∷ busy) listening)).answers
      ≡ some r ∷ (run http_list render (accepts (ok tt) ∷ busy) listening).answers)
    × Page http_list (text "/metrics") (text "/metrics") (render listening.recorded) r
asks-accepts_example = asks-accepts http_list render listening busy (text "/metrics") refl
