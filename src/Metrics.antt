-- ===== src/Metrics.antt =====
-- src/metrics.rs: what the gateway records of a request, as the calls that it makes of the metrics
-- library, and the endpoint that shows them. How long a request took is not modelled, so that a
-- duration is recorded without its value.
pub mod Descriptions
pub mod Server
use mini_api_gateway.Common.{
  ℕ, Bool, true, false, Option, List, [], ◌∷◌, leb, if◌then◌else◌, Text, text, text_eq, decimal,
}
use mini_api_gateway.Http.{Http, Response}

abbrev pub Labels : Type 0
Labels = List (Text × Text)

-- A call of `counter!(…).increment`, `histogram!(…).record` or `gauge!(…).increment`.
pub data Metric : Type 0 where
  increment : (name : Text) → Labels → Metric
  record_value : (name : Text) → Labels → ℕ → Metric
  record_duration : (name : Text) → Labels → Metric
  gauge_up gauge_down : (name : Text) → Metric

pub record RequestMetrics : Type 0 where
  pub method : Text
  pub path : Text
  pub route_id : Text

unfoldable pub new : Text → Text → Text → RequestMetrics
new method path route_id = record { method = method; path = path; route_id = route_id }

abbrev pub labels : RequestMetrics → ℕ → Labels
labels m status =
    (text "method", m.method)
    ∷ (text "path", m.path)
    ∷ (text "route_id", m.route_id)
    ∷ (text "status", decimal status)
    ∷ []

abbrev route_label : RequestMetrics → Labels
route_label m = (text "route_id", m.route_id) ∷ []

-- The calls are listed in their order.
unfoldable pub record_success : RequestMetrics → ℕ → ℕ → List Metric
record_success m status size =
    increment (text "gateway_requests_total") (labels m status)
    ∷ record_duration (text "gateway_request_duration_seconds") (labels m status)
    ∷ record_value (text "gateway_response_size_bytes") (labels m status) size
    ∷ (if leb 400 status
        then increment (text "gateway_requests_error_total") (labels m status) ∷ []
        else [])

unfoldable pub record_cache_hit : RequestMetrics → List Metric
record_cache_hit m = increment (text "gateway_cache_hits_total") (route_label m) ∷ []

unfoldable pub record_cache_miss : RequestMetrics → List Metric
record_cache_miss m = increment (text "gateway_cache_misses_total") (route_label m) ∷ []

unfoldable pub record_rate_limited : RequestMetrics → List Metric
record_rate_limited m =
    increment (text "gateway_rate_limited_total")
      ((text "route_id", m.route_id) ∷ (text "method", m.method) ∷ [])
    ∷ []

unfoldable pub record_auth_failure : RequestMetrics → List Metric
record_auth_failure m = increment (text "gateway_auth_failures_total") (route_label m) ∷ []

-- `record_active_connections(1)` and `(-1)`.
unfoldable pub record_active_connections : Bool → List Metric
record_active_connections true = gauge_up (text "gateway_active_connections") ∷ []
record_active_connections false = gauge_down (text "gateway_active_connections") ∷ []

unfoldable pub record_request_size : ℕ → List Metric
record_request_size size = record_value (text "gateway_request_size_bytes") [] size ∷ []

-- The answer of the metrics server to a request for `path`, where `rendered` is the text of all
-- metrics when the connection was accepted. `None` is the panic of `unwrap`.
module _ (http : Http) where
  open http use {HeaderMap, status, header, body}

  unfoldable pub serve_request : (endpoint rendered path : Text) → Option (Response HeaderMap)
  serve_request endpoint rendered path =
      if text_eq path endpoint
      then body (header (status 200) (text "Content-Type") (text "text/plain; charset=utf-8"))
          rendered
      else body (status 404) (text "Not Found")
