-- ===== src/Metrics/Descriptions.antt =====
-- src/metrics.rs: the descriptions of the metrics that `MetricsExporter::new` registers.
use mini_api_gateway.Common.{
  ℕ, ◌≡◌, refl, inl, inr, Bool, true, false, List, [], ◌∷◌, all, any, leb, Bool-cases, Text, text,
  text_eq,
}
use mini_api_gateway.Metrics.{
  Metric, increment, record_value, record_duration, gauge_up, gauge_down, RequestMetrics,
  record_success, record_cache_hit, record_cache_miss, record_rate_limited, record_auth_failure,
  record_active_connections, record_request_size,
}

-- `describe_counter!`, `describe_histogram!` or `describe_gauge!` with a name and a text.
pub data Description : Type 0 where
  describe_counter describe_histogram describe_gauge : (name description : Text) → Description

unfoldable pub register_descriptions : List Description
register_descriptions =
    describe_counter (text "gateway_requests_total") (text "Total number of HTTP requests")
    ∷ describe_counter (text "gateway_requests_error_total")
        (text "Total number of HTTP error responses")
    ∷ describe_histogram (text "gateway_request_duration_seconds")
        (text "HTTP request latency in seconds")
    ∷ describe_histogram (text "gateway_response_size_bytes") (text "HTTP response size in bytes")
    ∷ describe_histogram (text "gateway_request_size_bytes") (text "HTTP request size in bytes")
    ∷ describe_gauge (text "gateway_active_connections") (text "Number of active connections")
    ∷ describe_gauge (text "gateway_upstreams_available")
        (text "Number of available upstream endpoints")
    ∷ describe_counter (text "gateway_cache_hits_total") (text "Total number of cache hits")
    ∷ describe_counter (text "gateway_cache_misses_total") (text "Total number of cache misses")
    ∷ describe_counter (text "gateway_rate_limited_total")
        (text "Total number of rate limited requests")
    ∷ describe_counter (text "gateway_auth_failures_total")
        (text "Total number of authentication failures")
    ∷ []

-- A description is one of a call's metric: of its name and its sort.
abbrev describes : Metric → Description → Bool
describes (increment name labels) (describe_counter n t) = text_eq n name
describes (increment name labels) (describe_histogram n t) = false
describes (increment name labels) (describe_gauge n t) = false
describes (record_value name labels v) (describe_counter n t) = false
describes (record_value name labels v) (describe_histogram n t) = text_eq n name
describes (record_value name labels v) (describe_gauge n t) = false
describes (record_duration name labels) (describe_counter n t) = false
describes (record_duration name labels) (describe_histogram n t) = text_eq n name
describes (record_duration name labels) (describe_gauge n t) = false
describes (gauge_up name) (describe_counter n t) = false
describes (gauge_up name) (describe_histogram n t) = false
describes (gauge_up name) (describe_gauge n t) = text_eq n name
describes (gauge_down name) (describe_counter n t) = false
describes (gauge_down name) (describe_histogram n t) = false
describes (gauge_down name) (describe_gauge n t) = text_eq n name

abbrev are_described : List Metric → Bool
are_described calls = all (λ call. any (describes call) register_descriptions) calls

record_active_connections-register_descriptions :
    (opened : Bool) → are_described (record_active_connections opened) ≡ true
unfolding text text_eq register_descriptions record_active_connections
record_active_connections-register_descriptions true = refl
record_active_connections-register_descriptions false = refl

-- Every metric that the gateway can record is described under its name and with its sort.
record_all-register_descriptions :
    (m : RequestMetrics) (status size : ℕ) (opened : Bool)
    → (are_described (record_success m status size) ≡ true)
      × (are_described (record_cache_hit m) ≡ true)
      × (are_described (record_cache_miss m) ≡ true)
      × (are_described (record_rate_limited m) ≡ true)
      × (are_described (record_auth_failure m) ≡ true)
      × (are_described (record_active_connections opened) ≡ true)
      × (are_described (record_request_size size) ≡ true)
unfolding text text_eq register_descriptions record_success record_cache_hit record_cache_miss
    record_rate_limited record_auth_failure record_active_connections record_request_size
record_all-register_descriptions m status size opened = (
  elim (Bool-cases (leb 400 status)) [ inl y ↦ rw y refl | inr n ↦ rw n refl ],
  refl,
  refl,
  refl,
  refl,
  record_active_connections-register_descriptions opened,
  refl,
)
