-- ===== src/Metrics/Server.antt =====
-- src/metrics.rs: `MetricsExporter::serve`, as the events of its connections among the calls that the
-- gateway makes of the metrics library.
pub mod Connections
use mathlib.Core.List.{reverse}
use mini_api_gateway.Common.{
  ℕ, Option, none, some, List, [], ◌∷◌, ◌++◌, get_elem?, Text, Result, ok, err,
}
use mini_api_gateway.Http.{Http, Response}
use mini_api_gateway.Metrics.{Metric, serve_request}

-- The calls of the metrics library so far, newest first, the text that each accepted connection was
-- given, in the order of the accepts, what was answered, newest first, and the error that
-- ended the loop, if one has.
pub record Exporter (http : Http) : Type 0 where
  pub endpoint : Text
  pub recorded : List Metric
  pub shown : List Text
  pub answers : List (Option (Response http.HeaderMap))
  pub stopped : Option Text

-- The gateway records something; `listener.accept()` yields a connection or an error; or the task of a
-- connection, by its number, handles a request for a path.
pub data Event : Type 0 where
  records : List Metric → Event
  accepts : Result Text (Unit {0}) → Event
  asks : (connection : ℕ) → (path : Text) → Event

-- `render` is `PrometheusHandle::render`, of the calls so far.
module _ (http : Http) (render : List Metric → Text) where
  -- One round of the loop: the text is rendered once, for all requests of the connection.
  unfoldable pub accepted : Result Text (Unit {0}) → Exporter http → Exporter http
  accepted (ok u) s = record s { shown = s.shown ++ render s.recorded ∷ [] }
  accepted (err e) s = record s { stopped = some e }

  unfoldable pub accepting : Option Text → Result Text (Unit {0}) → Exporter http → Exporter http
  unfolding accepted
  accepting none r s = accepted r s
  accepting (some e) r s = s

  -- The service function of a connection. There is no connection of a number that was not accepted.
  unfoldable pub answering : Option Text → (path : Text) → Exporter http → Exporter http
  answering none path s = s
  answering (some rendered) path s = record s {
    answers = serve_request http s.endpoint rendered path ∷ s.answers;
  }

  unfoldable pub step : Event → Exporter http → Exporter http
  unfolding accepting answering
  step (records calls) s = record s { recorded = reverse calls ++ s.recorded }
  step (accepts r) s = accepting s.stopped r s
  step (asks connection path) s = answering (get_elem? s.shown connection) path s

  unfoldable pub run : List Event → Exporter http → Exporter http
  unfolding step
  run [] s = s
  run (e ∷ es) s = run es (step e s)

  -- `serve`, from the binding of its listener.
  unfoldable pub serve :
      (bind : Result Text (Unit {0})) → (endpoint : Text) → List Metric → List Event → Exporter http
  unfolding run
  serve bind endpoint recorded es = run es (record {
    endpoint = endpoint;
    recorded = recorded;
    shown = [];
    answers = [];
    stopped = elim bind [ ok u ↦ none | err e ↦ some e ];
  })
