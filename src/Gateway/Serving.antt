-- ===== src/Gateway/Serving.antt =====
-- src/gateway.rs: `Gateway::run` and `serve_connection`, as the events of the connections' tasks in the
-- order in which they happen.
pub mod Kept
pub mod Requests
pub mod Gauge
pub mod Hits
pub mod Histories
pub mod Listening
use mini_api_gateway.Common.{
  ℕ, zero, suc, Option, none, some, List, [], ◌∷◌, Text, Result, ok, err, Flow, next, stop, panic,
  true, false,
}
use mini_api_gateway.Error.{GatewayError, io}
use mini_api_gateway.Http.{Request, Response}
use mini_api_gateway.Metrics.{record_active_connections}
use mini_api_gateway.Platform.{Platform, World, note}
use mini_api_gateway.Gateway.{Gateway, handle_request}

-- The gateway while it runs: the state that its requests change, the tasks of connections that have
-- not ended, the tasks that ended in a panic, and the error that ended the loop, if one has.
pub record Server (p : Platform) : Type 0 where
  pub world : World p
  pub tasks : ℕ
  pub crashed : ℕ
  pub stopped : Option GatewayError

-- What happens next: `listener.accept()` yields a connection or an error; a task handles a request
-- that has the given new ID; or a task's connection ends, by a failed TLS handshake or otherwise.
pub data Event (p : Platform) : Type 0 where
  accept : Result Text (Unit {0}) → Event p
  request : (id : Text) → Request p.http.HeaderMap → Event p
  close : Event p

unfoldable pub start : {p : Platform} → World p → Server p
start w = record { world = w; tasks = 0; crashed = 0; stopped = none }

module _ (p : Platform) where
  open p.http use {HeaderMap}

  -- One round of the loop of `run`: the gauge goes up, and a task is spawned.
  unfoldable pub accepted : Result Text (Unit {0}) → Server p → Server p
  accepted (ok u) s = record s {
    world = note (record_active_connections true) s.world;
    tasks = suc s.tasks;
  }
  accepted (err e) s = record s { stopped = some (io e) }

  -- The loop has ended where there was an error.
  unfoldable pub accepting : Option GatewayError → Result Text (Unit {0}) → Server p → Server p
  unfolding accepted
  accepting none r s = accepted r s
  accepting (some e) r s = s

  -- A panic unwinds the task of the connection, so that the gauge does not go down.
  unfoldable pub handled :
      ℕ → Server p → Flow (Response HeaderMap) (Response HeaderMap) × World p → Server p
  handled others s (next r, w) = record s { world = w }
  handled others s (stop r, w) = record s { world = w }
  handled others s (panic, w) = record s { world = w; tasks = others; crashed = suc s.crashed }

  -- The service function of `serve_connection`, where a task is open.
  unfoldable pub serve : Gateway p → Text → Request HeaderMap → ℕ → Server p → Server p
  unfolding handled
  serve gateway id req zero s = s
  serve gateway id req (suc others) s = handled others s (handle_request p gateway id req s.world)

  -- The end of a task.
  unfoldable pub finish : ℕ → Server p → Server p
  finish zero s = s
  finish (suc others) s = record s {
    world = note (record_active_connections false) s.world;
    tasks = others;
  }

  unfoldable pub step : Gateway p → Event p → Server p → Server p
  unfolding accepting serve finish
  step gateway (accept r) s = accepting s.stopped r s
  step gateway (request id req) s = serve gateway id req s.tasks s
  step gateway close s = finish s.tasks s

  unfoldable pub run : Gateway p → List (Event p) → Server p → Server p
  run gateway [] s = s
  run gateway (e ∷ es) s = run gateway es (step gateway e s)
