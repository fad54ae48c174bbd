-- ===== src/Gateway/Serving/Histories.antt =====
-- What holds of the gateway after every history of its connections.
use mini_api_gateway.Common.{
  ℕ, zero, suc, ◌+◌, ◌≡◌, refl, Option, none, some, List, [], ◌∷◌, Text, Result, ok, err, Flow,
  next, stop, panic, arith,
}
use mini_api_gateway.Error.{GatewayError}
use mini_api_gateway.Http.{Request, Response}
use mini_api_gateway.Metrics.{record_active_connections}
use mini_api_gateway.Platform.{Platform, World}
use mini_api_gateway.Gateway.{Gateway}
use mini_api_gateway.Gateway.Serving.{
  Server, Event, accept, request, close, accepted, accepting, handled, serve, finish, step, run,
}
use mini_api_gateway.Gateway.Serving.Gauge.{gauge, handle_request-gauge}

module _ (p : Platform) where
  open p.http use {HeaderMap}

  -- The gauge shows the tasks that have not ended and those that panicked.
  abbrev pub IsCounted : Server p → Type 0
  IsCounted s = (gauge s.world.metrics).0 ≡ (gauge s.world.metrics).1 + (s.tasks + s.crashed)

  accepting-IsCounted :
      (o : Option GatewayError) (r : Result Text (Unit {0})) (s : Server p)
      → IsCounted s
      → IsCounted (accepting p o r s)
  unfolding accepting accepted record_active_connections gauge
  accepting-IsCounted none (ok u) s h = omega arith
  accepting-IsCounted none (err e) s h = h
  accepting-IsCounted (some e) r s h = h

  handled-IsCounted :
      (others : ℕ) (s : Server p) (x : Flow (Response HeaderMap) (Response HeaderMap) × World p)
      → s.tasks ≡ suc others
      → gauge x.1.metrics ≡ gauge s.world.metrics
      → IsCounted s
      → IsCounted (handled p others s x)
  unfolding handled
  handled-IsCounted others s (next r, w) e g h = rw g h
  handled-IsCounted others s (stop r, w) e g h = rw g h
  handled-IsCounted others s (panic, w) e g h = rw g (omega arith)

  serve-IsCounted :
      (gateway : Gateway p) (id : Text) (req : Request HeaderMap) (n : ℕ) (s : Server p)
      → s.tasks ≡ n
      → IsCounted s
      → IsCounted (serve p gateway id req n s)
  unfolding serve
  serve-IsCounted gateway id req zero s e h = h
  serve-IsCounted gateway id req (suc others) s e h =
      handled-IsCounted others s _ e (handle_request-gauge p gateway id req s.world) h

  finish-IsCounted : (n : ℕ) (s : Server p) → s.tasks ≡ n → IsCounted s → IsCounted (finish p n s)
  unfolding finish record_active_connections gauge
  finish-IsCounted zero s e h = h
  finish-IsCounted (suc others) s e h = omega arith

  step-IsCounted :
      (gateway : Gateway p) (e : Event p) (s : Server p)
      → IsCounted s
      → IsCounted (step p gateway e s)
  unfolding step
  step-IsCounted gateway (accept r) s h = accepting-IsCounted s.stopped r s h
  step-IsCounted gateway (request id req) s h = serve-IsCounted gateway id req s.tasks s refl h
  step-IsCounted gateway close s h = finish-IsCounted s.tasks s refl h

  -- After every history the gauge of the active connections shows the tasks that have not ended and,
  -- beside them, each task that ended in a panic.
  pub run-IsCounted :
      (gateway : Gateway p) (es : List (Event p)) (s : Server p)
      → IsCounted s
      → IsCounted (run p gateway es s)
  unfolding run
  run-IsCounted gateway [] s h = h
  run-IsCounted gateway (e ∷ es) s h =
      run-IsCounted gateway es (step p gateway e s) (step-IsCounted gateway e s h)
