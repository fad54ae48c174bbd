-- ===== src/Gateway/Observed.antt =====
-- src/gateway.rs and src/metrics.rs: the gateway and the metrics server beside it, which shows what the
-- requests and the connections of the gateway recorded.
use mini_api_gateway.Common.{
  ℕ, ◌+◌, ◌≡◌, refl, ap, ◌∙◌, none, some, List, [], ◌∷◌, length, Text, Option, Result, ok, err,
}
use mini_api_gateway.Http.{Response}
use mini_api_gateway.Metrics.{Metric}
use mini_api_gateway.Metrics.Server.{Exporter, accepts, asks, answering, accepted, accepting}
use mini_api_gateway.Metrics.Server
use mini_api_gateway.Metrics.Server.Connections.{Page, asks-accepts}
use mini_api_gateway.Platform.{Platform}
use mini_api_gateway.Gateway.{Gateway}
use mini_api_gateway.Gateway.Serving.{Server}
use mini_api_gateway.Gateway.Serving
use mini_api_gateway.Gateway.Serving.Gauge.{gauge}
use mini_api_gateway.Gateway.Serving.Histories.{IsCounted}
use mini_api_gateway.Gateway.Safety.Requests.{FoundIsSendable, GatewayIsServable}
use mini_api_gateway.Gateway.Safety.Histories.{run-gauge}

-- The gateway's server, and the metrics server.
pub record Observed (p : Platform) : Type 0 where
  pub server : Server p
  pub exporter : Exporter p.http

-- Something happens to the gateway; a connection to the metrics server is accepted; or one of them, by
-- its number, asks for a path.
pub data Happening (p : Platform) : Type 0 where
  serves : Serving.Event p → Happening p
  connects : Result Text (Unit {0}) → Happening p
  scrapes : (connection : ℕ) → (path : Text) → Happening p

module _ (p : Platform) (render : List Metric → Text) (gateway : Gateway p) where
  open p.http use {HeaderMap}

  -- What the gateway records is in the recorder of the process, which the metrics server renders.
  unfoldable pub step : Happening p → Observed p → Observed p
  step (serves e) s =
      let server = Serving.step p gateway e s.server in
      record { server = server; exporter = record s.exporter { recorded = server.world.metrics } }
  step (connects r) s = record s { exporter = Server.step p.http render (accepts r) s.exporter }
  step (scrapes connection path) s = record s {
    exporter = Server.step p.http render (asks connection path) s.exporter;
  }

  unfoldable pub run : List (Happening p) → Observed p → Observed p
  unfolding step
  run [] s = s
  run (h ∷ hs) s = run hs (step h s)

  -- What happens to the gateway itself.
  abbrev pub served : List (Happening p) → List (Serving.Event p)
  served [] = []
  served (serves e ∷ hs) = e ∷ served hs
  served (connects r ∷ hs) = served hs
  served (scrapes connection path ∷ hs) = served hs

  -- The recorder has what the gateway recorded.
  abbrev pub IsRecorded : Observed p → Type 0
  IsRecorded s = s.exporter.recorded ≡ s.server.world.metrics

  run-server :
      (hs : List (Happening p)) (s : Observed p)
      → (run hs s).server ≡ Serving.run p gateway (served hs) s.server
  unfolding run Serving.run
  run-server [] s = refl
  run-server (serves e ∷ hs) s = run-server hs (step (serves e) s)
  run-server (connects r ∷ hs) s = run-server hs (step (connects r) s)
  run-server (scrapes connection path ∷ hs) s = run-server hs (step (scrapes connection path) s)

  accepting-recorded :
      (o : Option Text) (r : Result Text (Unit {0})) (x : Exporter p.http)
      → (accepting p.http render o r x).recorded ≡ x.recorded
  unfolding accepting accepted
  accepting-recorded none (ok u) x = refl
  accepting-recorded none (err e) x = refl
  accepting-recorded (some e) r x = refl

  accepting-answers :
      (o : Option Text) (r : Result Text (Unit {0})) (x : Exporter p.http)
      → (accepting p.http render o r x).answers ≡ x.answers
  unfolding accepting accepted
  accepting-answers none (ok u) x = refl
  accepting-answers none (err e) x = refl
  accepting-answers (some e) r x = refl

  answering-recorded :
      (o : Option Text) (path : Text) (x : Exporter p.http)
      → (answering p.http render o path x).recorded ≡ x.recorded
  unfolding answering
  answering-recorded none path x = refl
  answering-recorded (some t) path x = refl

  run-IsRecorded : (hs : List (Happening p)) (s : Observed p) → IsRecorded s → IsRecorded (run hs s)
  unfolding run Server.step
  run-IsRecorded [] s h = h
  run-IsRecorded (serves e ∷ hs) s h = run-IsRecorded hs (step (serves e) s) refl
  run-IsRecorded (connects r ∷ hs) s h =
      run-IsRecorded hs (step (connects r) s)
        (accepting-recorded s.exporter.stopped r s.exporter ∙ h)
  run-IsRecorded (scrapes connection path ∷ hs) s h =
      run-IsRecorded hs (step (scrapes connection path) s)
        (answering-recorded _ path s.exporter ∙ h)

  -- The answer to a request on a new connection to the metrics server shows a list of calls.
  pub record Shows (path : Text) (s : Observed p) (ms : List Metric) (r : Response HeaderMap)
      : Type 0 where
    pub answered :
        (run (connects (ok tt) ∷ scrapes (length s.exporter.shown) path ∷ []) s).exporter.answers
        ≡ some r ∷ s.exporter.answers
    pub page : Page p.http s.exporter.endpoint path (render ms) r

  connects-Shows :
      (path : Text) (s : Observed p)
      → s.exporter.stopped ≡ none
      → (r : Response HeaderMap) × Shows path s s.exporter.recorded r
  unfolding run Server.run Server.step
  connects-Shows path s listening =
      let (r, answered, page) = asks-accepts p.http render s.exporter [] path listening in
      let same = accepting-answers s.exporter.stopped (ok tt) s.exporter in
      (r, record { answered = answered ∙ ap (λ given. some r ∷ given) same; page = page })

  module _ (IsSound : p.cache.Store → Type 0)
      (sound_get : (s : p.cache.Store) (key : Text)
        → IsSound s
        → FoundIsSendable p (p.cache.get s key).0 × IsSound (p.cache.get s key).1)
      (servable : GatewayIsServable p gateway) where
    -- After every history of a servable gateway over a sound cache with its metrics server, from a
    -- state where no task has panicked, the gauge is right and the recorder has what was recorded, and
    -- as long as the metrics server listens: a request on a new connection to it is answered, at
    -- the endpoint with the text of a list of calls in which the gauge of the active connections
    -- has gone up once more than down for each connection that is open now.
    pub run-Shows :
        (hs : List (Happening p)) (s : Observed p) (path : Text)
        → IsSound s.server.world.cache
        → s.server.crashed ≡ 0
        → IsCounted p s.server
        → IsRecorded s
        → (run hs s).exporter.stopped ≡ none
        → (r : Response HeaderMap) × (ms : List Metric) × Shows path (run hs s) ms r
          × ((gauge ms).0 ≡ (gauge ms).1 + (run hs s).server.tasks)
    run-Shows hs s path sound calm counted recorded listening =
        let (r, shows) = connects-Shows path (run hs s) listening in
        let (still, shown) =
          run-gauge p IsSound sound_get gateway servable (served hs) s.server sound calm counted in
        let same = run-IsRecorded hs s recorded in
        (r, (run hs s).exporter.recorded, shows, rw (same, run-server hs s) shown)
