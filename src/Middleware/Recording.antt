-- ===== src/Middleware/Recording.antt =====
-- src/middleware/metrics.rs: the service that counts each response.
use mini_api_gateway.Common.{length, Text, Flow, next, stop, panic, Run}
use mini_api_gateway.Http.{Request, Response}
use mini_api_gateway.Metrics.{RequestMetrics, record_success}
use mini_api_gateway.Metrics
use mini_api_gateway.Platform.{Platform, World, note}

-- `MetricsLayer` and what it makes of a service.
pub record MetricsLayer : Type 0 where
  pub route_id : Text

unfoldable pub new : Text → MetricsLayer
new route_id = record { route_id = route_id }

module _ (p : Platform) {E : Type 0} where
  open p.http use {HeaderMap}

  -- What is counted of the inner service's result; an error is only logged.
  unfoldable pub counted :
      RequestMetrics → Flow E (Response HeaderMap) × World p → Flow E (Response HeaderMap) × World p
  counted m (next r, w) = (next r, note (record_success m r.status (length r.body)) w)
  counted m (stop e, w) = (stop e, w)
  counted m (panic, w) = (panic, w)

  -- `MetricsService::call`
  unfoldable pub call :
      (inner : Request HeaderMap → Run (World p) E (Response HeaderMap))
      → (route_id : Text) → Request HeaderMap
      → Run (World p) E (Response HeaderMap)
  unfolding counted
  call inner route_id req w = counted (Metrics.new req.method req.path route_id) (inner req w)

  unfoldable pub layer :
      MetricsLayer
      → (Request HeaderMap → Run (World p) E (Response HeaderMap))
      → Request HeaderMap
      → Run (World p) E (Response HeaderMap)
  unfolding call
  layer l inner = call inner l.route_id
