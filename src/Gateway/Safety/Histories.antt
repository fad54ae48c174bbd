-- ===== src/Gateway/Safety/Histories.antt =====
-- After every history each request was answered, and the gauge shows the open connections.
use mini_api_gateway.Common.{
  ℕ, zero, suc, ◌+◌, ◌≡◌, refl, ◌∙◌, Option, none, some, List, [], ◌∷◌, ◌⊎◌, inl, inr, Text, Result,
  ok, err, Flow, next, stop, panic, arith,
}
use mini_api_gateway.Error.{GatewayError}
use mini_api_gateway.Http.{Request, Response}
use mini_api_gateway.Platform.{Platform, World}
use mini_api_gateway.Gateway.{Gateway, handle_request}
use mini_api_gateway.Gateway.Serving.{
  Server, Event, accept, request, close, accepted, accepting, handled, serve, finish, step, run,
}
use mini_api_gateway.Gateway.Serving.Gauge.{gauge}
use mini_api_gateway.Gateway.Serving.Hits.{step-kept, run-kept}
use mini_api_gateway.Gateway.Serving.Histories.{IsCounted, run-IsCounted}
use mini_api_gateway.Gateway.Safety.{IsSafe}
use mini_api_gateway.Gateway.Safety.Requests.{
  FoundIsSendable, GatewayIsServable, HoldsSound, HoldsSound-Keeps, IsSafe-kept,
  handle_request-Safe,
}

module _ (p : Platform) where
  open p.http use {HeaderMap}

  -- The handler went on to an answer, or returned one early.
  abbrev pub Answered : Flow (Response HeaderMap) (Response HeaderMap) → Type 0
  Answered f = (r : Response HeaderMap) × ((f ≡ next r) ⊎ (f ≡ stop r))

module _ (p : Platform) (IsSound : p.cache.Store → Type 0)
    (sound_get : (s : p.cache.Store) (key : Text)
      → IsSound s
      → FoundIsSendable p (p.cache.get s key).0 × IsSound (p.cache.get s key).1)
    (gateway : Gateway p) (servable : GatewayIsServable p gateway) where
  open p.http use {HeaderMap}

  safe_answer :
      (x : Flow (Response HeaderMap) (Response HeaderMap) × World p)
      → IsSafe p (HoldsSound p IsSound sound_get) x
      → Answered p x.0
  safe_answer (next r, w) h = (r, inl refl)
  safe_answer (stop r, w) h = (r, inr refl)
  safe_answer (panic, w) h = absurd h

  -- Each request is answered, and no code panics on the way, if the gateway is servable, which says that the
  -- lists of the CORS layer can stand in headers and that no pause between the tries of a route
  -- overflows, and if the cache is sound, where a look-up finds only what can be sent and leaves the cache sound. The cache is
  -- sound afterwards.
  pub handle_request-Answered :
      (id : Text) (req : Request HeaderMap) (w : World p)
      → IsSound w.cache
      → Answered p (handle_request p gateway id req w).0
        × IsSound (handle_request p gateway id req w).1.cache
  handle_request-Answered id req w h =
      let safe = handle_request-Safe p IsSound sound_get gateway servable id req w h in
      (safe_answer _ safe, IsSafe-kept p IsSound sound_get _ safe)

  accepting-crashed :
      (o : Option GatewayError) (r : Result Text (Unit {0})) (s : Server p)
      → (accepting p o r s).crashed ≡ s.crashed
  unfolding accepting accepted
  accepting-crashed none (ok u) s = refl
  accepting-crashed none (err e) s = refl
  accepting-crashed (some e) r s = refl

  handled-crashed :
      (others : ℕ) (s : Server p) (x : Flow (Response HeaderMap) (Response HeaderMap) × World p)
      → IsSafe p (HoldsSound p IsSound sound_get) x
      → (handled p others s x).crashed ≡ s.crashed
  unfolding handled
  handled-crashed others s (next r, w) h = refl
  handled-crashed others s (stop r, w) h = refl
  handled-crashed others s (panic, w) h = absurd h

  serve-crashed :
      (id : Text) (req : Request HeaderMap) (n : ℕ) (s : Server p)
      → IsSound s.world.cache
      → (serve p gateway id req n s).crashed ≡ s.crashed
  unfolding serve
  serve-crashed id req zero s h = refl
  serve-crashed id req (suc others) s h =
      handled-crashed others s _
        (handle_request-Safe p IsSound sound_get gateway servable id req s.world h)

  finish-crashed : (n : ℕ) (s : Server p) → (finish p n s).crashed ≡ s.crashed
  unfolding finish
  finish-crashed zero s = refl
  finish-crashed (suc others) s = refl

  step-crashed :
      (e : Event p) (s : Server p)
      → IsSound s.world.cache
      → (step p gateway e s).crashed ≡ s.crashed
  unfolding step
  step-crashed (accept r) s h = accepting-crashed s.stopped r s
  step-crashed (request id req) s h = serve-crashed id req s.tasks s h
  step-crashed close s h = finish-crashed s.tasks s

  -- The cache stays sound.
  pub run-IsSound :
      (es : List (Event p)) (s : Server p)
      → IsSound s.world.cache
      → IsSound (run p gateway es s).world.cache
  run-IsSound =
      run-kept p (HoldsSound p IsSound sound_get) (HoldsSound-Keeps p IsSound sound_get)
        (λ b w k. k) gateway

  run-crashed :
      (es : List (Event p)) (s : Server p)
      → IsSound s.world.cache
      → (run p gateway es s).crashed ≡ s.crashed
  unfolding run
  run-crashed [] s h = refl
  run-crashed (e ∷ es) s h =
      run-crashed es (step p gateway e s) (
        step-kept p (HoldsSound p IsSound sound_get) (HoldsSound-Keeps p IsSound sound_get)
          (λ b w k. k) gateway e s h)
      ∙ step-crashed e s h

  -- After every history of a servable gateway over a sound cache, from a server where no task has
  -- panicked and the gauge is right, no task has panicked, and the gauge of the active connections
  -- has gone up once more than down for each task that has not ended.
  pub run-gauge :
      (es : List (Event p)) (s : Server p)
      → IsSound s.world.cache
      → s.crashed ≡ 0
      → IsCounted p s
      → ((run p gateway es s).crashed ≡ 0)
        × ((gauge (run p gateway es s).world.metrics).0
            ≡ (gauge (run p gateway es s).world.metrics).1 + (run p gateway es s).tasks)
  run-gauge es s sound none_yet counted =
      let calm = run-crashed es s sound in
      let shown = run-IsCounted p gateway es s counted in (calm ∙ none_yet, omega arith)
