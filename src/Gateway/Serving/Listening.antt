-- ===== src/Gateway/Serving/Listening.antt =====
-- The loop of `Gateway::run` goes on as long as no accept fails.
use mini_api_gateway.Common.{
  ℕ, zero, suc, ◌≡◌, refl, ◌∙◌, Option, none, some, List, [], ◌∷◌, All, Text, ok, err, Flow, next,
  stop, panic,
}
use mini_api_gateway.Error.{GatewayError}
use mini_api_gateway.Http.{Request, Response}
use mini_api_gateway.Platform.{Platform, World}
use mini_api_gateway.Gateway.{Gateway, handle_request}
use mini_api_gateway.Gateway.Serving.{
  Server, Event, accept, request, close, accepted, accepting, handled, serve, finish, step, run,
}

-- Anything but an error of `accept`.
abbrev pub Succeeds : {p : Platform} → Event p → Type 0
Succeeds (accept (ok u)) = Unit {0}
Succeeds (accept (err e)) = ⊥
Succeeds (request id req) = Unit {0}
Succeeds close = Unit {0}

module _ (p : Platform) where
  open p.http use {HeaderMap}

  handled-stopped :
      (others : ℕ) (s : Server p) (x : Flow (Response HeaderMap) (Response HeaderMap) × World p)
      → (handled p others s x).stopped ≡ s.stopped
  unfolding handled
  handled-stopped others s (next r, w) = refl
  handled-stopped others s (stop r, w) = refl
  handled-stopped others s (panic, w) = refl

  serve-stopped :
      (gateway : Gateway p) (id : Text) (req : Request HeaderMap) (n : ℕ) (s : Server p)
      → (serve p gateway id req n s).stopped ≡ s.stopped
  unfolding serve
  serve-stopped gateway id req zero s = refl
  serve-stopped gateway id req (suc others) s =
      handled-stopped others s (handle_request p gateway id req s.world)

  finish-stopped : (n : ℕ) (s : Server p) → (finish p n s).stopped ≡ s.stopped
  unfolding finish
  finish-stopped zero s = refl
  finish-stopped (suc others) s = refl

  accepting-stopped :
      (o : Option GatewayError) (s : Server p) → (accepting p o (ok tt) s).stopped ≡ s.stopped
  unfolding accepting accepted
  accepting-stopped none s = refl
  accepting-stopped (some e) s = refl

  step-stopped :
      (gateway : Gateway p) (e : Event p) (s : Server p)
      → Succeeds e
      → (step p gateway e s).stopped ≡ s.stopped
  unfolding step
  step-stopped gateway (accept (ok u)) s h = accepting-stopped s.stopped s
  step-stopped gateway (accept (err e)) s h = absurd h
  step-stopped gateway (request id req) s h = serve-stopped gateway id req s.tasks s
  step-stopped gateway close s h = finish-stopped s.tasks s

  -- Where every accept succeeds, the loop has not ended.
  pub run-stopped :
      (gateway : Gateway p) (es : List (Event p)) (s : Server p)
      → All Succeeds es
      → (run p gateway es s).stopped ≡ s.stopped
  unfolding run
  run-stopped gateway [] s h = refl
  run-stopped gateway (e ∷ es) s h =
      run-stopped gateway es (step p gateway e s) h.1 ∙ step-stopped gateway e s h.0
