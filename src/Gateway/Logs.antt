-- ===== src/Gateway/Logs.antt =====
-- src/gateway.rs: the line of a completed request, which `handle_request` writes to the log at its end. The
-- lines for a missing route and for an error of the proxy are not among them.
use mini_api_gateway.Common.{
  ◌≡◌, refl, ◌⊎◌, inl, inr, some, List, ◌∷◌, Text, Flow, next, stop, panic, Run,
}
use mini_api_gateway.Http.{Request, Response}
use mini_api_gateway.Middleware.Logging.{Line, Tells, level_of, level_of-Tells, message_of}
use mini_api_gateway.Platform.{Platform, World}
use mini_api_gateway.Gateway.{Gateway, handle_request}
use mini_api_gateway.Gateway.Quiet.{SameNet}
use mini_api_gateway.Gateway.Answers.{handle_request-early}

module _ (p : Platform) where
  open p.http use {HeaderMap}

  -- The line of a request that has come to its end, without the time that it took.
  unfoldable pub completed : (id : Text) → Request HeaderMap → Response HeaderMap → Line
  completed id req r = record {
    level = level_of r.status;
    request_id = id;
    method = req.method;
    uri = req.path;
    status = some r.status;
    message = message_of r.status;
  }

  -- An early `return` passes the line by.
  unfoldable pub log_end :
      (id : Text)
      → Request HeaderMap
      → List Line
      → Flow (Response HeaderMap) (Response HeaderMap) × World p
      → Flow (Response HeaderMap) (Response HeaderMap) × (World p × List Line)
  unfolding completed
  log_end id req lines (next r, w) = (next r, (w, completed id req r ∷ lines))
  log_end id req lines (stop r, w) = (stop r, (w, lines))
  log_end id req lines (panic, w) = (panic, (w, lines))

  -- `handle_request`, with the lines of completed requests, newest first.
  unfoldable pub handle_logged :
      Gateway p
      → (id : Text) → Request HeaderMap
      → Run (World p × List Line) (Response HeaderMap) (Response HeaderMap)
  unfolding log_end
  handle_logged gateway id req (w, lines) = log_end id req lines (handle_request p gateway id req w)

  -- How a request ends, and whether it has a line of a completed request.
  abbrev pub Ending :
      (id : Text)
      → Request HeaderMap
      → World p
      → List Line
      → Flow (Response HeaderMap) (Response HeaderMap) × (World p × List Line)
      → Type 0
  Ending id req w lines (f, (w', lines')) =
      ((r : Response HeaderMap) × (line : Line) × (f ≡ next r)
        × (lines' ≡ line ∷ lines)
        × Tells id req.method req.path r.status line)
      ⊎ (((r : Response HeaderMap) × (f ≡ stop r) × (lines' ≡ lines) × SameNet p w w')
          ⊎ ((f ≡ panic) × (lines' ≡ lines)))

  -- A request ends in one of three ways. It comes to the end, which adds one line
  -- with its ID, its original method and path and the status of the answer, a warning of an error
  -- status exactly for 400 to 599; or it is answered
  -- early, which adds no such line and has sent nothing to any upstream server; or it panics and
  -- adds no such line.
  pub handle_logged-Ending :
      (gateway : Gateway p) (id : Text) (req : Request HeaderMap) (w : World p) (lines : List Line)
      → Ending id req w lines (handle_logged gateway id req (w, lines))
  unfolding handle_logged log_end completed
  handle_logged-Ending gateway id req w lines =
      go (handle_request p gateway id req w)
        (λ r w' e. handle_request-early p gateway id req w w' {r = r} e)
    where
      go :
          (x : Flow (Response HeaderMap) (Response HeaderMap) × World p)
          → ((r : Response HeaderMap) (w' : World p) → x ≡ (stop r, w') → SameNet p w w')
          → Ending id req w lines (log_end id req lines x)
      go (next r, w') early =
          inl (r, completed id req r, refl, refl, level_of-Tells id req.method req.path r.status)
      go (stop r, w') early = inr (inl (r, refl, refl, early r w' refl))
      go (panic, w') early = inr (inr (refl, refl))
