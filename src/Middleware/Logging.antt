-- ===== src/Middleware/Logging.antt =====
-- src/middleware/logging.rs: the service that puts an ID on each request and logs its result.
use mini_api_gateway.Common.{
  false, ℕ, ◌||◌, ◌≤◌, ◌<◌, arith, List, ◌∷◌, Result, ok, err, Flow, next, stop, ◌≡◌, refl, Bool,
  true, ◌⊎◌, inl, inr, Bool-cases, Option, none, some, if◌then◌else◌, Text, text, Run, ◌>>=◌, pure,
  unwrap, panic,
}
use mini_api_gateway.Http.{Http, Request, Response, is_visible, is_server_error, is_client_error}
use mini_api_gateway.Platform.{Platform}
use mini_api_gateway.Gateway.{add_request_id}

pub data Level : Type 0 where
  info warn : Level

-- A line of the log: a request that failed without a response has no status.
pub record Line : Type 0 where
  pub level : Level
  pub request_id : Text
  pub method : Text
  pub uri : Text
  pub status : Option ℕ
  pub message : Text

-- The level of a response's line.
abbrev pub level_of : ℕ → Level
level_of status = if is_server_error status || is_client_error status then warn else info

abbrev pub message_of : ℕ → Text
message_of status =
    if is_server_error status || is_client_error status
    then text "Request completed with error status"
    else text "Request completed"

-- What the line of a response with the status `s` says, told from the ID, the method, the URI and the
-- status alone.
pub record Tells (id m u : Text) (s : ℕ) (line : Line) : Type 0 where
  pub request_id : line.request_id ≡ id
  pub method : line.method ≡ m
  pub uri : line.uri ≡ u
  pub status : line.status ≡ some s
  pub severity :
      ((400 ≤ s)
        × (s < 600)
        × (line.level ≡ warn)
        × (line.message ≡ text "Request completed with error status"))
      ⊎ (((s < 400) ⊎ (600 ≤ s)) × (line.level ≡ info) × (line.message ≡ text "Request completed"))

-- What the line of a request says that failed without a response.
pub record TellsFailure (id m u : Text) (line : Line) : Type 0 where
  pub request_id : line.request_id ≡ id
  pub method : line.method ≡ m
  pub uri : line.uri ≡ u
  pub status : line.status ≡ none
  pub level : line.level ≡ warn
  pub message : line.message ≡ text "Request failed"

-- A response is logged by a warning exactly where its status is an error of the client or the server.
pub level_of-Tells :
    (id m u : Text) (s : ℕ)
    → Tells id m u s (record {
      level = level_of s;
      request_id = id;
      method = m;
      uri = u;
      status = some s;
      message = message_of s;
    })
level_of-Tells id m u s = elim (Bool-cases (is_server_error s || is_client_error s)) [
  | inl e ↦ record {
    request_id = refl;
    method = refl;
    uri = refl;
    status = refl;
    severity = rw e (inl (ground arith, ground arith, refl, refl));
  }
  | inr n ↦ record {
    request_id = refl;
    method = refl;
    uri = refl;
    status = refl;
    severity = rw n (inr (ground arith, refl, refl));
  }
]

module _ (http : Http) where
  open http use {HeaderMap, insert, from_str, valid_name}

  -- `HeaderName::from_bytes`
  abbrev pub header_name : Text → Option Text
  header_name name = if valid_name name then some name else none

  -- The insertion of the new ID, which panics where the name or the value is invalid.
  unfoldable pub tag :
      {W E : Type 0} → Option Text → (id : Text) → Request HeaderMap → Run W E (Request HeaderMap)
  tag none id req = pure req
  tag (some name) id req = do
    key ← unwrap (header_name name)
    value ← unwrap (from_str id)
    pure (record req { headers = insert (req.headers) key value })

  -- The line of a request whose result is there. How long it took is left out.
  unfoldable pub line_of :
      {E : Type 0} → (id : Text) → Request HeaderMap → Result E (Response HeaderMap) → Line
  line_of id req (ok r) = record {
    level = level_of r.status;
    request_id = id;
    method = req.method;
    uri = req.uri;
    status = some r.status;
    message = message_of r.status;
  }
  line_of id req (err e) = record {
    level = warn;
    request_id = id;
    method = req.method;
    uri = req.uri;
    status = none;
    message = text "Request failed";
  }

  -- The result is logged and passed on; a panic leaves no line.
  unfoldable pub logged :
      {W E : Type 0}
      → (id : Text) → Request HeaderMap
      → List Line
      → Flow E (Response HeaderMap) × W
      → Flow E (Response HeaderMap) × (W × List Line)
  unfolding line_of
  logged {W} {E} id req lines (next r, w) = (next r, (w, line_of {E = E} id req (ok r) ∷ lines))
  logged {W} {E} id req lines (stop e, w) = (stop e, (w, line_of {E = E} id req (err e) ∷ lines))
  logged id req lines (panic, w) = (panic, (w, lines))

  module _ {W E : Type 0} (inner : Request HeaderMap → Run W E (Response HeaderMap)) where
    -- `LoggingService::call`, beside the lines of the log, newest first: the inner service's result
    -- is passed on.
    unfoldable pub call :
        Option Text → (id : Text) → Request HeaderMap → Run (W × List Line) E (Response HeaderMap)
    unfolding tag logged
    call request_id_header id req (w, lines) =
        logged id req lines ((tag request_id_header id req >>= inner) w)

-- `LoggingLayer` and what it makes of a service.
pub record LoggingLayer : Type 0 where
  pub request_id_header : Option Text

unfoldable pub new : Option Text → LoggingLayer
new request_id_header = record { request_id_header = request_id_header }

unfoldable pub layer :
    (http : Http) {W E : Type 0}
    → LoggingLayer
    → (Request http.HeaderMap → Run W E (Response http.HeaderMap))
    → (id : Text) → Request http.HeaderMap
    → Run (W × List Line) E (Response http.HeaderMap)
unfolding call
layer http l inner = call http inner l.request_id_header

module _ (p : Platform) where
  open p.http use {HeaderMap, valid_name, insert}

  abbrev pub names_header : Option Text → Bool
  names_header none = true
  names_header (some name) = valid_name name

  -- What the logging service makes of the inner service's outcome, and of the log.
  abbrev pub Reports :
      {W E : Type 0}
      → (id : Text) → Request HeaderMap
      → List Line
      → Flow E (Response HeaderMap) × W
      → Flow E (Response HeaderMap) × (W × List Line)
      → Type 0
  Reports id req lines (next r, w) res =
      (line : Line) × (res ≡ (next r, (w, line ∷ lines)))
      × Tells id req.method req.uri r.status line
  Reports id req lines (stop e, w) res =
      (line : Line) × (res ≡ (stop e, (w, line ∷ lines))) × TellsFailure id req.method req.uri line
  Reports id req lines (panic, w) res = res ≡ (panic, (w, lines))

  logged-Reports :
      {W E : Type 0} (id : Text) (req : Request HeaderMap) (lines : List Line)
      (x : Flow E (Response HeaderMap) × W)
      → Reports id req lines x (logged p.http id req lines x)
  unfolding logged line_of
  logged-Reports {W} {E} id req lines (next r, w) =
      (line_of p.http {E = E} id req (ok r), refl, level_of-Tells id req.method req.uri r.status)
  logged-Reports {W} {E} id req lines (stop e, w) = (
    line_of p.http {E = E} id req (err e),
    refl,
    record {
      request_id = refl;
      method = refl;
      uri = refl;
      status = refl;
      level = refl;
      message = refl;
    },
  )
  logged-Reports id req lines (panic, w) = refl

  -- For a new ID of visible characters, the logging service hands on the request that
  -- `Gateway::handle_request` makes of it where no name or a valid one is configured. It passes the
  -- inner service's outcome and world on and logs one line with the ID and the original method and
  -- URI: with the status of a response, as a warning of an error status exactly for 400 to 599, or
  -- as a warning that the request failed where there is no response. A panic is passed on without
  -- a line. Where the name is invalid, every request makes it panic and nothing is logged, while
  -- the gateway leaves the request as it is.
  pub call-add_request_id :
      {W E : Type 0} (inner : Request HeaderMap → Run W E (Response HeaderMap)) (name : Option Text)
      (id : Text) (req : Request HeaderMap) (w : W) (lines : List Line)
      → is_visible id ≡ true
      → ((names_header name ≡ true)
          × Reports id req lines
              (inner (add_request_id p name id req) w)
              (call p.http inner name id req (w, lines)))
        ⊎ ((names_header name ≡ false)
            × (add_request_id p name id req ≡ req)
            × (call p.http inner name id req (w, lines) ≡ (panic, (w, lines))))
  unfolding call tag logged add_request_id
  call-add_request_id inner none id req w lines v =
      inl (refl, logged-Reports id req lines (inner req w))
  call-add_request_id inner (some name) id req w lines v = elim (Bool-cases (valid_name name)) [
    | inl y ↦ rw (y, p.http.from_str_visible id v) (inl (refl, logged-Reports id req lines _))
    | inr n ↦ rw n (inr (refl, refl, refl))
  ]
