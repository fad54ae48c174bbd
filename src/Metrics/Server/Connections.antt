-- ===== src/Metrics/Server/Connections.antt =====
-- A connection to the metrics server answers with the text of its accept, as long as it is kept.
use mini_api_gateway.Common.{
  ℕ, zero, suc, ◌≡◌, refl, ap, ◌∙◌, inl, inr, Bool-cases, Option, none, some, List, [], ◌∷◌, ◌++◌,
  get_elem?, length, if◌then◌else◌, Text, text, text_eq, Result, ok, err,
}
use mini_api_gateway.Http.{Http, Response, is_visible, is_plain_name}
use mini_api_gateway.Http.Fields.{one_header}
use mini_api_gateway.Metrics.{Metric, serve_request}
use mini_api_gateway.Metrics.Server.{
  Exporter, Event, records, accepts, asks, accepted, accepting, answering, step, run,
}

get_elem?-++ :
    (xs ys : List Text) (k : ℕ) {t : Text}
    → get_elem? xs k ≡ some t
    → get_elem? (xs ++ ys) k ≡ some t
get_elem?-++ [] ys k e = cc
get_elem?-++ (x ∷ xs) ys zero e = e
get_elem?-++ (x ∷ xs) ys (suc k) e = get_elem?-++ xs ys k e

get_elem?-last : (xs : List Text) (t : Text) → get_elem? (xs ++ t ∷ []) (length xs) ≡ some t
get_elem?-last [] t = refl
get_elem?-last (x ∷ xs) t = get_elem?-last xs t

module _ (http : Http) where
  open http use {HeaderMap}

  -- What is answered to a request for a path, where a text is shown at the endpoint.
  pub record Page (endpoint path shown : Text) (r : Response HeaderMap) : Type 0 where
    pub status : r.status ≡ (if text_eq path endpoint then 200 else 404)
    pub body : r.body ≡ (if text_eq path endpoint then shown else text "Not Found")

  serve_request-Page :
      (endpoint shown path : Text)
      → (r : Response HeaderMap) × (serve_request http endpoint shown path ≡ some r)
        × Page endpoint path shown r
  unfolding serve_request is_plain_name is_visible text
  serve_request-Page endpoint shown path = elim (Bool-cases (text_eq path endpoint)) [
    | inl y ↦
        let (r, built, status, body, headers) =
          one_header http 200 (text "Content-Type") (text "text/plain; charset=utf-8") shown refl
            refl refl in
        (r, rw y built, record { status = rw y status; body = rw y body })
    | inr n ↦ (
      record { status = 404; headers = http.empty; body = text "Not Found" },
      rw n (http.body-status 404 (text "Not Found")),
      record { status = rw n refl; body = rw n refl },
    )
  ]

module _ (http : Http) (render : List Metric → Text) where
  open http use {HeaderMap}

  -- The connection of this number was given this text, and the endpoint is this one.
  abbrev Gives : ℕ → Text → Text → Exporter http → Type 0
  Gives k t endpoint s = (get_elem? s.shown k ≡ some t) × (s.endpoint ≡ endpoint)

  accepting-Gives :
      (k : ℕ) (t endpoint : Text) (o : Option Text) (r : Result Text (Unit {0})) (s : Exporter http)
      → Gives k t endpoint s
      → Gives k t endpoint (accepting http render o r s)
  unfolding accepting accepted
  accepting-Gives k t endpoint none (ok u) s h =
      (get_elem?-++ s.shown (render s.recorded ∷ []) k h.0, h.1)
  accepting-Gives k t endpoint none (err e) s h = h
  accepting-Gives k t endpoint (some e) r s h = h

  answering-Gives :
      (k : ℕ) (t endpoint : Text) (o : Option Text) (path : Text) (s : Exporter http)
      → Gives k t endpoint s
      → Gives k t endpoint (answering http render o path s)
  unfolding answering
  answering-Gives k t endpoint none path s h = h
  answering-Gives k t endpoint (some u) path s h = h

  run-Gives :
      (k : ℕ) (t endpoint : Text) (es : List Event) (s : Exporter http)
      → Gives k t endpoint s
      → Gives k t endpoint (run http render es s)
  unfolding run step
  run-Gives k t endpoint [] s h = h
  run-Gives k t endpoint (records calls ∷ es) s h = run-Gives k t endpoint es _ h
  run-Gives k t endpoint (accepts r ∷ es) s h =
      run-Gives k t endpoint es _ (accepting-Gives k t endpoint s.stopped r s h)
  run-Gives k t endpoint (asks c path ∷ es) s h =
      run-Gives k t endpoint es _ (answering-Gives k t endpoint (get_elem? s.shown c) path s h)

  accepted-Gives :
      (o : Option Text) (s : Exporter http)
      → o ≡ none
      → Gives (length s.shown) (render s.recorded) s.endpoint (accepting http render o (ok tt) s)
  unfolding accepting accepted
  accepted-Gives none s e = (get_elem?-last s.shown (render s.recorded), refl)
  accepted-Gives (some x) s e = cc

  answering-answers :
      (k : ℕ) (t endpoint path : Text) (s : Exporter http)
      → Gives k t endpoint s
      → (answering http render (get_elem? s.shown k) path s).answers
        ≡ serve_request http endpoint t path ∷ s.answers
  unfolding answering
  answering-answers k t endpoint path s h = rw h.0 (rw h.1 refl)

  -- Whatever is recorded, accepted and asked between the accept of a connection and a request on it,
  -- the request is answered, at the endpoint with the text of what was recorded before the
  -- accept, and elsewhere with 404, if the loop of the server had not ended before the accept.
  pub asks-accepts :
      (s : Exporter http) (es : List Event) (path : Text)
      → s.stopped ≡ none
      → (r : Response HeaderMap) × ((run http render
            (asks (length s.shown) path ∷ [])
            (run http render (accepts (ok tt) ∷ es) s)).answers
          ≡ some r ∷ (run http render (accepts (ok tt) ∷ es) s).answers)
        × Page http s.endpoint path (render s.recorded) r
  unfolding run step accepting accepted answering
  asks-accepts s es path listening =
      let after = run http render es (accepting http render s.stopped (ok tt) s) in
      let shows =
        run-Gives (length s.shown) (render s.recorded) s.endpoint es _
          (accepted-Gives s.stopped s listening) in
      let (r, built, page) = serve_request-Page http s.endpoint (render s.recorded) path in
      (
        r,
        answering-answers (length s.shown) (render s.recorded) s.endpoint path after shows
            ∙ ap (λ a. a ∷ after.answers) built,
        page,
      )
