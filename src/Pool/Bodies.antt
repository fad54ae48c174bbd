-- ===== src/Pool/Bodies.antt =====
-- src/pool.rs: the utilities for bodies.
use mini_api_gateway.Common.{
  ◌≡◌, refl, ap, sym, ◌∙◌, Option, none, some, List, [], ◌∷◌, ◌++◌, append-nil, append_assoc, Text,
  Result, ok, err,
}

-- A frame of a body is data or trailers, and reading it can fail.
abbrev pub Body : Type 0
Body = List (Result Text (Option Text))

-- `http_body_util::BodyExt::collect` with `to_bytes`, which the gateway uses and does not implement: it
-- reads a body to its end or to its first error, and joins the data.
pub record Collector : Type 0 where
  pub to_bytes : Body → Result Text Text
  pub to_bytes-end : to_bytes [] ≡ ok []
  pub to_bytes-error : (e : Text) (body : Body) → to_bytes (err e ∷ body) ≡ err e
  pub to_bytes-trailers : (body : Body) → to_bytes (ok none ∷ body) ≡ to_bytes body
  pub to_bytes-data :
      (t : Text) (body : Body) (u : Text)
      → to_bytes body ≡ ok u
      → to_bytes (ok (some t) ∷ body) ≡ ok (t ++ u)
  pub to_bytes-data_error :
      (t : Text) (body : Body) (e : Text)
      → to_bytes body ≡ err e
      → to_bytes (ok (some t) ∷ body) ≡ err e

unfoldable pub body_to_bytes : Collector → Body → Result Text Text
body_to_bytes collector body = collector.to_bytes body

-- `chunks.push(…)` of one frame.
abbrev pushed : List Text → Option Text → List Text
pushed chunks none = chunks
pushed chunks (some t) = chunks ++ t ∷ []

-- The loop of `stream_body`, with the chunks so far.
unfoldable pub collect_chunks : List Text → Body → Result Text (List Text)
collect_chunks chunks [] = ok chunks
collect_chunks chunks (err e ∷ body) = err e
collect_chunks chunks (ok frame ∷ body) = collect_chunks (pushed chunks frame) body

unfoldable pub stream_body : Body → Result Text (List Text)
unfolding collect_chunks
stream_body body = collect_chunks [] body

abbrev pub joined : List Text → Text
joined [] = []
joined (t ∷ ts) = t ++ joined ts

-- What is read, with texts before it.
abbrev behind : Text → Result Text Text → Result Text Text
behind t (ok u) = ok (t ++ u)
behind t (err e) = err e

abbrev as_bytes : Result Text (List Text) → Result Text Text
as_bytes (ok ts) = ok (joined ts)
as_bytes (err e) = err e

joined-++ : (ts : List Text) (t : Text) → joined (ts ++ t ∷ []) ≡ joined ts ++ t
joined-++ [] t = append-nil t
joined-++ (s ∷ ts) t = ap (λ u. s ++ u) (joined-++ ts t) ∙ sym (append_assoc s (joined ts) t)

module _ (collector : Collector) where
  open collector use {to_bytes}

  -- One more frame of data.
  data_behind :
      (s t : Text) (body : Body) (x : Result Text Text)
      → to_bytes body ≡ x
      → behind (s ++ t) x ≡ behind s (to_bytes (ok (some t) ∷ body))
  data_behind s t body (ok u) e =
      rw (collector.to_bytes-data t body u e) (ap ok (append_assoc s t u))
  data_behind s t body (err x) e = rw (collector.to_bytes-data_error t body x e) refl

  collect_chunks-joined :
      (chunks : List Text) (body : Body)
      → as_bytes (collect_chunks chunks body) ≡ behind (joined chunks) (to_bytes body)
  unfolding collect_chunks
  collect_chunks-joined chunks [] =
      rw collector.to_bytes-end (ap ok (sym (append-nil (joined chunks))))
  collect_chunks-joined chunks (err e ∷ body) = rw (collector.to_bytes-error e body) refl
  collect_chunks-joined chunks (ok none ∷ body) =
      collect_chunks-joined chunks body
      ∙ ap (behind (joined chunks)) (sym (collector.to_bytes-trailers body))
  collect_chunks-joined chunks (ok (some t) ∷ body) =
      collect_chunks-joined (chunks ++ t ∷ []) body
      ∙ ap (λ s. behind s (to_bytes body)) (joined-++ chunks t)
      ∙ data_behind (joined chunks) t body (to_bytes body) refl

  behind_nothing : (x : Result Text Text) → behind [] x ≡ x
  behind_nothing (ok u) = refl
  behind_nothing (err e) = refl

  -- The chunks of `stream_body`, joined, are the bytes of `body_to_bytes`, and both fail alike.
  stream_body-body_to_bytes :
      (body : Body) → as_bytes (stream_body body) ≡ body_to_bytes collector body
  unfolding stream_body body_to_bytes
  stream_body-body_to_bytes body = collect_chunks-joined [] body ∙ behind_nothing (to_bytes body)
