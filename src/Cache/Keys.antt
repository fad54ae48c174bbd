-- ===== src/Cache/Keys.antt =====
-- Which requests share a key of the cache.
use mini_api_gateway.Common.{
  ◌≡◌, refl, sym, ap, ◌∙◌, none, some, [], ◌∷◌, ◌++◌, Text, text, Without, text-append_cancel,
}
use mini_api_gateway.Config.{uri_with_method, uri_with_headers}
use mini_api_gateway.Http.{Http, Request}
use mini_api_gateway.Cache.{header_values, build_key}

-- A text without a colon is determined by what comes before the first colon.
separate :
    (a b r s : Text)
    → Without b':' a
    → Without b':' b
    → a ++ b':' ∷ r ≡ b ++ b':' ∷ s
    → (a ≡ b) × (r ≡ s)
separate [] [] r s f g e = (refl, cc)
separate [] (c ∷ b) r s f g e = absurd (g.0 (cc))
separate (c ∷ a) [] r s f g e = absurd (f.0 (cc))
separate (c ∷ a) (d ∷ b) r s f g e = let (x, y) = separate a b r s f.1 g.1 (cc) in (cc, y)

module _ (http : Http) (lossy : Text → Text) where
  open http use {HeaderMap, get}

  -- With the strategy of method and URI, two requests share a key only if they have the same method
  -- and the same URI, where their methods hold no colon.
  build_key-injective :
      (q r : Request HeaderMap)
      → Without b':' q.method
      → Without b':' r.method
      → build_key http lossy uri_with_method q ≡ build_key http lossy uri_with_method r
      → (q.method ≡ r.method) × (q.uri ≡ r.uri)
  unfolding build_key text
  build_key-injective q r f g e =
      separate q.method r.method q.uri r.uri f g (text-append_cancel (text "cache:") e)

  header_values-first :
      (first second v : Text) (m : HeaderMap)
      → get m first ≡ some v
      → get m second ≡ none
      → header_values http lossy (first ∷ second ∷ []) m ≡ b':' ∷ (lossy v ++ [])
  unfolding header_values
  header_values-first first second v m a b = rw (a, b, header_values) refl

  header_values-second :
      (first second v : Text) (m : HeaderMap)
      → get m first ≡ none
      → get m second ≡ some v
      → header_values http lossy (first ∷ second ∷ []) m ≡ b':' ∷ (lossy v ++ [])
  unfolding header_values
  header_values-second first second v m a b = rw (a, b, header_values) refl

  -- With the strategy of headers, the key does not say which header a value stood in: two requests with
  -- the same method and URI share a key if the one has a value in the first of two listed headers
  -- only, and the other has the same value in the second only.
  build_key-shared :
      (first second v : Text) (q r : Request HeaderMap)
      → q.method ≡ r.method
      → q.uri ≡ r.uri
      → get q.headers first ≡ some v
      → get q.headers second ≡ none
      → get r.headers first ≡ none
      → get r.headers second ≡ some v
      → build_key http lossy (uri_with_headers (first ∷ second ∷ [])) q
        ≡ build_key http lossy (uri_with_headers (first ∷ second ∷ [])) r
  unfolding build_key
  build_key-shared first second v q r m u a b c d =
      let values =
        header_values-first first second v q.headers a b
        ∙ sym (header_values-second first second v r.headers c d) in
      ap
        (λ (k : Text).
          text "cache:"
          ++ (k
              ++ (text ":" ++ (q.uri ++ header_values http lossy (first ∷ second ∷ []) q.headers))))
        m
      ∙ ap
          (λ (k : Text).
            text "cache:"
            ++ (r.method
                ++ (text ":" ++ (k ++ header_values http lossy (first ∷ second ∷ []) q.headers))))
          u
      ∙ ap (λ (k : Text). text "cache:" ++ (r.method ++ (text ":" ++ (r.uri ++ k)))) values
