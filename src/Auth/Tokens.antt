-- ===== src/Auth/Tokens.antt =====
-- The token that the authentication layer takes from a request.
use mini_api_gateway.Common.{
  ◌≡◌, refl, ap, Bool, true, false, none, some, List, [], ◌∷◌, ◌++◌, drop, find, All, Text, text,
  starts_with, starts_with-append, split, join, Without, split-join,
}
use mini_api_gateway.Http.{Http, Request, get_text}
use mini_api_gateway.Auth.{bearer, query_token, extract_token, and_then}

find-first :
    {A : Type 0} (p : A → Bool) (pre : List A) (a : A) (post : List A)
    → All (λ x. p x ≡ false) pre
    → p a ≡ true
    → find p (pre ++ a ∷ post) ≡ some a
find-first p [] a post h e = rw e
find-first p (x ∷ pre) a post h e = rw h.0 (find-first p pre a post h.1 e)

abbrev is_token : Text → Bool
is_token p = starts_with p (text "token=")

drop-token : (t : Text) → drop 6 (text "token=" ++ t) ≡ t
unfolding text
drop-token t = refl

drop-bearer : (t : Text) → drop 7 (text "Bearer " ++ t) ≡ t
unfolding text
drop-bearer t = refl

split-join-nonempty :
    (pre : List Text) (p : Text) (post : List Text)
    → All (Without b'&') (pre ++ p ∷ post)
    → split b'&' (join (text "&") (pre ++ p ∷ post)) ≡ pre ++ p ∷ post
unfolding text
split-join-nonempty [] p post h = split-join b'&' p post h.0 h.1
split-join-nonempty (q ∷ pre) p post h = split-join b'&' q (pre ++ p ∷ post) h.0 h.1

query_token-first :
    (pre post : List Text) (t : Text)
    → All (Without b'&') (pre ++ (text "token=" ++ t) ∷ post)
    → All (λ p. is_token p ≡ false) pre
    → query_token (join (text "&") (pre ++ (text "token=" ++ t) ∷ post)) ≡ some t
unfolding query_token
query_token-first pre post t whole others =
    let split_parts = split-join-nonempty pre (text "token=" ++ t) post whole in
    let found : find is_token (pre ++ (text "token=" ++ t) ∷ post) ≡ some (text "token=" ++ t) =
      find-first is_token pre _ post others (starts_with-append (text "token=") t) in
    rw (split_parts, query_token) (rw (found, query_token) (ap some (drop-token t)))

module _ (http : Http) where
  -- A bearer token in the Authorization header is the token, whatever the query says.
  extract_token-bearer :
      (req : Request http.HeaderMap) (t : Text)
      → get_text http req.headers (text "authorization") ≡ some (text "Bearer " ++ t)
      → extract_token http req ≡ some t
  unfolding extract_token bearer
  extract_token-bearer req t e = rw (e, starts_with-append (text "Bearer ") t, drop-bearer t) refl

  -- With no bearer token in the headers, the token is that of the first parameter of the query that
  -- is named `token`: for a query of parameters joined by `&`, none of them with an `&` inside.
  extract_token-query :
      (req : Request http.HeaderMap) (pre post : List Text) (t : Text)
      → and_then bearer (get_text http req.headers (text "authorization")) ≡ none
      → req.query ≡ some (join (text "&") (pre ++ (text "token=" ++ t) ∷ post))
      → All (Without b'&') (pre ++ (text "token=" ++ t) ∷ post)
      → All (λ p. is_token p ≡ false) pre
      → extract_token http req ≡ some t
  unfolding extract_token
  extract_token-query req pre post t absent query whole others =
      rw (absent, query) (query_token-first pre post t whole others)
