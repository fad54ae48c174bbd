-- ===== src/Proxy/Target.antt =====
-- The URL that a request is forwarded to.
use mini_api_gateway.Common.{
  ◌≡◌, refl, sym, ap, ◌∙◌, ◌⊎◌, inl, inr, some, [], ◌∷◌, ◌++◌, Text, strip_prefix-append,
  append-nil,
}
use mini_api_gateway.Config.{RouteConfig}
use mini_api_gateway.Http.{Request}
use mini_api_gateway.Router.{matched}
use mini_api_gateway.Router.Globs.{IsGlob, Below, PathMatches-iff_Below}
use mini_api_gateway.Router.Matching.{Accepts}
use mini_api_gateway.Proxy.{target_path, target_url, query_part}

-- The rest of a path after a prefix keeps the upstream's host apart: it is empty or begins with a
-- slash.
abbrev pub IsRooted : Text → Type 0
IsRooted t = (t ≡ []) ⊎ ((rest : Text) × (t ≡ b'/' ∷ rest))

Below-rest : (base path : Text) → Below base path → (t : Text) × (path ≡ base ++ t) × IsRooted t
Below-rest base path (inl e) = ([], e ∙ sym (append-nil base), inl refl)
Below-rest base path (inr (rest, e, free)) = (b'/' ∷ rest, e, inr (rest, refl))

target_path-append : (base t : Text) → target_path (some base) (base ++ t) ≡ t
unfolding target_path
target_path-append base t = rw (strip_prefix-append base t)

-- Where a route for a wild card strips the base of the wild card, and accepts a request, the request
-- goes to the upstream's address followed by what the path has after the base, which is empty or
-- begins with a slash, and by the query.
target_url-stripped :
    {H : Type 0} (c : RouteConfig) (base url : Text) (req : Request H)
    → IsGlob base c.path
    → c.strip_prefix ≡ some base
    → Accepts c req
    → (t : Text) × (req.path ≡ base ++ t)
      × IsRooted t
      × (target_url (matched c url) req ≡ url ++ (t ++ query_part req.query))
unfolding target_url
target_url-stripped c base url req g s a =
    let (t, split, rooted) =
      Below-rest base req.path ((PathMatches-iff_Below base c.path req.path g).0 a.0) in
    let kept = ap (target_path (some base)) split ∙ target_path-append base t in
    (t, split, rooted, rw s (ap (λ u. url ++ (u ++ query_part req.query)) kept))
