-- ===== src/Gateway/Replies.antt =====
-- What the gateway makes of the proxy's result.
use mini_api_gateway.Common.{◌≡◌, refl, Option, none, some, [], text, next, stop}
use mini_api_gateway.Error.{GatewayError, status_code}
use mini_api_gateway.Http.{Http, Response, get_text}
use mini_api_gateway.Cors.{CorsLayer, origin_of}
use mini_api_gateway.Platform.{Platform, World}
use mini_api_gateway.Gateway.{decorate, proxied, error_body}
use mini_api_gateway.Gateway.Stages.{Says, error_response-Says}

origin_of-none :
    (http : Http) (m : http.HeaderMap) → http.get m (text "origin") ≡ none → origin_of http m ≡ []
unfolding origin_of get_text
origin_of-none http m h = rw (h, get_text) refl

module _ (p : Platform) where
  open p use {http}
  open p.http use {HeaderMap}

  -- An error of the proxy never fails the request: the client gets a JSON response with the status
  -- code and the text of the error, and no state changes.
  proxied-error :
      (cors : Option CorsLayer) (e : GatewayError) (w : World p)
      → (r : Response HeaderMap) × (proxied p cors (stop e) w ≡ (next r, w))
        × Says p.http (status_code e) (text "Content-Type") (text "application/json") r
        × (r.body ≡ error_body e)
  unfolding proxied
  proxied-error cors e w =
      let (r, built, says, b) = error_response-Says p e in (r, rw built refl, says, b)

  -- An upstream's response that has no Origin header itself gets no CORS headers, whatever origin the
  -- request came from and whatever the CORS layer allows.
  proxied-undecorated :
      (cors : Option CorsLayer) (r : Response HeaderMap) (w : World p)
      → p.http.get r.headers (text "origin") ≡ none
      → proxied p cors (next r) w ≡ (next r, w)
  unfolding proxied decorate
  proxied-undecorated none r w h = refl
  proxied-undecorated (some cors) r w h = rw (origin_of-none p.http r.headers h) refl
