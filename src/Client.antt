-- ===== src/Client.antt =====
-- The `reqwest` client, which the gateway uses and does not implement: the requests that it is given
-- and the responses that it returns.
use mini_api_gateway.Common.{ℕ, ◌≡◌, Bool, true, Option, some, Text, Result}

pub record ProxyRequest (H : Type 0) : Type 0 where
  pub method : Text
  pub url : Text
  pub headers : H
  pub body : Text

-- `bytes` is what reading the body yields.
pub record Upstream (H : Type 0) : Type 0 where
  pub status : ℕ
  pub headers : H
  pub bytes : Result Text Text

-- `send` takes the deadline of the try in milliseconds. `try_clone` fails on a request that could
-- not be built, and on one with a streamed body, which the gateway never builds.
pub record HttpClient (H : Type 0) : Type 1 where
  pub Net : Type 0
  pub parse_method : Text → Result Text Text
  pub valid_url : Text → Bool
  pub try_clone : ProxyRequest H → Option (ProxyRequest H)
  pub send : ProxyRequest H → Option ℕ → Net → Result Text (Upstream H) × Net
  pub try_clone-valid : (r : ProxyRequest H) → valid_url r.url ≡ true → try_clone r ≡ some r
