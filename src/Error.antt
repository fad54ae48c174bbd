-- ===== src/Error.antt =====
-- src/error.rs: the gateway's errors. An error of another library is kept as the text that its
-- `Display` prints, which is all that the gateway reads of it.
use mini_api_gateway.Common.{ℕ, Text, text, ◌++◌}

pub data GatewayError : Type 0 where
  io http http_body config tls discovery auth : Text → GatewayError
  rate_limited : GatewayError
  cache proxy serialization invalid_uri : Text → GatewayError
  timeout upstream_unavailable : GatewayError
  internal : Text → GatewayError

unfoldable pub status_code : GatewayError → ℕ
status_code rate_limited = 429
status_code (auth _) = 401
status_code timeout = 504
status_code upstream_unavailable = 502
status_code (invalid_uri _) = 400
status_code _ = 500

-- `to_string()`, by the `#[error(…)]` attributes.
unfoldable pub display : GatewayError → Text
display (io e) = text "IO error: " ++ e
display (http e) = text "HTTP error: " ++ e
display (http_body e) = text "HTTP body error: " ++ e
display (config e) = text "Configuration error: " ++ e
display (tls e) = text "TLS error: " ++ e
display (discovery e) = text "Service discovery error: " ++ e
display (auth e) = text "Authentication error: " ++ e
display rate_limited = text "Rate limit exceeded"
display (cache e) = text "Cache error: " ++ e
display (proxy e) = text "Proxy error: " ++ e
display (serialization e) = text "Serialization error: " ++ e
display (invalid_uri e) = text "Invalid URI: " ++ e
display timeout = text "Request timeout"
display upstream_unavailable = text "Upstream unavailable"
display (internal e) = text "Internal error: " ++ e
