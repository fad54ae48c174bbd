-- ===== src/Tls.antt =====
-- src/tls.rs: the configuration of TLS, over the `rustls` crates and the files, which are parameters.
pub mod Laws
use mini_api_gateway.Common.{
  ◌≡◌, Bool, false, not, Option, none, some, List, [], ◌∷◌, if◌then◌else◌, Text, text, ◌++◌, Result,
  ok, err, map_err, ◌>>=?◌ as ◌>>=◌, String,
}
use mini_api_gateway.Config.{TlsConfig, ClientAuthConfig}
use mini_api_gateway.Error.{GatewayError, tls}

-- What the gateway uses of the `rustls` crates. `open_file` is the content of a file, or the error of
-- opening it; the key readers yield the first key of a file's content, if it has one.
pub record TlsLib : Type 1 where
  pub Cert : Type 0
  pub Key : Type 0
  pub RootStore : Type 0
  pub Verifier : Type 0
  pub ServerConfig : Type 0
  pub open_file : Text → Result Text Text
  pub certs : Text → Result Text (List Cert)
  pub pkcs8_key : Text → Option (Result Text Key)
  pub rsa_key : Text → Option (Result Text Key)
  pub empty_store : RootStore
  pub add : RootStore → Cert → Result Text RootStore
  pub build_verifier : RootStore → Result Text Verifier
  -- `ServerConfig::builder()` with the verifier, if there is one, and with the certificates.
  pub with_single_cert : Option Verifier → List Cert → Key → Result Text ServerConfig
  pub alpn_protocols : ServerConfig → List Text
  pub set_alpn : List Text → ServerConfig → ServerConfig
  -- A configuration that is built offers no protocol until some are set.
  pub alpn-with_single_cert :
      (v : Option Verifier) (cs : List Cert) (k : Key) (c : ServerConfig)
      → with_single_cert v cs k ≡ ok c
      → alpn_protocols c ≡ []
  pub alpn-set_alpn : (ps : List Text) (c : ServerConfig) → alpn_protocols (set_alpn ps c) ≡ ps

unfoldable pub protocols : List Text
protocols = text "h2" ∷ text "http/1.1" ∷ []

abbrev pub failed : String → Text → GatewayError
failed what e = tls (text what ++ e)

unfoldable pub asks_clients : Option ClientAuthConfig → Bool
asks_clients none = false
asks_clients (some c) = c.enabled

module _ (lib : TlsLib) where
  open lib use {
    Cert, Key, RootStore, ServerConfig, open_file, certs, add, build_verifier, with_single_cert,
    set_alpn,
  }

  unfoldable pub some_certs : List Cert → Result GatewayError (List Cert)
  some_certs [] = err (tls (text "No certificates found"))
  some_certs (c ∷ cs) = ok (c ∷ cs)

  unfoldable pub load_certs : (path : Text) → Result GatewayError (List Cert)
  unfolding some_certs
  load_certs path = do
    file ← map_err (failed "Failed to open cert file: ") (open_file path)
    found ← map_err (failed "Failed to parse certs: ") (certs file)
    some_certs found

  -- `.transpose()`, with the error of an item that does not parse.
  unfoldable pub first_key : String → Option (Result Text Key) → Result GatewayError (Option Key)
  first_key what none = ok none
  first_key what (some (ok k)) = ok (some k)
  first_key what (some (err e)) = err (failed what e)

  unfoldable pub rsa : (path : Text) → Result GatewayError Key
  unfolding first_key
  rsa path = do
    file ← map_err (failed "Failed to reopen key file: ") (open_file path)
    key ← first_key "Failed to parse RSA key: " (lib.rsa_key file)
    elim key [ some k ↦ ok k | none ↦ err (tls (text "No valid private key found")) ]

  -- A key of the form PKCS8, and only if there is none, an RSA key.
  unfoldable pub load_key : (path : Text) → Result GatewayError Key
  unfolding first_key rsa
  load_key path = do
    file ← map_err (failed "Failed to open key file: ") (open_file path)
    key ← first_key "Failed to parse PKCS8 key: " (lib.pkcs8_key file)
    elim key [ some k ↦ ok k | none ↦ rsa path ]

  -- The loop over the certificates of the authorities.
  unfoldable pub add_certs : RootStore → List Cert → Result GatewayError RootStore
  add_certs store [] = ok store
  add_certs store (c ∷ cs) =
      map_err (failed "Failed to add CA cert: ") (add store c) >>= λ store'. add_certs store' cs

  -- The configuration that also asks clients for a certificate.
  unfoldable pub with_client_auth : TlsConfig → ClientAuthConfig → Result GatewayError ServerConfig
  with_client_auth config client = do
    ca ← load_certs client.ca_path
    store ← add_certs lib.empty_store ca
    verifier ← map_err (failed "Failed to build client verifier: ") (build_verifier store)
    cs ← load_certs config.cert_path
    key ← load_key config.key_path
    map_err (failed "Failed to rebuild TLS config: ") (with_single_cert (some verifier) cs key)

  unfoldable pub client_auth_stage :
      TlsConfig → Option ClientAuthConfig → ServerConfig → Result GatewayError ServerConfig
  unfolding with_client_auth
  client_auth_stage config none c = ok c
  client_auth_stage config (some client) c =
      if client.enabled then with_client_auth config client else ok c

  -- What follows the test whether TLS is enabled.
  unfoldable pub build_config : TlsConfig → Result GatewayError ServerConfig
  unfolding client_auth_stage protocols
  build_config config = do
    cs ← load_certs config.cert_path
    key ← load_key config.key_path
    c ← map_err (failed "Failed to build TLS config: ") (with_single_cert none cs key)
    client_auth_stage config config.client_auth (set_alpn protocols c)

  -- `create_tls_acceptor`: the acceptor holds the configuration and nothing else.
  unfoldable pub create_tls_acceptor : TlsConfig → Result GatewayError ServerConfig
  unfolding build_config
  create_tls_acceptor config =
      if config.enabled then build_config config else err (tls (text "TLS not enabled"))

-- `generate_self_signed_cert`, which makes no certificate.
unfoldable pub generate_self_signed_cert : Result GatewayError (Text × Text)
generate_self_signed_cert = err (
    tls (
      text
        "Self-signed certificate generation not implemented. Use openssl to generate certs:\nopenssl req -x509 -newkey rsa:4096 -keyout key.pem -out cert.pem -days 365 -nodes"))
