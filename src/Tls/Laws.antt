-- ===== src/Tls/Laws.antt =====
-- What an acceptor that is created offers.
use mini_api_gateway.Common.{
  ◌≡◌, refl, sym, ap, ◌∙◌, Bool, true, false, Option, none, some, [], if◌then◌else◌, text, ok, err,
  map_err, >>=?-eq-ok, map_err-eq-ok,
}
use mini_api_gateway.Config.{TlsConfig, ClientAuthConfig}
use mini_api_gateway.Error.{tls}
use mini_api_gateway.Tls.{
  TlsLib, protocols, failed, load_certs, load_key, add_certs, with_client_auth, asks_clients,
  client_auth_stage, build_config, create_tls_acceptor,
}

module _ (lib : TlsLib) where
  open lib use {ServerConfig, alpn_protocols, with_single_cert}

  with_client_auth-alpn :
      (config : TlsConfig) (client : ClientAuthConfig) (c : ServerConfig)
      → with_client_auth lib config client ≡ ok c
      → alpn_protocols c ≡ []
  unfolding with_client_auth
  with_client_auth-alpn config client c h =
      let (ca, e1, h1) = >>=?-eq-ok (load_certs lib client.ca_path) _ h in
      let (store, e2, h2) = >>=?-eq-ok (add_certs lib lib.empty_store ca) _ h1 in
      let (v, e3, h3) =
        >>=?-eq-ok (map_err (failed "Failed to build client verifier: ") (lib.build_verifier store))
          _ h2 in
      let (cs, e4, h4) = >>=?-eq-ok (load_certs lib config.cert_path) _ h3 in
      let (k, e5, h5) = >>=?-eq-ok (load_key lib config.key_path) _ h4 in
      lib.alpn-with_single_cert (some v) cs k c (map_err-eq-ok _ _ h5)

  rebuilt-alpn :
      (config : TlsConfig) (client : ClientAuthConfig) (b c : ServerConfig) (asks : Bool)
      → alpn_protocols b ≡ protocols
      → (if asks then with_client_auth lib config client else ok b) ≡ ok c
      → alpn_protocols c ≡ (if asks then [] else protocols)
  rebuilt-alpn config client b c true e h = with_client_auth-alpn config client c h
  rebuilt-alpn config client b c false e h =
      let same : b ≡ c = cc in ap alpn_protocols (sym same) ∙ e

  client_auth_stage-alpn :
      (config : TlsConfig) (o : Option ClientAuthConfig) (b c : ServerConfig)
      → alpn_protocols b ≡ protocols
      → client_auth_stage lib config o b ≡ ok c
      → alpn_protocols c ≡ (if asks_clients o then [] else protocols)
  unfolding client_auth_stage asks_clients
  client_auth_stage-alpn config none b c e h =
      let same : b ≡ c = cc in ap alpn_protocols (sym same) ∙ e
  client_auth_stage-alpn config (some client) b c e h =
      rebuilt-alpn config client b c client.enabled e h

  build_config-alpn :
      (config : TlsConfig) (c : ServerConfig)
      → build_config lib config ≡ ok c
      → alpn_protocols c ≡ (if asks_clients config.client_auth then [] else protocols)
  unfolding build_config
  build_config-alpn config c h =
      let (cs, e1, h1) = >>=?-eq-ok (load_certs lib config.cert_path) _ h in
      let (k, e2, h2) = >>=?-eq-ok (load_key lib config.key_path) _ h1 in
      let (b, e3, h3) =
        >>=?-eq-ok (map_err (failed "Failed to build TLS config: ") (with_single_cert none cs k)) _
          h2 in
      client_auth_stage-alpn config config.client_auth _ c (lib.alpn-set_alpn protocols b) h3

  asked-alpn :
      (config : TlsConfig) (c : ServerConfig) (asked : Bool)
      → (if asked then build_config lib config else err (tls (text "TLS not enabled"))) ≡ ok c
      → (asked ≡ true)
        × (alpn_protocols c ≡ (if asks_clients config.client_auth then [] else protocols))
  asked-alpn config c true h = (refl, build_config-alpn config c h)
  asked-alpn config c false h = cc

  -- An acceptor that is created was asked for, and it offers HTTP/2 and HTTP/1.1 where clients are not
  -- asked for a certificate; where they are, it offers no protocol.
  pub create_tls_acceptor-alpn :
      (config : TlsConfig) {c : ServerConfig}
      → create_tls_acceptor lib config ≡ ok c
      → (config.enabled ≡ true)
        × (alpn_protocols c ≡ (if asks_clients config.client_auth then [] else protocols))
  unfolding create_tls_acceptor
  create_tls_acceptor-alpn config {c} h = asked-alpn config c config.enabled h
