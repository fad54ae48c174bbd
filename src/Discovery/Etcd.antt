-- ===== src/Discovery/Etcd.antt =====
-- src/discovery/etcd.rs: the discovery that asks an etcd server for the keys of a service.
pub mod Range
pub mod Values
pub mod Reach
use mini_api_gateway.Common.{
  ◌+◌, ◌%◌, ◌≡◌, true, Option, none, some, List, [], ◌∷◌, ◌++◌, all, is_empty, if◌then◌else◌, ltb,
  Text, text, trim, Result, ok, err, map_err, ◌>>=?◌,
}
use mini_api_gateway.Config.{DiscoveryConfig, consul, etcd}
use mini_api_gateway.Error.{GatewayError, discovery, upstream_unavailable}
use mini_api_gateway.Discovery.{ServiceDiscovery}
use mini_api_gateway.Discovery.Shared.{
  QueryClient, Reply, is_success, Shared, lookup, put, first_cached, watching,
}

-- The parts that are not shared. The client is a parameter.
pub record EtcdDiscovery : Type 0 where
  pub endpoints : List Text
  pub prefix : Text

pub record EtcdRangeRequest : Type 0 where
  pub key : Text
  pub range_end : Option Text

pub record EtcdKeyValue : Type 0 where
  pub key : Text
  pub value : Text

-- The `base64` and `serde_json` crates and `String::from_utf8_lossy`, which the discovery uses and
-- does not implement.
pub record EtcdCodec : Type 0 where
  pub encode : Text → Text
  pub decode : Text → Result Text Text
  pub lossy : Text → Text
  pub request_json : EtcdRangeRequest → Text
  pub response_kvs : Text → Result Text (List EtcdKeyValue)
  pub decode-encode : (t : Text) → decode (encode t) ≡ ok t
  -- An ASCII text is valid UTF-8.
  pub lossy_ascii : (t : Text) → all (λ c. ltb c 128) t ≡ true → lossy t ≡ t

unfoldable pub get_endpoint : EtcdDiscovery → Text
get_endpoint d = elim d.endpoints [ [] ↦ text "http://127.0.0.1:2379" | e ∷ es ↦ e ]

unfoldable pub service_key : EtcdDiscovery → Text → Text
service_key d name = d.prefix ++ name

-- The last byte is raised by one, and wraps.
unfoldable pub bump_last : Text → Text
bump_last [] = []
bump_last (c ∷ []) = (c + 1) % 256 ∷ []
bump_last (c ∷ d ∷ s) = c ∷ bump_last (d ∷ s)

abbrev pub ok_or_empty : Result Text Text → Text
ok_or_empty (ok t) = t
ok_or_empty (err e) = []

module _ (codec : EtcdCodec) where
  open codec use {encode, decode, lossy, request_json, response_kvs}

  unfoldable pub range_end : Text → Text
  unfolding bump_last
  range_end key = lossy (bump_last key)

  -- The request for the keys of a service.
  unfoldable pub range_request : EtcdDiscovery → Text → EtcdRangeRequest
  range_request d name = record {
    key = encode (service_key d name);
    range_end = some (encode (range_end (service_key d name)));
  }

  -- The endpoint of a key and its value: `base64::decode(…).unwrap_or_default()`, as a trimmed text.
  unfoldable pub endpoint_url : EtcdKeyValue → Text
  endpoint_url kv = trim (lossy (ok_or_empty (decode kv.value)))

  -- The loop over the keys.
  unfoldable pub endpoint_urls : List EtcdKeyValue → List Text
  unfolding endpoint_url
  endpoint_urls [] = []
  endpoint_urls (kv ∷ kvs) =
      let rest = endpoint_urls kvs in
      if is_empty (endpoint_url kv) then rest else endpoint_url kv ∷ rest

  module _ (client : QueryClient) where
    open client use {Net, build, post, status_text}

    -- `EtcdDiscovery::new`
    unfoldable pub new : DiscoveryConfig → Result GatewayError EtcdDiscovery
    new config = elim config.provider [
      | consul address datacenter ↦ err (discovery (text "Invalid provider for Etcd"))
      | etcd endpoints ↦
          map_err (λ e. discovery (text "Failed to create HTTP client: " ++ e)) build >>=? λ _.
          ok (record { endpoints = endpoints; prefix = text "/services/" })
    ]

    unfoldable pub read_kvs : Result Text Reply → Result GatewayError (List EtcdKeyValue)
    read_kvs (err e) = err (discovery (text "Etcd query failed: " ++ e))
    read_kvs (ok r) =
        if is_success r.status
        then map_err (λ e. discovery (text "Failed to parse Etcd response: " ++ e))
            (r.body >>=? response_kvs)
        else err (discovery (text "Etcd returned status: " ++ status_text r.status))

    -- The endpoints of the answer, which go into the table at once.
    unfoldable pub found :
        Text
        → Result GatewayError (List EtcdKeyValue)
        → Shared Net
        → Result GatewayError (List Text) × Shared Net
    found name (err e) s = (err e, s)
    found name (ok kvs) s =
        (ok (endpoint_urls kvs), record s { endpoints = put name (endpoint_urls kvs) s.endpoints })

    unfoldable pub health_check :
        EtcdDiscovery → Text → Shared Net → Result GatewayError (List Text) × Shared Net
    unfolding found read_kvs range_request
    health_check d name s =
        let (r, net') =
          post (get_endpoint d ++ text "/v3/kv/range") (request_json (range_request d name))
            s.net in
        found name (read_kvs r) (record s { net = net' })

    -- What `resolve` makes of a health check.
    unfoldable pub choose :
        Result GatewayError (List Text) × Shared Net → Result GatewayError Text × Shared Net
    choose (err e, s) = (err e, s)
    choose (ok [], s) = (err upstream_unavailable, s)
    choose (ok (e ∷ es), s) = (ok e, s)

    unfoldable pub resolve :
        EtcdDiscovery → Text → Shared Net → Result GatewayError Text × Shared Net
    unfolding choose
    resolve d name s = elim (first_cached (lookup name s.endpoints)) [
      | some e ↦ (ok e, s)
      | none ↦ choose (health_check d name s)
    ]

    -- `watch`, which starts the background task for a name.
    unfoldable pub watch : Text → Shared Net → Result GatewayError (Unit {0}) × Shared Net
    watch name s = (ok tt, watching name s)

    unfoldable pub refreshed : Text → Result GatewayError (List Text) × Shared Net → Shared Net
    refreshed name (ok es, s) = record s { endpoints = put name es s.endpoints }
    refreshed name (err e, s) = s

    -- One round of the loop of the background task for a name.
    unfoldable pub tick : EtcdDiscovery → Text → Shared Net → Shared Net
    unfolding refreshed
    tick d name s = refreshed name (health_check d name s)

    -- `impl ServiceDiscovery for EtcdDiscovery`
    abbrev pub etcd_discovery : EtcdDiscovery → ServiceDiscovery
    etcd_discovery d = record {
      State = Shared Net;
      resolve = λ s name. resolve d name s;
      health_check = λ s name. health_check d name s;
      watch = λ s name. watch name s;
    }
