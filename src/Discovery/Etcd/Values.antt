-- ===== src/Discovery/Etcd/Values.antt =====
-- The endpoints that the etcd discovery reads of the values in an answer.
use mini_api_gateway.Common.{
  ◌≡◌, refl, true, some, List, [], ◌∷◌, ◌++◌, is_empty, All, all, ltb, if◌then◌else◌, Text, text,
  trim, ok,
}
use mini_api_gateway.Discovery.Shared.{QueryClient, Reply, is_success, Shared, lookup, lookup-put}
use mini_api_gateway.Discovery.Etcd.{
  EtcdDiscovery, EtcdCodec, EtcdKeyValue, endpoint_url, endpoint_urls, read_kvs, found,
  health_check, get_endpoint, range_request,
}

-- What is registered under keys, as the server stores and returns it: the values are encoded.
abbrev pub registered : EtcdCodec → List (Text × Text) → List EtcdKeyValue
registered codec [] = []
registered codec ((k, v) ∷ kvs) =
    record { key = codec.encode k; value = codec.encode v } ∷ registered codec kvs

-- The trimmed values that are not blank, in their order.
abbrev pub urls : List (Text × Text) → List Text
urls [] = []
urls ((k, v) ∷ kvs) = let rest = urls kvs in if is_empty (trim v) then rest else trim v ∷ rest

abbrev pub IsAscii : Text → Type 0
IsAscii t = all (λ c. ltb c 128) t ≡ true

endpoint_url-registered :
    (codec : EtcdCodec) (k v : Text)
    → IsAscii v
    → endpoint_url codec (record { key = k; value = codec.encode v }) ≡ trim v
unfolding endpoint_url
endpoint_url-registered codec k v a = rw (codec.decode-encode v, codec.lossy_ascii v a) refl

endpoint_urls-registered :
    (codec : EtcdCodec) (kvs : List (Text × Text))
    → All (λ kv. IsAscii kv.1) kvs
    → endpoint_urls codec (registered codec kvs) ≡ urls kvs
unfolding endpoint_urls
endpoint_urls-registered codec [] a = refl
endpoint_urls-registered codec ((k, v) ∷ kvs) a =
    rw
      (endpoint_url-registered codec (codec.encode k) v a.0, endpoint_urls-registered codec kvs a.1)
      refl

-- A health check that gets an answer with a success status and registered ASCII values finds their
-- trimmed texts, those that are not blank, in the order of the keys, and puts them into the table.
pub health_check-registered :
    (codec : EtcdCodec) (client : QueryClient) (d : EtcdDiscovery) (name : Text)
    (s : Shared client.Net) (kvs : List (Text × Text)) {r : Reply} {net : client.Net} {body : Text}
    → client.post
        (get_endpoint d ++ text "/v3/kv/range")
        (codec.request_json (range_request codec d name))
        s.net
      ≡ (ok r, net)
    → is_success r.status ≡ true
    → r.body ≡ ok body
    → codec.response_kvs body ≡ ok (registered codec kvs)
    → All (λ kv. IsAscii kv.1) kvs
    → ((health_check codec client d name s).0 ≡ ok (urls kvs))
      × (lookup name (health_check codec client d name s).1.endpoints ≡ some (urls kvs))
      × ((health_check codec client d name s).1.net ≡ net)
unfolding health_check read_kvs found
health_check-registered codec client d name s kvs {r} {net} {body} sent success whole parsed a =
    rw (sent, success, whole, parsed, endpoint_urls-registered codec kvs a)
      (refl, lookup-put name (urls kvs) s.endpoints, refl)
