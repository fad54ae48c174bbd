-- ===== src/Tests/Backends.antt =====
-- Small implementations of what the discoveries, the Redis cache, TLS and the building of the gateway
-- stand on, for the examples.
use mini_api_gateway.Common.{
  ℕ, suc, ◌≡◌, refl, sym, ap, ◌∙◌, inl, inr, none, some, List, [], ◌∷◌, Text, text, decimal, Result,
  ok, err, ok-injective,
}
use mini_api_gateway.Cache.{CachedResponse}
use mini_api_gateway.Cache.Redis.{RedisLib}
use mini_api_gateway.Discovery.Shared.{QueryClient}
use mini_api_gateway.Discovery.Consul.{ConsulDiscovery, ConsulService}
use mini_api_gateway.Discovery.Etcd.{EtcdDiscovery, EtcdCodec}
use mini_api_gateway.Tls.{TlsLib}
use mini_api_gateway.Gateway.Build.{Libraries}
use mini_api_gateway.Tests.Libraries.{
  Kept, put, put-some, put-none, keeps_all, patterns, one_token, count_down,
}

-- Every query succeeds, and the network counts them.
abbrev pub always_found : QueryClient
always_found = record {
  Net = ℕ;
  build = ok tt;
  get = λ url n. (ok (record { status = 200; body = ok [] }), suc n);
  post = λ url json n. (ok (record { status = 200; body = ok [] }), suc n);
  status_text = decimal;
}

abbrev pub healthy : ConsulService
healthy = record {
  service_address = text "10.0.0.1";
  service_port = 80;
  service_tags = [];
  checks = record { status = text "passing" } ∷ [];
}

abbrev pub one_service : Text → Result Text (List ConsulService)
one_service t = ok (healthy ∷ [])

abbrev pub one_consul : ConsulDiscovery
one_consul = record { address = text "http://c"; datacenter = none }

abbrev pub one_value : List (Text × Text)
one_value = (text "/services/a", text " http://a ") ∷ []

abbrev pub plain_codec : EtcdCodec
plain_codec = record {
  encode = λ t. t;
  decode = ok;
  lossy = λ t. t;
  request_json = λ r. r.key;
  response_kvs = λ b. ok (record { key = text "/services/a"; value = text " http://a " } ∷ []);
  decode-encode = λ t. refl;
  lossy_ascii = λ t a. refl;
}

abbrev pub one_etcd : EtcdDiscovery
one_etcd = record { endpoints = []; prefix = text "/services/" }

-- A response without headers as its status and its body.
abbrev pub write : CachedResponse → Result Text Text
write v = elim v.headers [ [] ↦ ok (v.status ∷ v.body) | h ∷ hs ↦ err [] ]

abbrev pub read : Text → Result Text CachedResponse
read [] = err []
read (s ∷ b) = ok (record { status = s; headers = []; body = b })

pub read-write : (v : CachedResponse) (b : Text) → write v ≡ ok b → read b ≡ ok v
read-write v b h = go v.headers refl h
  where
    go :
        (hs : List (Text × Text))
        → v.headers ≡ hs
        → elim hs as (λ _. Result Text Text) [ [] ↦ ok (v.status ∷ v.body) | h ∷ hs ↦ err [] ]
          ≡ ok b
        → read b ≡ ok v
    go [] e k =
        ap read (sym (ok-injective k))
        ∙ ap (λ (hs : List (Text × Text)). ok (record v { headers = hs })) (sym e)
    go (h ∷ hs) e k = cc

pub none_kept : {A B : Type 0} {u : A} → none ≡ some u → B
none_kept h = cc

-- A server that every command reaches, and whose entries do not expire.
abbrev pub never_expires : RedisLib
never_expires = record {
  Client = Unit {0};
  Conn = Unit {0};
  Server = Kept Text;
  stored = λ s j. s j;
  open_client = λ url. ok tt;
  connect = λ c s. (ok tt, s);
  get = λ c k s. (ok (s k), s);
  set_ex = λ c k v secs s. (ok tt, put s k (some v));
  del = λ c k s. (ok tt, put s k none);
  flushdb = λ c s. (ok tt, λ j. none);
  to_vec = write;
  from_slice = read;
  from_slice-to_vec = read-write;
  stored-connect = λ c s j u h. h;
  stored-get = λ c k s j u h. h;
  get_sound = λ c k s u h. ok-injective h;
  stored-set_ex = λ c k v secs s j u h. elim (put-some s k j v u h) [
    | inl same ↦ inl same
    | inr (n, old) ↦ inr (inr n, old)
  ];
  stored-del = λ c k s j u h. let (n, old) = put-none s k j u h in (inr n, old);
  stored-flushdb = λ c s j u h. none_kept h;
}

-- Configurations of TLS as the protocols that they offer.
abbrev pub one_cert : TlsLib
one_cert = record {
  Cert = Unit {0};
  Key = Unit {0};
  RootStore = Unit {0};
  Verifier = Unit {0};
  ServerConfig = List Text;
  open_file = ok;
  certs = λ file. ok (tt ∷ []);
  pkcs8_key = λ file. some (ok tt);
  rsa_key = λ file. none;
  empty_store = tt;
  add = λ store c. ok tt;
  build_verifier = λ store. ok tt;
  with_single_cert = λ v cs k. ok [];
  alpn_protocols = λ c. c;
  set_alpn = λ ps c. ps;
  alpn-with_single_cert = λ v cs k c h. sym (ok-injective h);
  alpn-set_alpn = λ ps c. refl;
}

abbrev pub small_libraries : Libraries
small_libraries = record {
  regex = patterns;
  jwt = one_token;
  limiter = count_down;
  tls = one_cert;
  moka = keeps_all;
  redis = never_expires;
  codec = plain_codec;
  query = always_found;
  services = one_service;
  HttpPool = ℕ × ℕ;
  build_pool = λ idle secs. some (idle, secs);
  Recorder = Unit {0};
  install_recorder = some tt;
}
