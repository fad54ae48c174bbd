-- ===== src/Proxy/Headers.antt =====
-- The headers that reach the upstream server.
use mini_api_gateway.Common.{
  ◌≡◌, refl, ap, ◌∙◌, Bool, true, false, Option, none, some, List, [], ◌∷◌, any, arith,
  if◌then◌else◌, Text, text_eq, eq_ignore_ascii_case, eq_ignore_ascii_case_iff,
}
use mini_api_gateway.Http.{or_first}
use mini_api_gateway.Platform.{Platform}
use mini_api_gateway.Proxy.{hop_by_hop, is_hop_by_hop, forward_headers}

-- The value of the last entry of a name.
unfoldable pub last_value : Text → List (Text × Text) → Option Text
last_value j [] = none
last_value j ((key, value) ∷ es) =
    or_first (last_value j es) (if eq_ignore_ascii_case key j then some value else none)

is_hop_by_hop-case :
    (k j : Text) → eq_ignore_ascii_case k j ≡ true → is_hop_by_hop k ≡ is_hop_by_hop j
unfolding is_hop_by_hop
is_hop_by_hop-case k j h =
    ap (λ s. any (λ n. text_eq s n) hop_by_hop) ((eq_ignore_ascii_case_iff k j).0 h)

module _ (p : Platform) where
  open p.http use {HeaderMap, get, insert, empty}

  forward_headers_step :
      (hop hop_j same : Bool) (value : Text) (m last : Option Text)
      → (same ≡ true → hop ≡ hop_j)
      → (if hop_j
          then (if hop then m else if same then some value else m)
          else or_first last (if hop then m else if same then some value else m))
        ≡ (if hop_j then m else or_first (or_first last (if same then some value else none)) m)
  forward_headers_step true true same value m last h = refl
  forward_headers_step true false true value m last h = cc (h refl)
  forward_headers_step true false false value m none h = refl
  forward_headers_step true false false value m (some v) h = refl
  forward_headers_step false true true value m last h = cc (h refl)
  forward_headers_step false true false value m last h = refl
  forward_headers_step false false true value m none h = refl
  forward_headers_step false false true value m (some v) h = refl
  forward_headers_step false false false value m none h = refl
  forward_headers_step false false false value m (some v) h = refl

  get-insert_if :
      (hop : Bool) (m : HeaderMap) (k v j : Text)
      → get (if hop then m else insert m k v) j
        ≡ (if hop then get m j else if eq_ignore_ascii_case k j then some v else get m j)
  get-insert_if true m k v j = refl
  get-insert_if false m k v j = p.http.get-insert m k v j

  get-forward_headers_from :
      (es : List (Text × Text)) (m : HeaderMap) (j : Text)
      → get (forward_headers p es m) j
        ≡ (if is_hop_by_hop j then get m j else or_first (last_value j es) (get m j))
  unfolding forward_headers last_value
  get-forward_headers_from [] m j = ground arith
  get-forward_headers_from ((k, v) ∷ es) m j =
      get-forward_headers_from es (if is_hop_by_hop k then m else insert m k v) j
      ∙ (rw (get-insert_if (is_hop_by_hop k) m k v j) (
          forward_headers_step (is_hop_by_hop k) (is_hop_by_hop j) (eq_ignore_ascii_case k j) v
            (get m j) (last_value j es) (is_hop_by_hop-case k j)))

  -- Of the headers of a request, no hop-by-hop header reaches the upstream server, in whatever
  -- case it is spelled. Every other header does, with one value: that of its last entry.
  pub get-forward_headers :
      (es : List (Text × Text)) (j : Text)
      → get (forward_headers p es empty) j ≡ (if is_hop_by_hop j then none else last_value j es)
  get-forward_headers es j =
      get-forward_headers_from es empty j ∙ rw (p.http.get-empty j) (drop_none (last_value j es))
    where
      drop_none :
          (o : Option Text)
          → (if is_hop_by_hop j then none else or_first o none)
            ≡ (if is_hop_by_hop j then none else o)
      drop_none none = refl
      drop_none (some v) = refl
