-- ===== src/Proxy/Balance.antt =====
-- The choice among several endpoints.
use native.Mathlib.Decide.{dec_le}
use mini_api_gateway.Common.{
  ℕ, zero, suc, ◌+◌, ◌-◌, ◌%◌, ◌^◌, ◌≤◌, ◌<◌, ◌≡◌, ◌≢◌, refl, ap, ◌∙◌, Option, none, some, List, [],
  ◌∷◌, length, get_elem?, get_elem?-lt, arith, Text, next,
}
use mini_api_gateway.Config.{LoadBalanceStrategy, round_robin, random, least_connections, ip_hash}
use mini_api_gateway.Proxy.{index, select_endpoint}

turn_of : (c n j : ℕ) → j < n → (i : ℕ) × (i < n) × ((c + i) % n ≡ j)
turn_of c n j h = elim (dec_le (c % n) j) [
  | yes le ↦ (j - c % n, omega arith, grind arith)
  | no gt ↦ (j + n - c % n, grind arith, grind arith)
]

index-ok :
    {R : Type 0} (xs : List Text) (i c : ℕ)
    → i < length xs
    → (e : Text) × (get_elem? xs i ≡ some e) × (index {R = R} xs i c ≡ (next e, c))
unfolding index
index-ok xs i c h = let (e, found) = get_elem?-lt xs i h in (e, found, rw found)

module _ (hash : Text → ℕ) (time_hash : ℕ) where
  -- Every strategy chooses one of the endpoints if there is any, and never panics.
  pub select_endpoint-ok :
      (xs : List Text) (strategy : LoadBalanceStrategy) (client : Option Text) (c : ℕ)
      → xs ≢ []
      → (e : Text) × ((i : ℕ) × (get_elem? xs i ≡ some e))
        × ((select_endpoint hash time_hash xs strategy client c).0 ≡ next e)
  unfolding select_endpoint
  select_endpoint-ok [] strategy client c h = absurd (h refl)
  select_endpoint-ok (x ∷ xs) strategy client c h = by_strategy strategy client
    where
      chosen :
          (i s : ℕ)
          → i < length (x ∷ xs)
          → (e : Text) × ((i : ℕ) × (get_elem? (x ∷ xs) i ≡ some e))
            × ((index {R = Option Text} (x ∷ xs) i s).0 ≡ next e)
      chosen i s lt =
          let (e, found, run) = index-ok {R = Option Text} (x ∷ xs) i s lt in
          (e, (i, found), ap (λ q. q.0) run)

      by_strategy :
          (strategy : LoadBalanceStrategy) (client : Option Text)
          → (e : Text) × ((i : ℕ) × (get_elem? (x ∷ xs) i ≡ some e))
            × ((select_endpoint hash time_hash (x ∷ xs) strategy client c).0 ≡ next e)
      by_strategy round_robin client = chosen (c % length (x ∷ xs)) _ (omega arith)
      by_strategy random client = chosen (time_hash % length (x ∷ xs)) c (omega arith)
      by_strategy ip_hash none = chosen 0 c (omega arith)
      by_strategy ip_hash (some ip) = chosen (hash ip % length (x ∷ xs)) c (omega arith)
      by_strategy least_connections client = chosen (c % length (x ∷ xs)) _ (omega arith)

  -- The counter after `i` calls for round robin.
  abbrev pub counter_after : List Text → ℕ → ℕ → ℕ
  counter_after xs zero c = c
  counter_after xs (suc i) c =
      (select_endpoint hash time_hash xs round_robin none (counter_after xs i c)).1

  counter_after-add :
      (x : Text) (xs : List Text) (i c : ℕ) → c + i < 2 ^ 64 → counter_after (x ∷ xs) i c ≡ c + i
  unfolding select_endpoint
  counter_after-add x xs zero c h = omega arith
  counter_after-add x xs (suc i) c h =
      let before = counter_after-add x xs i c (omega arith) in
      let n = counter_after (x ∷ xs) i c in
      let (e, found, run) =
        index-ok {R = Option Text} (x ∷ xs) (n % length (x ∷ xs)) ((n + 1) % 2 ^ 64)
          (omega arith) in
      ap (λ q. q.1) run ∙ omega (arith, before)

  -- Round robin is fair: from a counter that does not wrap on the way, each endpoint is chosen by one
  -- of as many calls as there are endpoints.
  pub round_robin_fair :
      (xs : List Text) (c j : ℕ)
      → c + length xs ≤ 2 ^ 64
      → j < length xs
      → (i : ℕ) × (i < length xs)
        × ((e : Text) × (get_elem? xs j ≡ some e)
            × ((select_endpoint hash time_hash xs round_robin none (counter_after xs i c)).0
                ≡ next e))
  unfolding select_endpoint
  round_robin_fair [] c j h lt = elim lt [ ]
  round_robin_fair (x ∷ xs) c j h lt =
      let (i, i_lt, turn) = turn_of c (length (x ∷ xs)) j lt in
      let at_i = counter_after-add x xs i c (omega arith) in
      let (e, found, run) =
        index-ok {R = Option Text} (x ∷ xs) j ((counter_after (x ∷ xs) i c + 1) % 2 ^ 64) lt in
      let here : counter_after (x ∷ xs) i c % length (x ∷ xs) ≡ j =
        ap (λ k. k % length (x ∷ xs)) at_i ∙ turn in
      (
        i,
        i_lt,
        (
          e,
          found,
          ap
                (λ k.
                  (index {R = Option Text} (x ∷ xs) k
                    ((counter_after (x ∷ xs) i c + 1) % 2 ^ 64)).0)
                here
              ∙ ap (λ q. q.0) run,
        ),
      )
