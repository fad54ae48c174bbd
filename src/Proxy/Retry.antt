-- ===== src/Proxy/Retry.antt =====
-- The loop of `execute_with_retry`: how often it sends, how long it waits, and what it answers.
use mini_api_gateway.Common.{
  ℕ, zero, suc, ◌+◌, ◌*◌, ◌/◌, ◌≤◌, ◌<◌, ◌≡◌, refl, sym, ap, ◌⊎◌, inl, inr, true, ◌&&◌, Option,
  none, some, List, [], ◌∷◌, ◌++◌, replicate, ltb, arith, Bool-cases, Text, Result, ok, err, Flow,
  next, stop, panic, ◌>>◌, ◌^◌, text, decimal,
}
use mini_api_gateway.Config.{RetryConfig}
use mini_api_gateway.Error.{GatewayError, proxy, upstream_unavailable}
use mini_api_gateway.Http.{is_server_error}
use mini_api_gateway.Client.{ProxyRequest, Upstream}
use mini_api_gateway.Platform.{Platform, World}
use mini_api_gateway.Proxy.{
  Proxy, backoff_overflow, failed_after, max_attempts, backoff_of, send_request, back_off, settle,
  attempts, execute_with_retry,
}

-- The pauses after the first `k` tries, newest first: each a multiple of the back-off.
unfoldable pub pauses : Option ℕ → ℕ → List ℕ
pauses none k = []
pauses (some ms) zero = []
pauses (some ms) (suc k) = ms * suc k ∷ pauses (some ms) k

pauses-zero : (b : Option ℕ) → pauses b 0 ≡ []
unfolding pauses
pauses-zero none = refl
pauses-zero (some ms) = refl

-- The answer to a try is no reason to end the loop: the sending failed, or the upstream failed.
abbrev pub IsFailed : {H : Type 0} → Result Text (Upstream H) → Type 0
IsFailed (ok up) = (500 ≤ up.status) × (up.status < 600)
IsFailed (err m) = Unit {0}

module _ (p : Platform) (r : ProxyRequest p.http.HeaderMap) (timeout : Option ℕ)
    (w0 : World p) where
  open p.client use {Net, send}

  -- The network after the first `k` tries, each of which sends the same request.
  unfoldable pub net_after : ℕ → Net
  net_after zero = w0.net
  net_after (suc k) = (send r timeout (net_after k)).1

  -- What sending answers after the first `k` tries.
  abbrev pub reply : ℕ → Result Text (Upstream p.http.HeaderMap)
  reply k = (send r timeout (net_after k)).0

  -- Each of the first `k` tries has failed.
  abbrev pub AllFailed : ℕ → Type 0
  AllFailed zero = Unit
  AllFailed (suc k) = AllFailed k × IsFailed (reply k)

module _ (p : Platform) (r : ProxyRequest p.http.HeaderMap) (backoff timeout : Option ℕ) (max : ℕ)
    (w0 : World p) where
  open p.http use {HeaderMap}

  -- The world after `tries` tries and `waits` pauses: nothing else has changed.
  pub record After (tries waits : ℕ) (w : World p) : Type 0 where
    pub sent : w.sent ≡ replicate tries r ++ w0.sent
    pub slept : w.slept ≡ pauses backoff waits ++ w0.slept
    pub net : w.net ≡ net_after p r timeout w0 tries
    pub limiter : w.limiter ≡ w0.limiter
    pub cache : w.cache ≡ w0.cache
    pub discovery : w.discovery ≡ w0.discovery
    pub metrics : w.metrics ≡ w0.metrics

  -- Why the loop ends with this after `k` tries and one more.
  abbrev pub Justified : ℕ → Flow GatewayError (Upstream HeaderMap) → Type 0
  Justified k (next up) =
      (reply p r timeout w0 k ≡ ok up) × ((up.status < 500) ⊎ ((600 ≤ up.status) ⊎ (suc k ≡ max)))
  Justified k (stop e) =
      (suc k ≡ max)
      × ((m : Text) × (reply p r timeout w0 k ≡ err m)
          × (e
              ≡ proxy (text "Request failed after " ++ (decimal max ++ (text " attempts: " ++ m)))))
  Justified k panic =
      (suc k < max)
      × IsFailed (reply p r timeout w0 k)
      × ((ms : ℕ) × (backoff ≡ some ms) × (2 ^ 64 ≤ ms * suc k / 1000))

  abbrev pub Ends : Flow GatewayError (Upstream HeaderMap) × World p → Type 0
  Ends res =
      (k : ℕ) × (suc k ≤ max)
      × AllFailed p r timeout w0 k
      × After (suc k) k res.1
      × Justified k res.0

  -- The pause after a try, or the panic where it is too long to be represented.
  abbrev Pauses : ℕ → World p → Flow GatewayError (Unit {0}) × World p → Type 0
  Pauses k w res =
      ((w' : World p) × (res ≡ (next tt, w')) × After (suc k) (suc k) w')
      ⊎ ((res ≡ (panic, w))
          × ((ms : ℕ) × (backoff ≡ some ms) × (backoff_overflow ≤ ms * suc k / 1000)))

back_off-Pauses :
    (p : Platform) (r : ProxyRequest p.http.HeaderMap) (backoff timeout : Option ℕ) (max : ℕ)
    (w0 w : World p) (k : ℕ)
    → After p r backoff timeout max w0 (suc k) k w
    → Pauses p r backoff timeout max w0 k w (back_off p backoff (suc k) w)
unfolding back_off pauses
back_off-Pauses p r none timeout max w0 w k a = inl (
  w,
  refl,
  record {
    sent = a.sent;
    slept = a.slept;
    net = a.net;
    limiter = a.limiter;
    cache = a.cache;
    discovery = a.discovery;
    metrics = a.metrics;
  },
)
back_off-Pauses p r (some ms) timeout max w0 w k a =
    elim (Bool-cases (ltb (ms * suc k / 1000) backoff_overflow)) [
      | inl short ↦ rw short (
          inl (
            record w { slept = ms * suc k ∷ w.slept },
            refl,
            record {
              sent = a.sent;
              slept = ap (◌∷◌ (ms * suc k)) a.slept;
              net = a.net;
              limiter = a.limiter;
              cache = a.cache;
              discovery = a.discovery;
              metrics = a.metrics;
            },
          ))
      | inr long ↦ rw long (inr (refl, (ms, refl, ground arith)))
    ]

module _ (p : Platform) (r : ProxyRequest p.http.HeaderMap) (backoff timeout : Option ℕ) (max : ℕ)
    (w0 : World p) where
  open p.http use {HeaderMap}

  module _ (k : ℕ) (rest : Proxy p (Upstream HeaderMap)) (w : World p) (room : suc k ≤ max)
      (before : AllFailed p r timeout w0 k) (a : After p r backoff timeout max w0 (suc k) k w)
      (again : (w' : World p)
        → AllFailed p r timeout w0 (suc k)
        → After p r backoff timeout max w0 (suc k) (suc k) w'
        → suc k < max
        → Ends p r backoff timeout max w0 (rest w')) where
    retry-Ends :
        IsFailed (reply p r timeout w0 k)
        → suc k < max
        → Ends p r backoff timeout max w0 ((back_off p backoff (suc k) >> rest) w)
    retry-Ends f more = elim (back_off-Pauses p r backoff timeout max w0 w k a) [
      | inl (w', e, a') ↦ rw e (again w' (before, f) a' more)
      | inr (e, j) ↦ rw e (k, room, before, a, (more, f, j))
    ]

    settle-Ends :
        (answer : Result Text (Upstream HeaderMap))
        → reply p r timeout w0 k ≡ answer
        → Ends p r backoff timeout max w0 (settle p r backoff timeout max (suc k) rest answer w)
    unfolding settle failed_after
    settle-Ends (ok up) said = elim (Bool-cases (is_server_error up.status && ltb (suc k) max)) [
      | inl retried ↦ rw retried (retry-Ends (rw said (ground arith, ground arith)) (ground arith))
      | inr done ↦ rw done (k, room, before, a, (said, ground arith))
    ]
    settle-Ends (err m) said = elim (Bool-cases (ltb (suc k) max)) [
      | inl retried ↦ rw retried (retry-Ends (rw said tt) (ground arith))
      | inr done ↦ rw done (k, room, before, a, (ground arith, (m, said, refl)))
    ]

  attempts-Ends :
      p.client.try_clone r ≡ some r
      → (rounds k attempt : ℕ) (w : World p) → attempt ≡ suc k
      → k + rounds ≡ max
      → 0 < rounds
      → AllFailed p r timeout w0 k
      → After p r backoff timeout max w0 k k w
      → Ends p r backoff timeout max w0 (attempts p r backoff timeout max rounds attempt w)
  unfolding attempts send_request net_after
  attempts-Ends clone zero k attempt w e s h b a = absurd (omega arith)
  attempts-Ends clone (suc n) k attempt w e s h b a =
      let (answer, net') = p.client.send r timeout w.net in
      rw (clone, e)
        (settle-Ends k (attempts p r backoff timeout max n (suc k + 1))
          (record w { net = net'; sent = r ∷ w.sent }) (omega arith) b
          (record {
            sent = ap (◌∷◌ r) a.sent;
            slept = a.slept;
            net = ap (λ x. (p.client.send r timeout x).1) a.net;
            limiter = a.limiter;
            cache = a.cache;
            discovery = a.discovery;
            metrics = a.metrics;
          })
          (λ w' b' a' more.
            attempts-Ends clone n (suc k) (suc k + 1) w' (omega arith) (omega arith) (omega arith)
              b' a')
          answer (sym (ap (λ x. (p.client.send r timeout x).0) a.net)))

-- With at least one attempt and a request that could be built, the loop ends after its `k`-th try
-- for a `k` of at most `max_attempts`, where each earlier try has failed: sending it did, or the
-- upstream answered with a status of 500 to 599. It has then sent the request `k` times and nothing
-- else, and has slept `k - 1` times, for the back-off times 1, 2, and so on; the network is as `k` tries
-- leave it, and all else is as before. If it answers with a response, that is what the `k`-th try
-- answered, and is no server error or the last attempt's; if with an error, the `k`-th try was the
-- last attempt, sending it failed, and the error tells the number of attempts and that failure. It
-- panics only where the `k`-th try has failed, is not the last attempt, and the product of the back-off
-- and `k` does not fit a duration.
pub execute_with_retry-Ends :
    (p : Platform) (r : ProxyRequest p.http.HeaderMap) (retry : Option RetryConfig)
    (timeout : Option ℕ) (w : World p)
    → p.client.valid_url r.url ≡ true
    → 0 < max_attempts retry
    → Ends p r
        (backoff_of retry)
        timeout
        (max_attempts retry)
        w
        (execute_with_retry p r retry timeout w)
unfolding execute_with_retry pauses net_after
execute_with_retry-Ends p r retry timeout w valid some_attempt =
    attempts-Ends p r (backoff_of retry) timeout (max_attempts retry) w
      (p.client.try_clone-valid r valid) (max_attempts retry) 0 1 w (omega arith) (omega arith)
      some_attempt tt
      (record {
        sent = refl;
        net = refl;
        slept = ap (λ l. l ++ w.slept) (sym (pauses-zero (backoff_of retry)));
        limiter = refl;
        cache = refl;
        discovery = refl;
        metrics = refl;
      })

-- With no attempt allowed, nothing is sent and the upstream counts as unavailable.
execute_with_retry-none :
    (p : Platform) (r : ProxyRequest p.http.HeaderMap) (retry : Option RetryConfig)
    (timeout : Option ℕ) (w : World p)
    → max_attempts retry ≡ 0
    → execute_with_retry p r retry timeout w ≡ (stop upstream_unavailable, w)
unfolding execute_with_retry attempts
execute_with_retry-none p r retry timeout w e = rw e refl
