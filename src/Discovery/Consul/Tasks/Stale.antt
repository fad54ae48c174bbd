-- ===== src/Discovery/Consul/Tasks/Stale.antt =====
-- src/discovery/consul.rs: a call of `resolve` that writes its answer after a round of the background task.
use mini_api_gateway.Common.{◌≡◌, refl, sym, ap, some, List, [], ◌∷◌, Memᴰ, Text, Result, ok}
use mini_api_gateway.Discovery.Shared.{QueryClient, lookup, put, lookup-put, first_cached}
use mini_api_gateway.Discovery.Consul.{
  ConsulDiscovery, ConsulService, health_check, learn, refreshed,
}
use mini_api_gateway.Discovery.Consul.Tasks.{
  resolving, refreshing, Task, holding, Tasks, called, call, tick, reply, write, Step, calls, ticks,
  replies, writes, Reach, later,
}

module _ (client : QueryClient) (services : Text → Result Text (List ConsulService))
    (d : ConsulDiscovery) where
  open client use {Net}

  -- A round of the background task from its query to its update, while nothing else happens.
  pub record Round (s t : Tasks Net) : Type 0 where
    pub asked : Tasks Net
    pub replied : Tasks Net
    pub asks : Step client services d s asked
    pub hears : Step client services d asked replied
    pub updates : Step client services d replied t

  -- What comes of a call that holds the answer `e ∷ es` while a round finds `found`.
  pub record Overwrites (name e : Text) (es found : List Text) (s : Tasks Net) : Type 0 where
    pub fresh : Tasks Net
    pub stale : Tasks Net
    pub next_call : Tasks Net
    pub round : Round s fresh
    pub found_listed : lookup name fresh.shared.endpoints ≡ some found
    pub late_write : Step client services d fresh stale
    pub old_listed : lookup name stale.shared.endpoints ≡ some (e ∷ es)
    pub call_again : Step client services d stale next_call
    pub reached : Reach client services d next_call
    pub answers : next_call.answers ≡ (name, ok e) ∷ (name, ok e) ∷ s.answers

  first-put :
      (name e : Text) (es : List Text) (t : List (Text × List Text))
      → first_cached (lookup name (put name (e ∷ es) t)) ≡ some e
  unfolding first_cached
  first-put name e es t = ap first_cached (lookup-put name (e ∷ es) t)

  -- In a reachable state where a call of `resolve` holds the answer to its query and has not written
  -- it, and Consul now answers a query for that watched name with `found`, this can happen: a whole
  -- round of the background task passes, after which the table has `found` for the name; then the
  -- call writes, after which the table has the call's older endpoints in place of `found`; and the
  -- next call answers with the first of the older ones without a query.
  pub write-stale :
      (name e : Text) (es found : List Text) (rest : List Task) (s : Tasks Net)
      → Reach client services d s
      → s.tasks ≡ holding resolving name (ok (e ∷ es)) ∷ rest
      → Memᴰ name s.shared.watched
      → (health_check client services d name s.shared).0 ≡ ok found
      → Overwrites name e es found s
  unfolding tick reply write called call learn refreshed
  write-stale name e es found rest s reach holds watched answer =
      let asked = tick client services d name s in
      let replied = reply client services d [] s.tasks refreshing name asked in
      let fresh = write client services d s.tasks refreshing name (ok found) replied in
      let stale = write client services d rest resolving name (ok (e ∷ es)) fresh in
      let next_call = called client services d name (some e) stale in
      let asks : Step client services d s asked = ticks name watched refl in
      let hears : Step client services d asked replied =
        replies [] s.tasks refreshing name refl refl in
      let updates : Step client services d replied fresh =
        writes [] s.tasks refreshing name (ok found)
          (ap (λ r. holding refreshing name r ∷ s.tasks) answer) refl in
      let late_write : Step client services d fresh stale =
        writes [] rest resolving name (ok (e ∷ es)) holds refl in
      let call_again : Step client services d stale next_call =
        calls name
          (ap (λ o. called client services d name o stale) (sym (first-put name e es _))) in
      record {
        fresh = fresh;
        stale = stale;
        next_call = next_call;
        round = record {
          asked = asked;
          replied = replied;
          asks = asks;
          hears = hears;
          updates = updates;
        };
        found_listed = lookup-put name found _;
        late_write = late_write;
        old_listed = lookup-put name (e ∷ es) _;
        call_again = call_again;
        reached =
            later (later (later (later (later reach asks) hears) updates) late_write) call_again;
        answers = refl;
      }
