-- ===== src/Cache/Redis/Histories.antt =====
-- The Redis cache over any history of its methods, some of which may fail.
use mini_api_gateway.Common.{
  ◌≡◌, ◌≢◌, refl, subst, ◌⊎◌, inl, inr, Bool, false, none, some, List, [], ◌∷◌, Text, ok,
  map_err-eq-ok,
}
use mini_api_gateway.Error.{GatewayError}
use mini_api_gateway.Cache.{CachedResponse}
use mini_api_gateway.Cache.Memory.{Call, get, set, delete, clear}
use mini_api_gateway.Cache.Redis.{
  RedisLib, RedisState, get_conn, serialize, redis_get, redis_set, redis_delete, redis_clear,
}
use mini_api_gateway.Cache.Redis.Commands.{
  is_ok, get_conn-stored, get-stored, set-stored, del-stored, flush-stored, redis_get_sound,
}

-- The values that a key may have after a history of calls, newest first, each with whether it
-- succeeded: one that was set for the key, where no later call that succeeded has set, deleted or
-- cleared it.
unfoldable pub MayHold : Text → List (Call × Bool) → CachedResponse → Type 0
MayHold j [] v = ⊥
MayHold j ((get k, done) ∷ h) v = MayHold j h v
MayHold j ((delete k, done) ∷ h) v = ((done ≡ false) ⊎ (k ≢ j)) × MayHold j h v
MayHold j ((set k u ttl, done) ∷ h) v =
    ((k ≡ j) × (v ≡ u)) ⊎ (((done ≡ false) ⊎ (k ≢ j)) × MayHold j h v)
MayHold j ((clear, done) ∷ h) v = (done ≡ false) × MayHold j h v

module _ (lib : RedisLib) where
  open lib use {Client, Conn, Server, stored}

  -- A call's effect, and whether it succeeded.
  unfoldable pub step : Client → Call → RedisState lib → Bool × RedisState lib
  step client (get k) s = let (r, s') = redis_get lib client s k in (is_ok r, s')
  step client (set k v ttl) s = let (r, s') = redis_set lib client s k v ttl in (is_ok r, s')
  step client (delete k) s = let (r, s') = redis_delete lib client s k in (is_ok r, s')
  step client clear s = let (r, s') = redis_clear lib client s in (is_ok r, s')

  -- The state after a history, newest first, from a server without a connection, and the record of
  -- what succeeded.
  unfoldable pub run : Client → Server → List Call → RedisState lib × List (Call × Bool)
  run client server [] = (record { conn = none; server = server }, [])
  run client server (call ∷ calls) =
      let (s, trace) = run client server calls in
      let (done, s') = step client call s in (s', (call, done) ∷ trace)

  -- A stored value is the text of one that the key may have.
  abbrev Held : Text → Text → List (Call × Bool) → Type 0
  Held j u h = (v : CachedResponse) × MayHold j h v × (lib.from_slice u ≡ ok v)

  serialized : (v : CachedResponse) (u : Text) → serialize lib v ≡ ok u → lib.from_slice u ≡ ok v
  unfolding serialize
  serialized v u e =
      lib.from_slice-to_vec v u (map_err-eq-ok GatewayError.serialization (lib.to_vec v) e)

  module _ (client : Client) (s : RedisState lib) (trace : List (Call × Bool))
      (before : (j u : Text) → stored s.server j ≡ some u → Held j u trace) where
    step-Held :
        (call : Call) (j u : Text)
        → stored (step client call s).1.server j ≡ some u
        → Held j u ((call, (step client call s).0) ∷ trace)
    unfolding step redis_get redis_set redis_delete redis_clear MayHold
    step-Held (get k) j u h =
        let old = get-stored lib j u k (get_conn lib client s).0 (get_conn lib client s).1 h in
        before j u (get_conn-stored lib client s j u old)
    step-Held (delete k) j u h =
        let (kept, old) =
          del-stored lib j u k (get_conn lib client s).0 (get_conn lib client s).1 h in
        let (v, held, reads) = before j u (get_conn-stored lib client s j u old) in
        (v, (kept, held), reads)
    step-Held (set k v ttl) j u h =
        elim (set-stored lib j u k (serialize lib v) ttl (get_conn lib client s).0
          (get_conn lib client s).1 h) [
            | inl (same, is) ↦ (v, inl (same, refl), serialized v u is)
            | inr (kept, old) ↦
                let (x, held, reads) = before j u (get_conn-stored lib client s j u old) in
                (x, inr (kept, held), reads)
          ]
    step-Held clear j u h =
        let (failed, old) =
          flush-stored lib j u (get_conn lib client s).0 (get_conn lib client s).1 h in
        let (v, held, reads) = before j u (get_conn-stored lib client s j u old) in
        (v, (failed, held), reads)

  run-Held :
      (client : Client) (server : Server) (calls : List Call)
      → ((j : Text) → stored server j ≡ none)
      → (j u : Text) → stored (run client server calls).0.server j ≡ some u
      → Held j u (run client server calls).1
  unfolding run
  run-Held client server [] fresh j u h = cc (fresh j)
  run-Held client server (call ∷ calls) fresh j u h =
      let (s, trace) = run client server calls in
      step-Held client s trace (run-Held client server calls fresh) call j u h

  -- After any history of calls, of which some may have failed, on a server that was empty and is used
  -- by nobody else: a value that the Redis cache answers for a key was set for it, and no later call
  -- that succeeded has set, deleted or cleared it. So it is never stale by more than calls that failed.
  pub redis_get-run :
      (client : Client) (server : Server) (calls : List Call) (key : Text) {v : CachedResponse}
      → ((j : Text) → stored server j ≡ none)
      → (redis_get lib client (run client server calls).0 key).0 ≡ ok (some v)
      → MayHold key (run client server calls).1 v
  redis_get-run client server calls key {v} fresh h =
      let (u, holds, reads) = redis_get_sound lib client (run client server calls).0 key v h in
      let (x, held, same) = run-Held client server calls fresh key u holds in
      let is : x ≡ v = cc in subst (MayHold key (run client server calls).1) is held
