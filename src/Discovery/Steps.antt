-- ===== src/Discovery/Steps.antt =====
-- What the callers of a discovery, its background tasks and the network can do with the shared state,
-- in any order: a step relation, and what every reachable state keeps.
use mini_api_gateway.Common.{◌≡◌, List, Memᴰ, Text, Result}
use mini_api_gateway.Error.{GatewayError}
use mini_api_gateway.Discovery.Shared.{Shared, start, watching, AreAddresses}

module _ {Net : Type 0} (resolve : Text → Shared Net → Result GatewayError Text × Shared Net)
    (health_check : Text → Shared Net → Result GatewayError (List Text) × Shared Net)
    (tick : Text → Shared Net → Shared Net) where
  -- A background task ticks only for a name that is watched. The network changes by itself.
  pub data Step (s t : Shared Net) : Type 0 where
    resolved : (name : Text) → t ≡ (resolve name s).1 → Step s t
    checked : (name : Text) → t ≡ (health_check name s).1 → Step s t
    watched : (name : Text) → t ≡ watching name s → Step s t
    ticked : (name : Text) → Memᴰ name s.watched → t ≡ tick name s → Step s t
    elsewhere : (net : Net) → t ≡ record s { net = net } → Step s t

  -- The states that can be reached from the start.
  pub data Reach : Shared Net → Type 0 where
    started : (net : Net) → Reach (start net)
    later : {r s : Shared Net} → Reach r → Step r s → Reach s

  module _ (IsAddress : Text → Type 0)
      (resolve_keeps : (name : Text) (s : Shared Net)
        → AreAddresses IsAddress s.endpoints
        → AreAddresses IsAddress (resolve name s).1.endpoints)
      (check_keeps : (name : Text) (s : Shared Net)
        → AreAddresses IsAddress s.endpoints
        → AreAddresses IsAddress (health_check name s).1.endpoints)
      (tick_keeps : (name : Text) (s : Shared Net)
        → AreAddresses IsAddress s.endpoints
        → AreAddresses IsAddress (tick name s).endpoints) where
    Step-AreAddresses :
        (s t : Shared Net)
        → Step s t
        → AreAddresses IsAddress s.endpoints
        → AreAddresses IsAddress t.endpoints
    Step-AreAddresses s t (resolved name e) h = rw e (resolve_keeps name s h)
    Step-AreAddresses s t (checked name e) h = rw e (check_keeps name s h)
    Step-AreAddresses s t (watched name e) h = rw e h
    Step-AreAddresses s t (ticked name m e) h = rw e (tick_keeps name s h)
    Step-AreAddresses s t (elsewhere net e) h = rw e h

    -- In every reachable state, all endpoints in the table are addresses.
    pub Reach-AreAddresses : {s : Shared Net} → Reach s → AreAddresses IsAddress s.endpoints
    Reach-AreAddresses (started net) = tt
    Reach-AreAddresses (later reach step) = Step-AreAddresses _ _ step (Reach-AreAddresses reach)
