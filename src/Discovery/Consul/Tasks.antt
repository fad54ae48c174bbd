-- ===== src/Discovery/Consul/Tasks.antt =====
-- src/discovery/consul.rs: calls of `resolve` and rounds of the background tasks that overlap. Each
-- is split where it awaits: the look-up under the read lock, the query, and the update under
-- the write lock.
pub mod Overlap
pub mod Stale
use mini_api_gateway.Common.{◌≡◌, Option, none, some, List, [], ◌∷◌, ◌++◌, Memᴰ, Text, Result, ok}
use mini_api_gateway.Error.{GatewayError}
use mini_api_gateway.Discovery.Shared.{QueryClient, Shared, lookup, first_cached, watching}
use mini_api_gateway.Discovery.Shared
use mini_api_gateway.Discovery.Consul.{
  ConsulDiscovery, ConsulService, health_check, learn, refreshed,
}

-- Why a query is made.
pub data Purpose : Type 0 where
  resolving refreshing : Purpose

-- A call or a round that awaits the answer to its query, or has it and awaits the write lock.
pub data Task : Type 0 where
  asking : Purpose → (name : Text) → Task
  holding : Purpose → (name : Text) → Result GatewayError (List Text) → Task

-- The shared state, the calls and rounds that have not ended, and what the calls of `resolve` have
-- answered, newest first.
pub record Tasks (Net : Type 0) : Type 0 where
  pub shared : Shared Net
  pub tasks : List Task
  pub answers : List (Text × Result GatewayError Text)

module _ (client : QueryClient) (services : Text → Result Text (List ConsulService))
    (d : ConsulDiscovery) where
  open client use {Net}

  -- A call of `resolve` until its first await: a cached endpoint, or a query.
  unfoldable pub called : (name : Text) → Option Text → Tasks Net → Tasks Net
  called name (some e) s = record s { answers = (name, ok e) ∷ s.answers }
  called name none s = record s { tasks = asking resolving name ∷ s.tasks }

  unfoldable pub call : (name : Text) → Tasks Net → Tasks Net
  unfolding called
  call name s = called name (first_cached (lookup name s.shared.endpoints)) s

  -- A round of the background task for a name, until its query.
  unfoldable pub tick : (name : Text) → Tasks Net → Tasks Net
  tick name s = record s { tasks = asking refreshing name ∷ s.tasks }

  -- The answer to a query, where the tasks before and behind are others.
  unfoldable pub reply : (pre post : List Task) → Purpose → (name : Text) → Tasks Net → Tasks Net
  reply pre post purpose name s =
      let (r, shared) = health_check client services d name s.shared in
      record s { shared = shared; tasks = pre ++ holding purpose name r ∷ post }

  abbrev answered :
      (rest : List Task)
      → (name : Text) → Tasks Net
      → Result GatewayError Text × Shared Net
      → Tasks Net
  answered rest name s (a, shared) = record s {
    shared = shared;
    tasks = rest;
    answers = (name, a) ∷ s.answers;
  }

  -- What is done with it: a call of `resolve` answers, and both update the table.
  unfoldable pub write :
      (rest : List Task)
      → Purpose
      → (name : Text) → Result GatewayError (List Text)
      → Tasks Net
      → Tasks Net
  write rest resolving name r s = answered rest name s (learn client services name (r, s.shared))
  write rest refreshing name r s = record s {
    shared = refreshed client services name (r, s.shared);
    tasks = rest;
  }

  -- What can happen next. A call of `resolve` is dropped with the request that it is for. The network
  -- changes by itself.
  pub data Step (s t : Tasks Net) : Type 0 where
    calls : (name : Text) → t ≡ call name s → Step s t
    watches : (name : Text) → t ≡ record s { shared = watching name s.shared } → Step s t
    ticks : (name : Text) → Memᴰ name s.shared.watched → t ≡ tick name s → Step s t
    replies :
        (pre post : List Task) (purpose : Purpose) (name : Text)
        → s.tasks ≡ pre ++ asking purpose name ∷ post
        → t ≡ reply pre post purpose name s
        → Step s t
    writes :
        (pre post : List Task) (purpose : Purpose) (name : Text)
        (r : Result GatewayError (List Text))
        → s.tasks ≡ pre ++ holding purpose name r ∷ post
        → t ≡ write (pre ++ post) purpose name r s
        → Step s t
    drops :
        (pre post : List Task) (task : Task)
        → s.tasks ≡ pre ++ task ∷ post
        → t ≡ record s { tasks = pre ++ post }
        → Step s t
    elsewhere : (net : Net) → t ≡ record s { shared = record s.shared { net = net } } → Step s t

  abbrev pub begin : Net → Tasks Net
  begin net = record { shared = Shared.start net; tasks = []; answers = [] }

  -- The states that can be reached.
  pub data Reach : Tasks Net → Type 0 where
    started : (net : Net) → Reach (begin net)
    later : {r s : Tasks Net} → Reach r → Step r s → Reach s
