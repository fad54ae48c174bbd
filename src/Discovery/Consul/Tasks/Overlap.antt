-- ===== src/Discovery/Consul/Tasks/Overlap.antt =====
-- What overlapping calls of the Consul discovery answer.
use mini_api_gateway.Common.{
  ◌≡◌, refl, sym, subst, Option, none, some, List, [], ◌∷◌, ◌++◌, All, Memᴰ, Text, Result, ok, err,
  ok-injective,
}
use mini_api_gateway.Error.{GatewayError}
use mini_api_gateway.Discovery.Shared.{QueryClient, Shared, AreAddresses, first_cached-IsAddress}
use mini_api_gateway.Discovery.Consul.{ConsulDiscovery, ConsulService, learn}
use mini_api_gateway.Discovery.Consul.Reach.{
  IsHttpAddress, health_check_sound, check_keeps, learn_keeps, refreshed_keeps,
}
use mini_api_gateway.Discovery.Consul.Tasks.{
  Purpose, resolving, refreshing, Task, asking, holding, Tasks, called, call, tick, reply, write,
  Step, calls, watches, ticks, replies, writes, drops, elsewhere, Reach, started, later,
}

All_replaced :
    {A : Type 0} (P : A → Type 0) (pre post : List A) (x y : A)
    → All P (pre ++ x ∷ post)
    → P y
    → All P (pre ++ y ∷ post)
All_replaced P [] post x y h k = (k, h.1)
All_replaced P (z ∷ pre) post x y h k = (h.0, All_replaced P pre post x y h.1 k)

All_without :
    {A : Type 0} (P : A → Type 0) (pre post : List A) (x : A)
    → All P (pre ++ x ∷ post)
    → P x × All P (pre ++ post)
All_without P [] post x h = h
All_without P (z ∷ pre) post x h = let (k, rest) = All_without P pre post x h.1 in (k, (h.0, rest))

All_member : {A : Type 0} (P : A → Type 0) (x : A) (xs : List A) → Memᴰ x xs → All P xs → P x
All_member P x [] m h = elim m [ ]
All_member P x (y ∷ xs) (Memᴰ.head e) h = subst P (sym e) h.0
All_member P x (y ∷ xs) (Memᴰ.tail m) h = All_member P x xs m h.1

-- A query that was answered holds addresses.
abbrev TaskHolds : Task → Type 0
TaskHolds (asking purpose name) = Unit {0}
TaskHolds (holding purpose name (ok es)) = All IsHttpAddress es
TaskHolds (holding purpose name (err e)) = Unit {0}

-- What a call answered, if it is no error, is an address.
abbrev Answers : Text × Result GatewayError Text → Type 0
Answers (name, ok e) = IsHttpAddress e
Answers (name, err e) = Unit {0}

-- All that the table, the tasks and the answers hold are addresses.
pub record IsSafe {Net : Type 0} (s : Tasks Net) : Type 0 where
  pub table : AreAddresses IsHttpAddress s.shared.endpoints
  pub tasks : All TaskHolds s.tasks
  pub answers : All Answers s.answers

module _ (client : QueryClient) (services : Text → Result Text (List ConsulService))
    (d : ConsulDiscovery) where
  open client use {Net}

  called-IsSafe :
      (name : Text) (o : Option Text) (s : Tasks Net)
      → ((e : Text) → o ≡ some e → IsHttpAddress e)
      → IsSafe s
      → IsSafe (called client services d name o s)
  unfolding called
  called-IsSafe name none s f h = record {
    table = h.table;
    tasks = (tt, h.tasks);
    answers = h.answers;
  }
  called-IsSafe name (some e) s f h = record {
    table = h.table;
    tasks = h.tasks;
    answers = (f e refl, h.answers);
  }

  found_holds :
      (purpose : Purpose) (name : Text) (r : Result GatewayError (List Text))
      → ((es : List Text) → r ≡ ok es → All IsHttpAddress es)
      → TaskHolds (holding purpose name r)
  found_holds purpose name (ok es) f = f es refl
  found_holds purpose name (err e) f = tt

  holds_found :
      (purpose : Purpose) (name : Text) (r : Result GatewayError (List Text))
      → TaskHolds (holding purpose name r)
      → (es : List Text) → r ≡ ok es
      → All IsHttpAddress es
  holds_found purpose name (ok xs) h es e = subst (All IsHttpAddress) (ok-injective e) h
  holds_found purpose name (err x) h es e = cc

  learn-Answers :
      (name : Text) (r : Result GatewayError (List Text)) (s : Shared Net)
      → ((es : List Text) → r ≡ ok es → All IsHttpAddress es)
      → Answers (name, (learn client services name (r, s)).0)
  unfolding learn
  learn-Answers name (err e) s f = tt
  learn-Answers name (ok []) s f = tt
  learn-Answers name (ok (e ∷ es)) s f = (f (e ∷ es) refl).0

  write-IsSafe :
      (rest : List Task) (purpose : Purpose) (name : Text) (r : Result GatewayError (List Text))
      (s : Tasks Net)
      → TaskHolds (holding purpose name r)
      → All TaskHolds rest
      → IsSafe s
      → IsSafe (write client services d rest purpose name r s)
  unfolding write
  write-IsSafe rest resolving name r s k others h =
      let found = holds_found resolving name r k in
      record {
        table = learn_keeps client services d name r s.shared found h.table;
        tasks = others;
        answers = (learn-Answers name r s.shared found, h.answers);
      }
  write-IsSafe rest refreshing name r s k others h = record {
    table =
        refreshed_keeps client services d name r s.shared (holds_found refreshing name r k) h.table;
    tasks = others;
    answers = h.answers;
  }

  Step-IsSafe : (s t : Tasks Net) → Step client services d s t → IsSafe s → IsSafe t
  unfolding call tick reply
  Step-IsSafe s t (calls name e) h = subst IsSafe (sym e) (
      called-IsSafe name _ s
        (λ x. first_cached-IsAddress IsHttpAddress name s.shared.endpoints x h.table) h)
  Step-IsSafe s t (watches name e) h =
      subst IsSafe (sym e) (record { table = h.table; tasks = h.tasks; answers = h.answers })
  Step-IsSafe s t (ticks name m e) h =
      subst IsSafe (sym e) (record { table = h.table; tasks = (tt, h.tasks); answers = h.answers })
  Step-IsSafe s t (replies pre post purpose name l e) h = subst IsSafe (sym e) (record {
    table = check_keeps client services d name s.shared h.table;
    tasks =
        All_replaced TaskHolds pre post (asking purpose name) _ (subst (All TaskHolds) l h.tasks)
          (found_holds purpose name _ (health_check_sound client services d name s.shared));
    answers = h.answers;
  })
  Step-IsSafe s t (writes pre post purpose name r l e) h =
      let (k, others) = All_without TaskHolds pre post _ (subst (All TaskHolds) l h.tasks) in
      subst IsSafe (sym e) (write-IsSafe (pre ++ post) purpose name r s k others h)
  Step-IsSafe s t (drops pre post task l e) h =
      let (k, others) = All_without TaskHolds pre post task (subst (All TaskHolds) l h.tasks) in
      subst IsSafe (sym e) (record { table = h.table; tasks = others; answers = h.answers })
  Step-IsSafe s t (elsewhere net e) h =
      subst IsSafe (sym e) (record { table = h.table; tasks = h.tasks; answers = h.answers })

  Reach-IsSafe : {s : Tasks Net} → Reach client services d s → IsSafe s
  Reach-IsSafe (started net) = record { table = tt; tasks = tt; answers = tt }
  Reach-IsSafe (later reach step) = Step-IsSafe _ _ step (Reach-IsSafe reach)

  -- In every interleaving of overlapping calls of `resolve`, rounds of the background tasks, changes
  -- of the network and dropped calls, an address that a call answers is `http://`, a host that is
  -- not empty, and a port.
  pub answers-IsHttpAddress :
      {s : Tasks Net} (name e : Text)
      → Reach client services d s
      → Memᴰ (name, ok e) s.answers
      → IsHttpAddress e
  answers-IsHttpAddress {s} name e reach m =
      All_member Answers (name, ok e) s.answers m (Reach-IsSafe reach).answers
