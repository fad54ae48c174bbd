-- ===== src/Tests/Storage.antt =====
-- The cache and the connection pool at concrete calls.
use mini_api_gateway.Common.{
  ◌≡◌, ◌≤◌, ◌⊎◌, Option, none, some, List, [], ◌∷◌, length, text, Text, ok,
}
use mini_api_gateway.Cache.{CachedResponse}
use mini_api_gateway.Cache.Memory.{Call, last_set, memory_get, memory_get-run}
use mini_api_gateway.Cache.Memory
use mini_api_gateway.Pool.{ConnectionPool, PooledConnection, get_connection}
use mini_api_gateway.Pool
use mini_api_gateway.Pool.Reuse.{IsPruned, Gets, get_connection-Gets}
use mini_api_gateway.Pool.Histories
use mini_api_gateway.Pool.Histories.{run-new}
use mini_api_gateway.Tests.Libraries.{keeps_all}
use mini_api_gateway.Tests.Setting.{localhost}

abbrev page : CachedResponse
page = record { status = 200; headers = []; body = text "hi" }

abbrev calls : List Call
calls = Call.get (text "k") ∷ Call.set (text "k") page 60 ∷ Call.delete (text "k") ∷ []

memory_get-run_example :
    (o : Option CachedResponse) × ((memory_get keeps_all
        (Memory.run keeps_all none calls)
        (text "k")).0
      ≡ ok o)
    × ((o ≡ none) ⊎ (o ≡ last_set (text "k") calls))
memory_get-run_example = memory_get-run keeps_all none calls (text "k")

abbrev socket : Text
socket = text "s"

abbrev old : PooledConnection
old = record { addr = localhost; created_at = 1; last_used = 5 }

abbrev one_listed : ConnectionPool
one_listed = record { max_connections = 1; idle_timeout = 10; connections = old ∷ [] }

get_connection-Gets_example :
    (live : List PooledConnection) × IsPruned 9 10 (old ∷ []) live
    × Gets localhost 9 9 9
        (some socket)
        one_listed
        live
        (get_connection localhost 9 9 9 (some socket) one_listed)
get_connection-Gets_example = get_connection-Gets localhost 9 9 9 (some socket) one_listed

abbrev pool_calls : List Histories.Call
pool_calls = Histories.Call.give localhost 4 4 ∷ []

run-new_example :
    (length (Histories.run pool_calls (Pool.new 2 10)).connections ≤ 2)
    × ((Histories.run pool_calls (Pool.new 2 10)).max_connections ≡ 2)
    × ((Histories.run pool_calls (Pool.new 2 10)).idle_timeout ≡ 10)
run-new_example = run-new 2 10 pool_calls
