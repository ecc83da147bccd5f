-- ===== src/PathCache/Tests.antt =====
-- The theorems on the cache of query results, applied to small caches.
use neural_file_system.Prelude.{◌≡◌, [], ◌∷◌, Bytes, some, arith}
use neural_file_system.PathCache.{ScoredPath, PathTtlCache, new, get, insert, entry_bytes}
use neural_file_system.PathCache.Bounds.{IsWithinBudget, new-IsWithinBudget, insert-IsWithinBudget}
use neural_file_system.PathCache.Lookup.{get-insert}

abbrev query : Bytes
query = 97 ∷ 98 ∷ []

abbrev result : ScoredPath
result = record { path = 47 ∷ 97 ∷ []; score = 1 }

-- Room for one result of this size, and a time to live of 300.
abbrev cache : PathTtlCache
cache = new 300 100

abbrev filled : PathTtlCache
filled = insert query (result ∷ []) 5 cache

insert-IsWithinBudget_example : IsWithinBudget filled
insert-IsWithinBudget_example =
    insert-IsWithinBudget query (result ∷ []) 5 cache (new-IsWithinBudget 300 100)

get-insert_example :
    ((get query 200 filled).0 ≡ some (result ∷ []))
    × ((get query 400 (get query 200 filled).1).0 ≡ some (result ∷ []))
unfolding new entry_bytes
get-insert_example =
    get-insert query result [] 5 200 400 cache (omega arith) (omega arith) (omega arith)
