-- ===== src/Edge/Cache/Examples.antt =====
-- The cache of the edge runtime at concrete calls.
use rfidsystem.Prelude.{◌+◌, ◌≤◌, ◌≡◌, refl, some, [], ◌∷◌, arith, length}
use rfidsystem.Edge.Cache.{
  EdgeCache, new_cache, initialize, find, erase, insert, store, minus, remove, oldest, evict_loop,
  evict_if_needed, put_entry, put, touch, get,
}
use rfidsystem.Edge.Cache.Sizes.{total, IsAccounted, entry}
use rfidsystem.Edge.Cache.Evictions.{Evicted, put_settles}
use rfidsystem.Edge.Cache.Histories.{puts, gets, removes, limits, step, run, run-IsAccounted}
use rfidsystem.Replay.Bytes.{Bytes}

abbrev two_bytes : Bytes
two_bytes = 1 ∷ 2 ∷ []

-- Three entries of two bytes each, and a limit of five.
abbrev full : EdgeCache
full = record {
  cache = entry 3 two_bytes ∷ entry 7 two_bytes ∷ entry 9 two_bytes ∷ [];
  max_size_bytes = 5;
  current_size_bytes = 6;
}

-- The entry that is read all the time is the one evicted: its key is the smallest.
get_put-evicts :
    run (gets 3 ∷ gets 3 ∷ puts 8 two_bytes ∷ []) full
    ≡ some (record full { cache = entry 7 two_bytes ∷ entry 8 two_bytes ∷ entry 9 two_bytes ∷ [] })
unfolding run step get touch find put evict_if_needed evict_loop oldest remove erase minus put_entry
    store insert
get_put-evicts = refl

-- A cache that is initialized again keeps its entries, and counts from nothing.
initialize-miscounts : (initialize 100 full).current_size_bytes ≡ 0
unfolding initialize
initialize-miscounts = refl

put_settles_example :
    (d : EdgeCache) × (e : EdgeCache) × (put 8 two_bytes full ≡ some d)
    × (d ≡ put_entry 8 two_bytes e)
    × Evicted full e
    × IsAccounted d
    × (total d.cache ≤ 5 + length two_bytes)
unfolding total
put_settles_example =
    put_settles 8 two_bytes full (record { sized = refl; timeless = (refl, (refl, (refl, tt))) })
      (omega arith)

run-IsAccounted_example :
    (d : EdgeCache) × ((run
          (limits 5 ∷ puts 3 two_bytes ∷ puts 3 two_bytes ∷ removes 4 ∷ [])
          new_cache
        ≡ some d)
      × IsAccounted d)
run-IsAccounted_example =
    run-IsAccounted (limits 5 ∷ puts 3 two_bytes ∷ puts 3 two_bytes ∷ removes 4 ∷ [])
