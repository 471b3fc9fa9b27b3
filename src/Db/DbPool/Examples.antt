-- ===== src/Db/DbPool/Examples.antt =====
-- The connection pool at concrete states.
use rfidsystem.Prelude.{
  All, ◌+◌, not, ℕ, ◌≤◌, ◌==◌, ◌≡◌, refl, true, false, none, some, List, [], ◌∷◌, arith, length,
  All,
}
use rfidsystem.Db.DbPool.{
  timed_out, Env, DbPool, is_valid_connection, create_open, construct, got, scan, take_scanned,
  acquire_try, acquire_wake, erase, release, is_connected, reconnect_one, reconnect_pool,
  reconnect_all,
}
use rfidsystem.Db.DbPool.Exclusive.{
  World, after_try, tries, releases, here, next, IsExclusive, Reach-IsExclusive,
}
use rfidsystem.Db.DbPool.Exhaustion.{attempts, exhausted_for_good}
use rfidsystem.Db.DbPool.Capacity.{pool_bounded}

-- The database is up, and gives connection `c` next.
abbrev up : ℕ → Env
up c = record { is_open = λ _. true; answers = λ _. true; created = some c }

abbrev down : Env
down = record { is_open = λ _. false; answers = λ _. false; created = none }

abbrev db : DbPool
db = construct (up 1 ∷ down ∷ up 2 ∷ []) (record { pool = []; available = []; in_use_count = 0 })

abbrev world : World
world = record { db = db; leased = [] }

world_acquires : (acquire_try (up 3) db).1 ≡ got 1
unfolding construct create_open acquire_try take_scanned scan is_valid_connection
world_acquires = refl

-- Connection 1 is not replaced by the reconnection, and becomes available although it was leased.
lent_again :
    (reconnect_all
      (record { is_open = λ _. true; answers = λ _. true; created = none })
      ((none ∷ []) ∷ [])
      (record { pool = 1 ∷ []; available = []; in_use_count = 1 })).available
    ≡ 1 ∷ []
unfolding reconnect_all reconnect_pool reconnect_one
lent_again = refl

connected : is_connected (up 3) db ≡ true
unfolding is_connected construct create_open
connected = refl

abbrev held : World
held = after_try world (acquire_try (up 3) db)

Reach-IsExclusive_example :
    IsExclusive (record { db = release (up 4) 1 held.db; leased = erase 1 held.leased })
unfolding construct create_open acquire_try take_scanned scan is_valid_connection
Reach-IsExclusive_example =
    Reach-IsExclusive {w = world} (record { once = λ c. ground arith; counted = refl })
      (next (next here (tries (up 3) world (λ c e. ground arith)))
        (releases (up 4) held 1 (λ c e. ground arith) (omega arith)))

abbrev twenty : List ℕ
twenty =
    1 ∷ 2 ∷ 3 ∷ 4 ∷ 5 ∷ 6 ∷ 7 ∷ 8 ∷ 9 ∷ 10 ∷ 11 ∷ 12 ∷ 13 ∷ 14 ∷ 15 ∷ 16 ∷ 17 ∷ 18 ∷ 19 ∷ 20 ∷ []

abbrev full : DbPool
full = record { pool = twenty; available = 3 ∷ 4 ∷ []; in_use_count = 0 }

exhausted_for_good_example :
    ((attempts (down ∷ up 21 ∷ up 22 ∷ []) full).0 ≡ record full { available = [] })
    × All (λ o. o ≡ timed_out) (attempts (down ∷ up 21 ∷ up 22 ∷ []) full).1
unfolding is_valid_connection
exhausted_for_good_example =
    exhausted_for_good down (up 21 ∷ up 22 ∷ []) full (omega arith) (refl, (refl, tt))

-- A replacement that was lent after a wait, number 99, is not in the pool; it is released when it is
-- broken, and the pool grows past 20.
abbrev replaced : DbPool
replaced = record { pool = twenty; available = []; in_use_count = 1 }

grown_past :
    length
      (release
        (record { is_open = λ c. not (c == 99); answers = λ _. true; created = some 21 })
        99
        replaced).pool
    ≡ 21
unfolding release erase is_valid_connection create_open
grown_past = refl

pool_bounded_example :
    (length (acquire_try down full).0.pool ≤ 20)
    × (length (acquire_wake down full).0.pool ≤ 20)
    × (length (release down 3 full).pool ≤ 20 + 0)
pool_bounded_example = pool_bounded down full 3 (omega arith)
