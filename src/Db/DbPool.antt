-- ===== src/Db/DbPool.antt =====
-- server/db/db_pool.h and .cpp: the pool of database connections.
-- A connection (of libpqxx, not part of the repository) is a number. What one call meets of the
-- database is its `Env`: which connections are open, which answer `SELECT 1`, and what
-- `createConnection` gives. `acquire_with_timeout` gives the mutex up while it waits, so it is two
-- steps: `acquire_try` up to the wait, and `acquire_wake` after it.
pub mod Exclusive
pub mod Exhaustion
pub mod Capacity
mod Examples
use rfidsystem.Prelude.{
  ℕ, ◌+◌, ◌-◌, ◌==◌, ltb, Bool, ◌&&◌, Option, none, some, List, [], ◌∷◌, length, take, snoc, keep,
  any, if◌then◌else◌,
}

pub record Env : Type 0 where
  pub is_open : ℕ → Bool
  pub answers : ℕ → Bool
  -- `none` is an exception.
  pub created : Option ℕ

pub record DbPool : Type 0 where
  pub pool : List ℕ
  pub available : List ℕ
  pub in_use_count : ℕ

abbrev pub max_connections : ℕ
max_connections = 20

abbrev pub max_reconnect_attempts : ℕ
max_reconnect_attempts = 5

unfoldable pub is_valid_connection : Env → ℕ → Bool
is_valid_connection env c = env.is_open c && env.answers c

-- `createConnection` with the test `is_open` of the new connection.
unfoldable pub create_open : Env → Option ℕ
create_open env = elim env.created [ none ↦ none | some c ↦ if env.is_open c then some c else none ]

-- The constructor's loop: one outcome of `createConnection` for each round.
unfoldable pub construct : List Env → DbPool → DbPool
construct [] p = p
construct (env ∷ envs) p = construct envs (elim (create_open env) [
  | none ↦ p
  | some c ↦ record p { pool = snoc p.pool c; available = snoc p.available c }
])

pub data Attempt : Type 0 where
  got : ℕ → Attempt
  must_wait : Attempt

-- The loop over the available connections: invalid ones are dropped up to the first valid one.
unfoldable pub scan : Env → List ℕ → Option ℕ × List ℕ
scan env [] = (none, [])
scan env (c ∷ cs) =
    let rest = scan env cs in if is_valid_connection env c then (some c, cs) else rest

-- No available connection is valid: a new one is created if the pool is not full.
unfoldable pub grow : Env → DbPool → DbPool × Attempt
grow env p =
    if ltb (length p.pool) max_connections
    then (elim (create_open env) [
      | none ↦ (p, must_wait)
      | some c ↦ (record p { pool = snoc p.pool c; in_use_count = p.in_use_count + 1 }, got c)
    ])
    else (p, must_wait)

unfoldable pub take_scanned : Env → DbPool → Option ℕ × List ℕ → DbPool × Attempt
take_scanned env p (some c, rest) =
    (record p { available = rest; in_use_count = p.in_use_count + 1 }, got c)
take_scanned env p (none, rest) = grow env (record p { available = rest })

unfoldable pub acquire_try : Env → DbPool → DbPool × Attempt
acquire_try env p = take_scanned env p (scan env p.available)

pub data Woken : Type 0 where
  obtained : ℕ → Woken
  timed_out lost : Woken

-- The last element, and the others.
unfoldable pub pop_back : List ℕ → Option (List ℕ × ℕ)
pop_back [] = none
pop_back (c ∷ cs) = elim (pop_back cs) [
  | none ↦ some ([], c)
  | some (rest, last) ↦ some (c ∷ rest, last)
]

-- After the wait: nothing available is a timeout; an invalid connection is exchanged for a new one.
unfoldable pub take_back : Env → DbPool → Option (List ℕ × ℕ) → DbPool × Woken
take_back env p none = (p, timed_out)
take_back env p (some (rest, c)) =
    let p' = record p { available = rest } in
    if is_valid_connection env c
    then (record p' { in_use_count = p.in_use_count + 1 }, obtained c)
    else (elim (create_open env) [
      | none ↦ (p', lost)
      | some d ↦ (record p' { in_use_count = p.in_use_count + 1 }, obtained d)
    ])

unfoldable pub acquire_wake : Env → DbPool → DbPool × Woken
acquire_wake env p = take_back env p (pop_back p.available)

-- `std::find` and `erase`.
unfoldable pub erase : ℕ → List ℕ → List ℕ
erase c [] = []
erase c (d ∷ ds) = if d == c then ds else d ∷ erase c ds

unfoldable pub release : Env → ℕ → DbPool → DbPool
release env c p =
    let p' = record p { in_use_count = p.in_use_count - 1 } in
    if is_valid_connection env c
    then record p' { available = snoc p.available c }
    else (let q = record p' { pool = erase c p.pool } in
        elim (create_open env) [
          | none ↦ q
          | some d ↦ record q { pool = snoc q.pool d; available = snoc q.available d }
        ])

unfoldable pub is_connected : Env → DbPool → Bool
is_connected env p = any env.is_open p.pool

-- The attempts to reconnect one connection, with what `createConnection` gives at each: a connection
-- that comes is put in place even if it is not open.
unfoldable pub reconnect_one : Env → List (Option ℕ) → ℕ → ℕ
reconnect_one env [] c = c
reconnect_one env (none ∷ more) c = reconnect_one env more c
reconnect_one env (some d ∷ more) c =
    let rest = reconnect_one env more d in if env.is_open d then d else rest

-- Each place of the pool comes with its outcomes, of which the first five are used.
unfoldable pub reconnect_pool : Env → List (List (Option ℕ)) → List ℕ → List ℕ
reconnect_pool env outcomes [] = []
reconnect_pool env [] (c ∷ cs) = c ∷ reconnect_pool env [] cs
reconnect_pool env (o ∷ os) (c ∷ cs) =
    reconnect_one env (take max_reconnect_attempts o) c ∷ reconnect_pool env os cs

unfoldable pub reconnect_all : Env → List (List (Option ℕ)) → DbPool → DbPool
reconnect_all env outcomes p =
    let pool' = reconnect_pool env outcomes p.pool in
    record p { pool = pool'; available = keep env.is_open pool' }
