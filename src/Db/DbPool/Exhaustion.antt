-- ===== src/Db/DbPool/Exhaustion.antt =====
-- How the pool of server/db/db_pool.cpp runs dry when its connections break down.
use rfidsystem.Prelude.{ℕ, ◌≤◌, ◌≡◌, refl, ap, ◌∙◌, false, none, List, [], ◌∷◌, arith, length, All}
use rfidsystem.Db.DbPool.{
  Env, DbPool, max_connections, is_valid_connection, Attempt, got, must_wait, scan, grow,
  take_scanned, acquire_try, Woken, obtained, timed_out, pop_back, take_back, acquire_wake,
}

-- No available connection is valid.
abbrev pub IsBroken : Env → DbPool → Type 0
IsBroken env p = All (λ c. is_valid_connection env c ≡ false) p.available

scan_dry :
    (env : Env) (cs : List ℕ)
    → All (λ c. is_valid_connection env c ≡ false) cs
    → scan env cs ≡ (none, [])
unfolding scan
scan_dry env [] h = refl
scan_dry env (c ∷ cs) h = ground (arith, scan_dry env cs h.1)

abbrev pub IsFull : DbPool → Type 0
IsFull p = max_connections ≤ length p.pool

try_dry :
    (env : Env) (p : DbPool)
    → IsFull p
    → IsBroken env p
    → acquire_try env p ≡ (record p { available = [] }, must_wait)
unfolding acquire_try take_scanned grow
try_dry env p full broken = rw (scan_dry env p.available broken) (ground arith)

wake_empty : (env : Env) (p : DbPool) → p.available ≡ [] → acquire_wake env p ≡ (p, timed_out)
unfolding acquire_wake pop_back take_back
wake_empty env p e = rw (e, acquire_wake, pop_back) refl

-- The rest of an attempt: the wake-up after a wait in which nothing is released.
unfoldable pub settle : Env → DbPool × Attempt → DbPool × Woken
settle env (p, got c) = (p, obtained c)
settle env (p, must_wait) = acquire_wake env p

-- One attempt of a client.
unfoldable pub attempt : Env → DbPool → DbPool × Woken
attempt env p = settle env (acquire_try env p)

-- A sequence of attempts, each in its own state of the database: the pool after them, and their
-- outcomes.
unfoldable pub attempts : List Env → DbPool → DbPool × List Woken
attempts [] p = (p, [])
attempts (env ∷ envs) p =
    let (q, o) = attempt env p in let (r, later) = attempts envs q in (r, o ∷ later)

-- Nothing is available, and the rest of the pool is as it was.
abbrev pub drained : DbPool → DbPool
drained p = record p { available = [] }

attempt_dry :
    (env : Env) (p : DbPool) → IsFull p → IsBroken env p → attempt env p ≡ (drained p, timed_out)
unfolding attempt settle
attempt_dry env p full broken =
    ap (settle env) (try_dry env p full broken) ∙ wake_empty env (drained p) refl

attempts_dry :
    (envs : List Env) (p : DbPool)
    → IsFull p
    → ((attempts envs (drained p)).0 ≡ drained p)
      × All (λ o. o ≡ timed_out) (attempts envs (drained p)).1
unfolding attempts
attempts_dry [] p full = (refl, tt)
attempts_dry (env ∷ envs) p full =
    let (same, later) = attempts_dry envs p full in
    rw (attempt_dry env (drained p) full tt) (same, (refl, later))

-- When the pool is full and every available connection has broken down at the first attempt, then, as
-- long as nothing is released and `reconnectAll` is not called, that attempt and every later one time
-- out, in whatever state the database is: also when it is back, and `createConnection` would succeed.
-- After them no connection is available, the pool holds what it held before, so it is still full, and
-- the count of those in use is as before.
pub exhausted_for_good :
    (env : Env) (envs : List Env) (p : DbPool)
    → IsFull p
    → IsBroken env p
    → ((attempts (env ∷ envs) p).0 ≡ drained p)
      × All (λ o. o ≡ timed_out) (attempts (env ∷ envs) p).1
unfolding attempts
exhausted_for_good env envs p full broken =
    let (same, later) = attempts_dry envs p full in
    rw (attempt_dry env p full broken) (same, (refl, later))
