-- ===== src/Db/DbPool/Capacity.antt =====
-- The size of the pool of server/db/db_pool.cpp.
use rfidsystem.Prelude.{
  ℕ, ◌+◌, ◌≤◌, ◌==◌, ◌≡◌, refl, inl, inr, Bool, Option, none, some, List, [], ◌∷◌, arith, length,
  any, length-snoc, if◌then◌else◌, Bool-cases, Option-cases,
}
use rfidsystem.Db.DbPool.{
  Env, DbPool, max_connections, is_valid_connection, create_open, scan, grow, take_scanned,
  acquire_try, pop_back, take_back, acquire_wake, erase, release,
}

-- Whether a connection is one of the pool's.
abbrev pub pooled : ℕ → List ℕ → Bool
pooled c xs = any (λ d. d == c) xs

length-erase :
    (c : ℕ) (xs : List ℕ) → length (erase c xs) + (if pooled c xs then 1 else 0) ≡ length xs
unfolding erase
length-erase c [] = omega arith
length-erase c (x ∷ xs) = ground (arith, length-erase c xs)

take_scanned-bounded :
    (env : Env) (p : DbPool) (s : Option ℕ × List ℕ)
    → length p.pool ≤ max_connections
    → length (take_scanned env p s).0.pool ≤ max_connections
unfolding take_scanned grow
take_scanned-bounded env p (some c, rest) h = h
take_scanned-bounded env p (none, rest) h = elim (Option-cases (create_open env)) [
  | inl failed ↦ rw (failed, take_scanned, grow) (ground arith)
  | inr (c, made) ↦ rw (made, take_scanned, grow) (ground (arith, length-snoc p.pool c))
]

wake-pool : (env : Env) (p : DbPool) (o : Option (List ℕ × ℕ)) → (take_back env p o).0.pool ≡ p.pool
unfolding take_back
wake-pool env p none = refl
wake-pool env p (some (rest, c)) = ground arith

release_within :
    (env : Env) (p : DbPool) (c : ℕ)
    → length (release env c p).pool ≤ length p.pool + (if pooled c p.pool then 0 else 1)
unfolding release
release_within env p c = elim (Bool-cases (is_valid_connection env c)) [
  | inl good ↦ rw (good, release) (omega arith)
  | inr bad ↦ elim (Option-cases (create_open env)) [
    | inl failed ↦ rw (bad, failed, release) (omega (arith, length-erase c p.pool))
    | inr (d, made) ↦
        rw (bad, made, release)
          (ground (arith, length-snoc (erase c p.pool) d, length-erase c p.pool))
  ]
]

-- A pool of at most 20 connections stays so under acquisition, both before and after the wait, and
-- under the release of a connection that is in the pool; the release of one that is not can add one
-- connection.
pub pool_bounded :
    (env : Env) (p : DbPool) (c : ℕ)
    → length p.pool ≤ max_connections
    → (length (acquire_try env p).0.pool ≤ max_connections)
      × (length (acquire_wake env p).0.pool ≤ max_connections)
      × (length (release env c p).pool ≤ max_connections + (if pooled c p.pool then 0 else 1))
unfolding acquire_try acquire_wake
pool_bounded env p c h = (
  take_scanned-bounded env p (scan env p.available) h,
  rw (wake-pool env p (pop_back p.available)) h,
  omega (arith, release_within env p c),
)
