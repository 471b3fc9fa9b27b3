-- ===== src/Db/DbPool/Exclusive.antt =====
-- Who holds the connections of server/db/db_pool.cpp.
use rfidsystem.Prelude.{
  ℕ, ◌+◌, ◌≤◌, ◌<◌, min, ◌==◌, ltb, ◌≡◌, refl, inl, inr, Option, none, some, List, [], ◌∷◌, arith,
  length, tally, tally-snoc, if◌then◌else◌, Bool-cases, Option-cases,
}
use rfidsystem.Db.DbPool.{
  Env, DbPool, max_connections, is_valid_connection, create_open, Attempt, got, must_wait, scan,
  grow, take_scanned, acquire_try, Woken, obtained, timed_out, lost, pop_back, take_back,
  acquire_wake, erase, release,
}

abbrev pub count : ℕ → List ℕ → ℕ
count c cs = tally (λ d. d == c) cs

-- The pool together with the connections that its clients hold.
pub record World : Type 0 where
  pub db : DbPool
  pub leased : List ℕ

abbrev pub after_try : World → DbPool × Attempt → World
after_try w (p, got c) = record { db = p; leased = c ∷ w.leased }
after_try w (p, must_wait) = record w { db = p }

abbrev pub after_wake : World → DbPool × Woken → World
after_wake w (p, obtained c) = record { db = p; leased = c ∷ w.leased }
after_wake w (p, timed_out) = record w { db = p }
after_wake w (p, lost) = record w { db = p }

-- A connection that is created is neither available nor held by a client.
abbrev pub IsFresh : Env → World → Type 0
IsFresh env w =
    (c : ℕ) → env.created ≡ some c → (count c w.db.available ≡ 0) × (count c w.leased ≡ 0)

-- What the clients of the pool do: they release what they hold, and reconnecting is left out.
pub data Step : World → World → Type 0 where
  tries : (env : Env) (w : World) → IsFresh env w → Step w (after_try w (acquire_try env w.db))
  wakes : (env : Env) (w : World) → IsFresh env w → Step w (after_wake w (acquire_wake env w.db))
  releases :
      (env : Env) (w : World) (c : ℕ)
      → IsFresh env w
      → 0 < count c w.leased
      → Step w (record { db = release env c w.db; leased = erase c w.leased })

pub data Reach (v : World) : World → Type 0 where
  here : Reach v v
  next : {w u : World} → Reach v w → Step w u → Reach v u

-- No connection is available twice, leased twice, or both; the counter counts the leases.
pub record IsExclusive (w : World) : Type 0 where
  pub once : (c : ℕ) → count c w.db.available + count c w.leased ≤ 1
  pub counted : w.db.in_use_count ≡ length w.leased

count-erase :
    (c d : ℕ) (xs : List ℕ)
    → count c (erase d xs) + (if d == c then min 1 (count d xs) else 0) ≡ count c xs
unfolding erase
count-erase c d [] = ground arith
count-erase c d (x ∷ xs) = ground (arith, count-erase c d xs)

length-erase : (d : ℕ) (xs : List ℕ) → 0 < count d xs → length (erase d xs) + 1 ≡ length xs
unfolding erase
length-erase d [] h = absurd (omega arith)
length-erase d (x ∷ xs) h = ground (arith, length-erase d xs)

abbrev found_count : ℕ → Option ℕ → ℕ
found_count c none = 0
found_count c (some d) = if d == c then 1 else 0

scan-count :
    (env : Env) (c : ℕ) (xs : List ℕ)
    → count c (scan env xs).1 + found_count c (scan env xs).0 ≤ count c xs
unfolding scan
scan-count env c [] = omega arith
scan-count env c (x ∷ xs) = ground (arith, scan-count env c xs)

create_open-created : (env : Env) (c : ℕ) → create_open env ≡ some c → env.created ≡ some c
unfolding create_open
create_open-created env c h = ground arith

grow-IsExclusive :
    (env : Env) (w : World) (rest : List ℕ)
    → IsFresh env w
    → ((c : ℕ) → count c rest ≤ count c w.db.available)
    → IsExclusive w
    → IsExclusive (after_try w (grow env (record w.db { available = rest })))
unfolding grow
grow-IsExclusive env w rest f h v = elim (Bool-cases (ltb (length w.db.pool) max_connections)) [
  | inr full ↦
      rw (full, grow) (record { once = λ d. omega (arith, v.once d, h d); counted = v.counted })
  | inl room ↦ elim (Option-cases (create_open env)) [
    | inl failed ↦
        rw (room, failed, grow)
          (record { once = λ d. omega (arith, v.once d, h d); counted = v.counted })
    | inr (c, made) ↦
        let new = f c (create_open-created env c made) in
        rw (room, made, grow)
          (record {
            once = λ d. ground (arith, v.once d, h d, new);
            counted = omega (arith, v.counted);
          })
  ]
]

take_scanned-IsExclusive :
    (env : Env) (w : World) (s : Option ℕ × List ℕ)
    → IsFresh env w
    → ((c : ℕ) → count c s.1 + found_count c s.0 ≤ count c w.db.available)
    → IsExclusive w
    → IsExclusive (after_try w (take_scanned env w.db s))
unfolding take_scanned
take_scanned-IsExclusive env w (some c, rest) f h v = record {
  once = λ d. omega (arith, v.once d, h d);
  counted = omega (arith, v.counted);
}
take_scanned-IsExclusive env w (none, rest) f h v =
    grow-IsExclusive env w rest f (λ c. omega (arith, h c)) v

-- The parts of a list that `pop_back` gives.
abbrev pub Popped : List ℕ → Option (List ℕ × ℕ) → Type 0
Popped xs none = xs ≡ []
Popped xs (some (rest, last)) = (c : ℕ) → count c rest + (if last == c then 1 else 0) ≡ count c xs

pop_back-Popped : (xs : List ℕ) → Popped xs (pop_back xs)
unfolding pop_back
pop_back-Popped [] = refl
pop_back-Popped (x ∷ xs) = go (pop_back xs) refl (pop_back-Popped xs)
  where
    go :
        (o : Option (List ℕ × ℕ))
        → pop_back xs ≡ o
        → Popped xs o
        → Popped
            (x ∷ xs)
            (elim o [ none ↦ some ([], x) | some (rest, last) ↦ some (x ∷ rest, last) ])
    go none e p = λ c. rw p (omega arith)
    go (some (rest, last)) e p = λ c. omega (arith, p c)

take_back-IsExclusive :
    (env : Env) (w : World) (o : Option (List ℕ × ℕ))
    → IsFresh env w
    → Popped w.db.available o
    → IsExclusive w
    → IsExclusive (after_wake w (take_back env w.db o))
unfolding take_back
take_back-IsExclusive env w none f p v = v
take_back-IsExclusive env w (some (rest, c)) f p v = elim (Bool-cases (is_valid_connection env c)) [
  | inl good ↦
      rw (good, take_back)
        (record { once = λ d. omega (arith, v.once d, p d); counted = omega (arith, v.counted) })
  | inr bad ↦ elim (Option-cases (create_open env)) [
    | inl failed ↦
        rw (bad, failed, take_back)
          (record { once = λ d. omega (arith, v.once d, p d); counted = v.counted })
    | inr (m, made) ↦
        let new = f m (create_open-created env m made) in
        rw (bad, made, take_back)
          (record {
            once = λ d. ground (arith, v.once d, p d, new);
            counted = omega (arith, v.counted);
          })
  ]
]

release-IsExclusive :
    (env : Env) (w : World) (c : ℕ)
    → IsFresh env w
    → 0 < count c w.leased
    → IsExclusive w
    → IsExclusive (record { db = release env c w.db; leased = erase c w.leased })
unfolding release
release-IsExclusive env w c f held v = elim (Bool-cases (is_valid_connection env c)) [
  | inl good ↦
      rw (good, release)
        (record {
          once = λ d. ground (
            arith,
            v.once d,
            count-erase d c w.leased,
            tally-snoc (λ x. x == d) w.db.available c,
          );
          counted = omega (arith, v.counted, length-erase c w.leased held);
        })
  | inr bad ↦ elim (Option-cases (create_open env)) [
    | inl failed ↦
        rw (bad, failed, release)
          (record {
            once = λ d. omega (arith, v.once d, count-erase d c w.leased);
            counted = omega (arith, v.counted, length-erase c w.leased held);
          })
    | inr (m, made) ↦
        let new = f m (create_open-created env m made) in
        rw (bad, made, release)
          (record {
            once = λ d. ground (
              arith,
              v.once d,
              new,
              count-erase d c w.leased,
              tally-snoc (λ x. x == d) w.db.available m,
            );
            counted = omega (arith, v.counted, length-erase c w.leased held);
          })
  ]
]

Step-IsExclusive : {w u : World} → Step w u → IsExclusive w → IsExclusive u
unfolding acquire_try acquire_wake
Step-IsExclusive (tries env w f) v =
    take_scanned-IsExclusive env w (scan env w.db.available) f
      (λ c. scan-count env c w.db.available) v
Step-IsExclusive (wakes env w f) v =
    take_back-IsExclusive env w (pop_back w.db.available) f (pop_back-Popped w.db.available) v
Step-IsExclusive (releases env w c f h) v = release-IsExclusive env w c f h v

-- However the threads' acquisitions, wake-ups and releases are interleaved, and whichever connections
-- break down meanwhile: when the connections that `createConnection` makes are new, and clients
-- release only what they hold, no connection is held by two clients or held and available, and
-- `inUseCount` is the number of connections held.
pub Reach-IsExclusive : {w u : World} → IsExclusive w → Reach w u → IsExclusive u
Reach-IsExclusive v here = v
Reach-IsExclusive v (next r s) = Step-IsExclusive s (Reach-IsExclusive v r)
