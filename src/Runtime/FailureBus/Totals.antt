-- ===== src/Runtime/FailureBus/Totals.antt =====
-- The counters of server/runtime/runtime_failure_bus.cpp over a history.
use rfidsystem.Prelude.{
  ℕ, zero, suc, ◌+◌, ◌<◌, ◌≡◌, ◌∙◌, Bool, true, false, List, [], ◌∷◌, arith, length, All, u64,
  u64_mod,
}
use rfidsystem.Runtime.FailureBus.{
  FailureType, RuntimeFailureBus, type_index, count_one, total, shutdown, clear,
  register_failure_callback, get_total_failure_count, publish, acknowledge,
}
use rfidsystem.Runtime.FailureBus.Histories.{
  Call, publishes, acknowledges, initializes, shuts_down, clears, registers, step, run,
  length-count_one,
}

-- Sums modulo 2^64, in the form that the proofs use.
sum : List ℕ → ℕ
sum [] = 0
sum (n ∷ ns) = n + sum ns

total-sum : (acc : ℕ) (ns : List ℕ) → acc < u64_mod → total acc ns ≡ u64 (acc + sum ns)
unfolding total sum
total-sum acc [] h = omega arith
total-sum acc (n ∷ ns) h = total-sum (u64 (acc + n)) ns (omega arith) ∙ omega arith

sum-count_one :
    (ns : List ℕ) (i : ℕ) → i < length ns → u64 (sum (count_one ns i)) ≡ u64 (sum ns + 1)
unfolding sum count_one
sum-count_one [] i h = absurd (omega arith)
sum-count_one (n ∷ ns) zero h = omega arith
sum-count_one (n ∷ ns) (suc i) h = omega (arith, sum-count_one ns i (omega arith))

type_index_bounded : (t : FailureType) → type_index t < 11
type_index_bounded t = ground arith

-- The failures published in a history.
pub published : {Double : Type 0} → List (Call Double) → ℕ
published [] = 0
published (publishes e now ∷ cs) = suc (published cs)
published (_ ∷ cs) = published cs

abbrev pub no_reset : {Double : Type 0} → Call Double → Bool
no_reset initializes = false
no_reset _ = true

module _ {Double : Type 0} (critical : Double → Bool) where
  counts-step :
      (b : RuntimeFailureBus Double) (c : Call Double)
      → no_reset c ≡ true
      → length b.failure_counts ≡ 11
      → (length (step critical b c).failure_counts ≡ 11)
        × (u64 (sum (step critical b c).failure_counts)
            ≡ u64 (sum b.failure_counts + published (c ∷ [])))
  unfolding step publish acknowledge shutdown clear register_failure_callback published
  counts-step b (publishes e now) n l = (
    omega (arith, length-count_one b.failure_counts (type_index e.type)),
    sum-count_one b.failure_counts (type_index e.type) (omega (arith, type_index_bounded e.type)),
  )
  counts-step b (acknowledges t frame) n l = (l, omega arith)
  counts-step b initializes n l = cc
  counts-step b shuts_down n l = (l, omega arith)
  counts-step b clears n l = (l, omega arith)
  counts-step b (registers c) n l = (l, omega arith)

  published-cons :
      (c : Call Double) (cs : List (Call Double))
      → published (c ∷ cs) ≡ published (c ∷ []) + published cs
  unfolding published
  published-cons c cs = ground arith

  counts-run :
      (b : RuntimeFailureBus Double) (cs : List (Call Double))
      → All (λ c. no_reset c ≡ true) cs
      → length b.failure_counts ≡ 11
      → u64 (sum (run critical b cs).failure_counts) ≡ u64 (sum b.failure_counts + published cs)
  unfolding run published
  counts-run b [] n l = omega arith
  counts-run b (c ∷ cs) n l = omega (
    arith,
    counts-step b c n.0 l,
    published-cons c cs,
    counts-run (step critical b c) cs n.1 (counts-step b c n.0 l).0,
  )

  -- Over a history without `initialize` the total of the counters grows by the number of failures
  -- published, modulo 2^64: acknowledging, clearing, shutting down and the eviction from the window
  -- lose no count.
  pub total_counts_published :
      (b : RuntimeFailureBus Double) (cs : List (Call Double))
      → All (λ c. no_reset c ≡ true) cs
      → length b.failure_counts ≡ 11
      → get_total_failure_count (run critical b cs) ≡ u64 (get_total_failure_count b + published cs)
  unfolding get_total_failure_count
  total_counts_published b cs n l = omega (
    arith,
    counts-run b cs n l,
    total-sum 0 b.failure_counts (omega arith),
    total-sum 0 (run critical b cs).failure_counts (omega arith),
  )
