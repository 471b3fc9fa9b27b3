-- ===== src/Runtime/FailureBus/Histories.antt =====
-- Histories of calls on server/runtime/runtime_failure_bus.cpp.
use rfidsystem.Prelude.{
  ℕ, zero, suc, ◌≤◌, ◌<◌, ◌≡◌, refl, Bool, List, [], ◌∷◌, arith, length, length-snoc,
}
use rfidsystem.Runtime.FailureBus.{
  FailureType, FailureEvent, RuntimeFailureBus, type_index, max_recent_failures, count_one, new_bus,
  initialize, shutdown, clear, register_failure_callback, make_room, publish, named,
  mark_acknowledged, acknowledge,
}
use rfidsystem.Runtime.FailureBus.Alarm.{IsAnnounced, publish-IsAnnounced}

pub data Call (Double : Type 0) : Type 0 where
  publishes : FailureEvent Double → ℕ → Call Double
  acknowledges : FailureType → ℕ → Call Double
  initializes shuts_down clears : Call Double
  registers : ℕ → Call Double

length-make_room :
    {Double : Type 0} (xs : List (FailureEvent Double))
    → length xs ≤ max_recent_failures
    → length (make_room xs) < max_recent_failures
unfolding make_room
length-make_room [] h = ground arith
length-make_room (x ∷ xs) h = ground arith

length-mark_acknowledged :
    {Double : Type 0} (test : FailureEvent Double → Bool) (xs : List (FailureEvent Double))
    → length (mark_acknowledged test xs) ≡ length xs
unfolding mark_acknowledged
length-mark_acknowledged test [] = refl
length-mark_acknowledged test (x ∷ xs) = omega (arith, length-mark_acknowledged test xs)

pub length-count_one : (ns : List ℕ) (i : ℕ) → length (count_one ns i) ≡ length ns
unfolding count_one
length-count_one [] i = refl
length-count_one (n ∷ ns) zero = refl
length-count_one (n ∷ ns) (suc i) = omega (arith, length-count_one ns i)

module _ {Double : Type 0} (critical : Double → Bool) where
  unfoldable pub step : RuntimeFailureBus Double → Call Double → RuntimeFailureBus Double
  step b (publishes e now) = (publish critical e now b).0
  step b (acknowledges t frame) = acknowledge critical t frame b
  step b initializes = initialize b
  step b shuts_down = shutdown b
  step b clears = clear b
  step b (registers c) = register_failure_callback c b

  unfoldable pub run : RuntimeFailureBus Double → List (Call Double) → RuntimeFailureBus Double
  run b [] = b
  run b (c ∷ cs) = run (step b c) cs

  pub record IsValid (b : RuntimeFailureBus Double) : Type 0 where
    pub bounded : length b.recent_failures ≤ max_recent_failures
    pub counters : length b.failure_counts ≡ 11
    pub announced : IsAnnounced critical b

  publish-IsValid :
      (e : FailureEvent Double) (now : ℕ) (b : RuntimeFailureBus Double)
      → IsValid b
      → IsValid (publish critical e now b).0
  unfolding publish
  publish-IsValid e now b v = record {
    bounded = omega (
      arith,
      length-make_room b.recent_failures v.bounded,
      length-snoc (make_room b.recent_failures) (record e { timestamp = now }),
    );
    counters = omega (arith, v.counters, length-count_one b.failure_counts (type_index e.type));
    announced = publish-IsAnnounced critical e now b v.announced;
  }

  acknowledge-IsValid :
      (t : FailureType) (frame : ℕ) (b : RuntimeFailureBus Double)
      → IsValid b
      → IsValid (acknowledge critical t frame b)
  unfolding acknowledge
  acknowledge-IsValid t frame b v = record {
    bounded = omega (arith, v.bounded, length-mark_acknowledged (named t frame) b.recent_failures);
    counters = v.counters;
    announced = λ a. a;
  }

  step-IsValid : (b : RuntimeFailureBus Double) (c : Call Double) → IsValid b → IsValid (step b c)
  unfolding step initialize shutdown clear register_failure_callback
  step-IsValid b (publishes e now) v = publish-IsValid e now b v
  step-IsValid b (acknowledges t frame) v = acknowledge-IsValid t frame b v
  step-IsValid b initializes v = record {
    bounded = omega arith;
    counters = refl;
    announced = λ a. cc a;
  }
  step-IsValid b shuts_down v = record {
    bounded = omega arith;
    counters = v.counters;
    announced = λ a. cc a;
  }
  step-IsValid b clears v = record {
    bounded = omega arith;
    counters = v.counters;
    announced = λ a. cc a;
  }
  step-IsValid b (registers c) v = record {
    bounded = v.bounded;
    counters = v.counters;
    announced = v.announced;
  }

  run_from-IsValid :
      (b : RuntimeFailureBus Double) (cs : List (Call Double)) → IsValid b → IsValid (run b cs)
  unfolding run
  run_from-IsValid b [] v = v
  run_from-IsValid b (c ∷ cs) v = run_from-IsValid (step b c) cs (step-IsValid b c v)

  -- After any history of calls on a new bus the window holds at most 500 failures, the array has its
  -- eleven counters, and the critical flag is set if the window holds a failure that is critical and
  -- not acknowledged.
  pub run-IsValid : (cs : List (Call Double)) → IsValid (run new_bus cs)
  unfolding new_bus
  run-IsValid cs =
      run_from-IsValid new_bus cs
        (record { bounded = omega arith; counters = refl; announced = λ a. cc a })
