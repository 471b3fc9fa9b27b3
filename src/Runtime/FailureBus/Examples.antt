-- ===== src/Runtime/FailureBus/Examples.antt =====
-- Runs of the failure bus, and its theorems at concrete inputs. A severity is in hundredths here.
use rfidsystem.Prelude.{
  ℕ, ◌+◌, min, leb, ◌≡◌, refl, Bool, true, false, not, none, List, [], ◌∷◌, ◌++◌, arith, length,
  keep, any, u64,
}
use rfidsystem.Prelude.Int.{pos, negsuc}
use rfidsystem.Runtime.FailureBus.{
  FailureType, FailureEvent, RuntimeFailureBus, new_bus, get_recent, get_unacknowledged,
  get_total_failure_count, publish, named, get_failure_count, acknowledge, gpu_overrun,
  replay_desync,
}
use rfidsystem.Runtime.FailureBus.Alarm.{marked, acknowledge_settles}
use rfidsystem.Runtime.FailureBus.Recent.{get_recent_suffix, get_recent_negative}
use rfidsystem.Runtime.FailureBus.Totals.{published, total_counts_published}
use rfidsystem.Runtime.FailureBus.Histories.{
  Call, publishes, clears, step, run, IsValid, run-IsValid,
}

abbrev critical : ℕ → Bool
critical s = leb 80 s

abbrev failure : FailureType → ℕ → ℕ → FailureEvent ℕ
failure t frame s = record {
  type = t;
  frame_id = frame;
  timestamp = 0;
  message = "";
  severity = s;
  acknowledged = false;
  tag_id = none;
  error_value = none;
  threshold = none;
}

abbrev calls : List (Call ℕ)
calls = publishes (failure gpu_overrun 5 95) 100 ∷ publishes (failure replay_desync 6 20) 101 ∷ []

abbrev bus : RuntimeFailureBus ℕ
bus = run critical new_bus calls

bus_alarmed : bus.has_critical ≡ true
unfolding run step new_bus publish
bus_alarmed = refl

bus_settled : (acknowledge critical gpu_overrun 5 bus).has_critical ≡ false
unfolding run step new_bus publish acknowledge named
bus_settled = refl

gpu_counted : get_failure_count gpu_overrun bus ≡ 1
unfolding get_failure_count run step new_bus publish
gpu_counted = refl

run-IsValid_example : IsValid critical bus
run-IsValid_example = run-IsValid critical calls

acknowledge_settles_example :
    ((acknowledge critical gpu_overrun 5 bus).recent_failures
      ≡ marked (named gpu_overrun 5) bus.recent_failures)
    × (any (named gpu_overrun 5) (get_unacknowledged (acknowledge critical gpu_overrun 5 bus))
        ≡ false)
    × (keep
          (λ e. not (named gpu_overrun 5 e))
          (acknowledge critical gpu_overrun 5 bus).recent_failures
        ≡ keep (λ e. not (named gpu_overrun 5 e)) bus.recent_failures)
    × ((acknowledge critical gpu_overrun 5 bus).has_critical
        ≡ any
            (λ e. critical e.severity)
            (get_unacknowledged (acknowledge critical gpu_overrun 5 bus)))
acknowledge_settles_example = acknowledge_settles critical gpu_overrun 5 bus

total_counts_published_example :
    get_total_failure_count (run critical bus (clears ∷ calls))
    ≡ u64 (get_total_failure_count bus + published (clears ∷ calls))
unfolding run step new_bus publish
total_counts_published_example =
    total_counts_published critical bus (clears ∷ calls) (refl, (refl, (refl, tt))) refl

get_recent-one :
    (length (get_recent (pos 1) bus) ≡ min 1 (length bus.recent_failures))
    × ((older : List (FailureEvent ℕ)) × (bus.recent_failures ≡ older ++ get_recent (pos 1) bus))
unfolding run step new_bus publish
get_recent-one = get_recent_suffix 1 bus (omega arith)

negative_count : get_recent (negsuc 0) bus ≡ []
unfolding run step new_bus publish
negative_count = get_recent_negative 0 bus (omega arith) (omega arith)
