-- ===== src/Runtime/FailureBus.antt =====
-- server/runtime/runtime_failure_bus.h and .cpp: the bus on which components publish failures.
-- `double` is the parameter `Double`, and `severity >= CRITICAL_SEVERITY_THRESHOLD` the parameter
-- `critical` of the operations that test it. The clock's reading is an argument of `publish`.
-- A callback is known by a number; what it throws is swallowed, so every one is called.
pub mod Histories
pub mod Alarm
pub mod Recent
pub mod Totals
mod Examples
use rfidsystem.Prelude.{
  ℕ, zero, suc, ◌+◌, ◌-◌, ◌==◌, leb, Bool, true, false, not, ◌&&◌, Option, List, [], ◌∷◌, map,
  String, length, drop, snoc, keep, any, u64, u64_mod, if◌then◌else◌,
}
use rfidsystem.Prelude.Int.{ℤ, pos, pos_part, neg_part, leb_ℤ}

pub data FailureType : Type 0 where
  frame_hash_mismatch gpu_overrun ai_convergence_collapse replay_desync factory_desync : FailureType
  policy_corruption memory_leak_detected network_timeout : FailureType
  spatial_localization_drift unknown : FailureType

abbrev pub type_index : FailureType → ℕ
type_index frame_hash_mismatch = 0
type_index gpu_overrun = 1
type_index ai_convergence_collapse = 2
type_index replay_desync = 3
type_index factory_desync = 4
type_index policy_corruption = 5
type_index memory_leak_detected = 6
type_index network_timeout = 7
type_index spatial_localization_drift = 8
type_index unknown = 9

pub record FailureEvent (Double : Type 0) : Type 0 where
  pub type : FailureType
  pub frame_id : ℕ
  pub timestamp : ℕ
  pub message : String
  pub severity : Double
  pub acknowledged : Bool
  pub tag_id : Option String
  pub error_value : Option Double
  pub threshold : Option Double

pub record RuntimeFailureBus (Double : Type 0) : Type 0 where
  pub recent_failures : List (FailureEvent Double)
  pub callbacks : List ℕ
  pub failure_counts : List ℕ  -- std::atomic<size_t>[11]
  pub has_critical : Bool

abbrev pub max_recent_failures : ℕ
max_recent_failures = 500

abbrev pub zero_counts : List ℕ
zero_counts = 0 ∷ 0 ∷ 0 ∷ 0 ∷ 0 ∷ 0 ∷ 0 ∷ 0 ∷ 0 ∷ 0 ∷ 0 ∷ []

-- `failure_counts_[i]++`, where `i` is below the array's size.
unfoldable pub count_one : List ℕ → ℕ → List ℕ
count_one [] i = []
count_one (n ∷ ns) zero = u64 (n + 1) ∷ ns
count_one (n ∷ ns) (suc i) = n ∷ count_one ns i

unfoldable pub count_at : List ℕ → ℕ → ℕ
count_at [] i = 0
count_at (n ∷ ns) zero = n
count_at (n ∷ ns) (suc i) = count_at ns i

-- `start` is computed in size_t, where a negative `n` makes it larger than the size.
unfoldable pub recent_start : ℤ → ℕ → ℕ
recent_start n size =
    if leb_ℤ (pos size) n then 0 else u64 (size + (u64_mod - pos_part n) + neg_part n)

unfoldable pub total : ℕ → List ℕ → ℕ
total acc [] = acc
total acc (n ∷ ns) = total (u64 (acc + n)) ns

module _ {Double : Type 0} where
  unfoldable pub new_bus : RuntimeFailureBus Double
  new_bus = record {
    recent_failures = [];
    callbacks = [];
    failure_counts = zero_counts;
    has_critical = false;
  }

  unfoldable pub initialize : RuntimeFailureBus Double → RuntimeFailureBus Double
  initialize b = record b {
    recent_failures = [];
    has_critical = false;
    failure_counts = zero_counts;
  }

  unfoldable pub shutdown : RuntimeFailureBus Double → RuntimeFailureBus Double
  shutdown b = record b { recent_failures = []; callbacks = [] }

  unfoldable pub clear : RuntimeFailureBus Double → RuntimeFailureBus Double
  clear b = record b { recent_failures = []; has_critical = false }

  unfoldable pub register_failure_callback : ℕ → RuntimeFailureBus Double → RuntimeFailureBus Double
  register_failure_callback c b = record b { callbacks = snoc b.callbacks c }

  -- The oldest event makes room when the window is full.
  unfoldable pub make_room : List (FailureEvent Double) → List (FailureEvent Double)
  make_room recent = if leb max_recent_failures (length recent) then drop 1 recent else recent

  unfoldable pub get_unacknowledged : RuntimeFailureBus Double → List (FailureEvent Double)
  get_unacknowledged b = keep (λ e. not e.acknowledged) b.recent_failures

  unfoldable pub get_recent : ℤ → RuntimeFailureBus Double → List (FailureEvent Double)
  unfolding recent_start
  get_recent n b = drop (recent_start n (length b.recent_failures)) b.recent_failures

  unfoldable pub get_failure_count : FailureType → RuntimeFailureBus Double → ℕ
  unfolding count_at
  get_failure_count t b = count_at b.failure_counts (type_index t)

  unfoldable pub get_total_failure_count : RuntimeFailureBus Double → ℕ
  get_total_failure_count b = total 0 b.failure_counts

  -- `failure.type == type && failure.frame_id == frameId`.
  unfoldable pub named : FailureType → ℕ → FailureEvent Double → Bool
  named t frame e = type_index e.type == type_index t && e.frame_id == frame

  -- The first loop of `acknowledge`, over the test of its condition.
  unfoldable pub mark_acknowledged :
      (FailureEvent Double → Bool) → List (FailureEvent Double) → List (FailureEvent Double)
  mark_acknowledged test [] = []
  mark_acknowledged test (e ∷ es) =
      (if test e then record e { acknowledged = true } else e) ∷ mark_acknowledged test es

module _ {Double : Type 0} (critical : Double → Bool) where
  unfoldable pub publish :
      FailureEvent Double
      → ℕ
      → RuntimeFailureBus Double
      → RuntimeFailureBus Double × List (ℕ × FailureEvent Double)
  unfolding make_room count_one
  publish event now b =
      let e : FailureEvent Double = record event { timestamp = now } in
      (
        record b {
          recent_failures = snoc (make_room b.recent_failures) e;
          failure_counts = count_one b.failure_counts (type_index e.type);
          has_critical = if critical e.severity then true else b.has_critical;
        },
        map (λ c. (c, e)) b.callbacks,
      )

  -- A failure that raises the alarm.
  abbrev pub alarming : FailureEvent Double → Bool
  alarming e = not e.acknowledged && critical e.severity

  unfoldable pub acknowledge : FailureType → ℕ → RuntimeFailureBus Double → RuntimeFailureBus Double
  unfolding mark_acknowledged
  acknowledge t frame b =
      let failures = mark_acknowledged (named t frame) b.recent_failures in
      record b { recent_failures = failures; has_critical = any alarming failures }
