-- ===== src/Runtime/MicroKernel.antt =====
-- server/runtime/kernel: microkernel.h and .cpp, kernel_pipeline.cpp, kernel_policy_router.cpp and
-- kernel_tick_context.h, with the actions and modes of kernel_tick_result.h and kernel_abi.h.
-- Of a tick's context the model keeps what the code reads: the frame's number and time, and the flag.
pub mod Modes
mod Examples
use rfidsystem.Prelude.{ℕ, ◌==◌, Bool, true, ◌||◌, if◌then◌else◌}
use rfidsystem.Prelude.Int.{ℤ, pos, ◌-ℤ◌, ltb_ℤ, max_ℤ, min_ℤ}

pub data KernelMode : Type 0 where
  normal degraded safe inspect emergency : KernelMode

-- `no_action` is KernelAction::NONE.
pub data KernelAction : Type 0 where
  no_action continue downgrade recover emergency_stop : KernelAction

pub record KernelTickContext : Type 0 where
  pub frame_id : ℕ
  pub timestamp : ℕ
  pub replay_mode : Bool
  pub force_safe_policy : Bool

-- The fields of KernelABI that `tick` sets; it leaves the three hashes as they are.
pub record KernelAbi : Type 0 where
  pub frame_id : ℕ
  pub timestamp : ℕ
  pub trust_score : ℤ
  pub mode : KernelMode
  pub deterministic_ok : Bool
  pub causal_ok : Bool
  pub recovery_ok : Bool

pub record KernelTickResult : Type 0 where
  pub abi : KernelAbi
  pub action : KernelAction

unfoldable pub check_consistency : KernelTickContext → Bool
check_consistency ctx = true

unfoldable pub verify_proof : KernelTickContext → Bool
verify_proof ctx = true

unfoldable pub heal : KernelTickContext → KernelAction
heal ctx = if ctx.force_safe_policy then recover else continue

-- The mode for a trust score.
unfoldable pub mode_of : ℤ → KernelMode
mode_of t =
    if ltb_ℤ (pos 80) t
    then normal
    else if ltb_ℤ (pos 50) t
    then degraded
    else if ltb_ℤ (pos 30) t
    then safe
    else if ltb_ℤ (pos 10) t
    then inspect
    else emergency

-- The score after the two gates.
unfoldable pub trust_after : Bool → Bool → ℤ → ℤ
trust_after consistency_ok proof_ok t =
    let t1 : ℤ = if consistency_ok then t else t -ℤ pos 20 in
    let t2 : ℤ = if proof_ok then t1 else t1 -ℤ pos 15 in max_ℤ (pos 0) (min_ℤ (pos 100) t2)

-- MicroKernel::tick on `trust_score_`, which it returns with the result.
unfoldable pub tick : KernelTickContext → ℤ → ℤ × KernelTickResult
unfolding check_consistency verify_proof heal
tick ctx trust =
    let consistency_ok : Bool = check_consistency ctx in
    let proof_ok : Bool = verify_proof ctx in
    let trust' : ℤ = trust_after consistency_ok proof_ok trust in
    (
      trust',
      record {
        abi = record {
          frame_id = ctx.frame_id;
          timestamp = ctx.timestamp;
          trust_score = trust';
          mode = mode_of trust';
          deterministic_ok = consistency_ok;
          causal_ok = proof_ok;
          recovery_ok = true;
        };
        action = heal ctx;
      },
    )

unfoldable pub reset_trust_score : ℤ → ℤ
reset_trust_score trust = pos 100

unfoldable pub route : KernelMode → ℤ → KernelAction
route normal trust = continue
route degraded trust = downgrade
route safe trust = recover
route inspect trust = recover
route emergency trust = emergency_stop

abbrev pub mode_index : KernelMode → ℕ
mode_index normal = 0
mode_index degraded = 1
mode_index safe = 2
mode_index inspect = 3
mode_index emergency = 4

unfoldable pub should_reduce_frame_rate : KernelMode → Bool
should_reduce_frame_rate m = mode_index m == mode_index degraded || mode_index m == mode_index safe

unfoldable pub should_disable_ai : KernelMode → Bool
should_disable_ai m = mode_index m == mode_index inspect || mode_index m == mode_index emergency

unfoldable pub should_switch_to_safe_policy : KernelMode → Bool
should_switch_to_safe_policy m =
    mode_index m == mode_index safe || mode_index m == mode_index inspect
