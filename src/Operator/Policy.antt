-- ===== src/Operator/Policy.antt =====
-- operator/policy.py: the scaling policy, a function of one pool's state.
-- Counts are natural, so `current - step` stops at 0; the clamp from below by a natural number gives
-- the same result as over the integers.
pub mod Decisions
pub mod Settling
mod Examples
use kelpflux.Base.{ℕ, ◌+◌, ◌-◌, min, max, Bool, ◌&&◌, Option, ltb, if◌then◌else◌}
use kelpflux.Operator.Models.{
  Time, PartitionConfig, PartitionState, ScalingAction, scale_up, scale_down, keep, Reason,
  resource_pending_jobs, pending_jobs_not_blocked_by_resources, running_jobs_block_scale_down,
  no_pending_jobs, ScalingDecision,
}

unfoldable pub clamp : ℕ → ℕ → ℕ → ℕ
clamp value low high = max low (min value high)

unfoldable pub to_decision : ℕ → ℕ → Reason → ScalingDecision
to_decision current target reason =
    if ltb current target
    then record { target_replicas = target; action = scale_up; reason = reason }
    else if ltb target current
    then record { target_replicas = target; action = scale_down; reason = reason }
    else record { target_replicas = target; action = keep; reason = reason }

pub record CheckpointAwareQueuePolicy : Type 0 where
  pub guard_enabled : Bool

-- The lowest replica count that the scale-down branch may choose.
unfoldable pub safe_floor : PartitionConfig → PartitionState → ℕ
safe_floor partition_cfg state = max partition_cfg.min_replicas state.busy_nodes

unfoldable pub evaluate :
    CheckpointAwareQueuePolicy
    → PartitionConfig
    → PartitionState
    → Option ℕ
    → Option Time
    → ScalingDecision
unfolding clamp to_decision safe_floor
evaluate self partition_cfg state checkpoint_age_seconds missing_since_seconds =
    if ltb 0 state.scale_pending_jobs
    then to_decision state.current_replicas
        (clamp (state.current_replicas + partition_cfg.scale_up_step) partition_cfg.min_replicas
          partition_cfg.max_replicas)
        resource_pending_jobs
    else if ltb 0 state.pending_jobs
    then record {
      target_replicas = state.current_replicas;
      action = keep;
      reason = pending_jobs_not_blocked_by_resources;
    }
    else let candidate_target =
        clamp (state.current_replicas - partition_cfg.scale_down_step)
          (safe_floor partition_cfg state) partition_cfg.max_replicas in
      if ltb candidate_target state.current_replicas && ltb 0 state.running_jobs
      then record {
        target_replicas = state.current_replicas;
        action = keep;
        reason = running_jobs_block_scale_down;
      }
      else to_decision state.current_replicas candidate_target no_pending_jobs
