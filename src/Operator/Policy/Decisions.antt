-- ===== src/Operator/Policy/Decisions.antt =====
-- What operator/policy.py's decisions promise: bounds, direction, and when each action is taken.
use kelpflux.Base.{ℕ, ◌+◌, ◌≤◌, ◌<◌, min, max, ◌≡◌, refl, ◌≢◌, ◌⊎◌, ◌↔◌, Option, arith}
use kelpflux.Operator.Models.{
  Time, PartitionConfig, PartitionState, ScalingAction, scale_up, scale_down, keep,
}
use kelpflux.Operator.Policy.{CheckpointAwareQueuePolicy, safe_floor, evaluate}

-- The target lies where its action says: a scale-up goes above the current count and a scale-down
-- below it, and `keep` names the current count.
abbrev pub FollowsAction : ℕ → ScalingAction → ℕ → Type 0
FollowsAction current scale_up target = current < target
FollowsAction current scale_down target = target < current
FollowsAction current keep target = target ≡ current

module _ (self : CheckpointAwareQueuePolicy) (cfg : PartitionConfig) (s : PartitionState)
    (age : Option ℕ) (missing : Option Time) where
  -- Every decision's target lies on the side of the current count that its action names.
  pub evaluate_direction :
      let d = evaluate self cfg s age missing in
      FollowsAction s.current_replicas d.action d.target_replicas
  unfolding evaluate
  evaluate_direction = ground arith

  -- With the configured bounds in order, a decision that changes the count stays at or above
  -- `min_replicas`, and stays at or below `max_replicas` unless more nodes than that are busy.
  pub evaluate_bounds :
      cfg.min_replicas ≤ cfg.max_replicas
      → (evaluate self cfg s age missing).action ≢ keep
      → let d = evaluate self cfg s age missing in
        (cfg.min_replicas ≤ d.target_replicas)
        × (d.target_replicas ≤ max cfg.max_replicas s.busy_nodes)
  unfolding evaluate
  evaluate_bounds h changes = ground arith

  -- A decision to scale down is taken exactly when the pool has no jobs, is above its floor and has
  -- a positive step or is above its cap, or when blocked jobs wait and even a step up, clamped to
  -- the bounds, ends below the current count.
  pub evaluate-scale_down_iff : ((evaluate self cfg s age missing).action ≡ scale_down) ↔ (
      ((0 < s.scale_pending_jobs)
        × (max cfg.min_replicas (min (s.current_replicas + cfg.scale_up_step) cfg.max_replicas)
            < s.current_replicas))
      ⊎ ((s.scale_pending_jobs ≡ 0)
          × (s.pending_jobs ≡ 0)
          × (s.running_jobs ≡ 0)
          × (safe_floor cfg s < s.current_replicas)
          × ((0 < cfg.scale_down_step) ⊎ (cfg.max_replicas < s.current_replicas))))
  unfolding evaluate
  evaluate-scale_down_iff = ground arith

-- Neither the guard switch, nor the checkpoint's age, nor how long it has been missing has any
-- influence on the decision.
pub evaluate-ignores_checkpoint :
    (self other : CheckpointAwareQueuePolicy) (cfg : PartitionConfig) (s : PartitionState)
    (age age' : Option ℕ) (missing missing' : Option Time)
    → evaluate self cfg s age missing ≡ evaluate other cfg s age' missing'
unfolding evaluate
evaluate-ignores_checkpoint self other cfg s age age' missing missing' = refl
