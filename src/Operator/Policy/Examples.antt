-- ===== src/Operator/Policy/Examples.antt =====
-- operator/policy.py: the theorems on the sample pool.
use kelpflux.Base.{◌≤◌, ◌<◌, max, ◌≡◌, refl, ◌↔◌, ◌⊎◌, false, none, some, min, ◌+◌, arith}
use kelpflux.Operator.Models.{scale_down}
use kelpflux.Operator.Samples.{sample_policy, sample_cfg, waiting_state, idle_state}
use kelpflux.Operator.Policy.{safe_floor, evaluate}
use kelpflux.Operator.Policy.Decisions.{
  FollowsAction, evaluate_direction, evaluate_bounds, evaluate-scale_down_iff,
  evaluate-ignores_checkpoint,
}
use kelpflux.Operator.Policy.Settling.{rounds, rounds-reach_max, rounds-reach_floor}

evaluate_direction_example :
    let d = evaluate sample_policy sample_cfg waiting_state none none in
    FollowsAction 1 d.action d.target_replicas
evaluate_direction_example = evaluate_direction sample_policy sample_cfg waiting_state none none

evaluate_bounds_example :
    let d = evaluate sample_policy sample_cfg waiting_state none none in
    (1 ≤ d.target_replicas) × (d.target_replicas ≤ 4)
unfolding evaluate
evaluate_bounds_example =
    evaluate_bounds sample_policy sample_cfg waiting_state none none (omega arith)
      (λ e. ground (arith, e))

evaluate-scale_down_iff_example :
    ((evaluate sample_policy sample_cfg idle_state none none).action ≡ scale_down) ↔ (
      ((0 < idle_state.scale_pending_jobs)
        × (max sample_cfg.min_replicas
              (min (idle_state.current_replicas + sample_cfg.scale_up_step) sample_cfg.max_replicas)
            < idle_state.current_replicas))
      ⊎ ((idle_state.scale_pending_jobs ≡ 0)
          × (idle_state.pending_jobs ≡ 0)
          × (idle_state.running_jobs ≡ 0)
          × (safe_floor sample_cfg idle_state < idle_state.current_replicas)
          × ((0 < sample_cfg.scale_down_step)
              ⊎ (sample_cfg.max_replicas < idle_state.current_replicas))))
evaluate-scale_down_iff_example =
    evaluate-scale_down_iff sample_policy sample_cfg idle_state none none

evaluate-ignores_checkpoint_example :
    evaluate sample_policy sample_cfg idle_state (some 5) none
    ≡ evaluate (record { guard_enabled = false }) sample_cfg idle_state none (some 1000)
evaluate-ignores_checkpoint_example =
    evaluate-ignores_checkpoint sample_policy (record { guard_enabled = false }) sample_cfg
      idle_state (some 5) none none (some 1000)

rounds-reach_max_example : (rounds sample_policy sample_cfg 3 waiting_state).current_replicas ≡ 4
rounds-reach_max_example =
    rounds-reach_max sample_policy sample_cfg 3 waiting_state (omega arith) (omega arith)
      (omega arith) (omega arith) (omega arith)

rounds-reach_floor_example : (rounds sample_policy sample_cfg 3 idle_state).current_replicas ≡ 1
unfolding safe_floor
rounds-reach_floor_example =
    rounds-reach_floor sample_policy sample_cfg 2 idle_state (refl, refl, refl) (omega arith)
      (omega arith) (omega arith)
