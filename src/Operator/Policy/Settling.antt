-- ===== src/Operator/Policy/Settling.antt =====
-- Repeated decisions of operator/policy.py on a pool whose demand stays as it is: where the replica
-- count ends, and in how many rounds.
use kelpflux.Base.{ℕ, zero, suc, ◌+◌, ◌≤◌, ◌<◌, max, ◌≡◌, ◌∙◌, none, arith}
use kelpflux.Operator.Models.{PartitionConfig, PartitionState}
use kelpflux.Operator.Policy.{CheckpointAwareQueuePolicy, safe_floor, evaluate}

module _ (self : CheckpointAwareQueuePolicy) (cfg : PartitionConfig) where
  -- The state in which the decision has been carried out and nothing else has changed.
  pub carried_out : PartitionState → PartitionState
  carried_out s = record s { current_replicas = (evaluate self cfg s none none).target_replicas }

  pub rounds : ℕ → PartitionState → PartitionState
  rounds zero s = s
  rounds (suc n) s = rounds n (carried_out s)

  up_step :
      (s : PartitionState) (n : ℕ)
      → 0 < s.scale_pending_jobs
      → 0 < cfg.scale_up_step
      → s.current_replicas ≤ cfg.max_replicas
      → cfg.max_replicas ≤ s.current_replicas + suc n
      → (0 < (carried_out s).scale_pending_jobs)
        × ((carried_out s).current_replicas ≤ max cfg.min_replicas cfg.max_replicas)
        × (cfg.max_replicas ≤ (carried_out s).current_replicas + n)
  unfolding carried_out evaluate
  up_step s n demand step below near = ground arith

  -- With a positive step, bounds in order and the pool within its cap, while jobs wait for
  -- resources, any number of rounds that is at least the number of missing replicas brings the pool
  -- to `max_replicas`.
  pub rounds-reach_max :
      (n : ℕ) (s : PartitionState)
      → 0 < s.scale_pending_jobs
      → 0 < cfg.scale_up_step
      → cfg.min_replicas ≤ cfg.max_replicas
      → s.current_replicas ≤ cfg.max_replicas
      → cfg.max_replicas ≤ s.current_replicas + n
      → (rounds n s).current_replicas ≡ cfg.max_replicas
  unfolding rounds
  rounds-reach_max zero s demand step ordered below near = omega arith
  rounds-reach_max (suc n) s demand step ordered below near =
      let (demand', below', near') = up_step s n demand step below near in
      rounds-reach_max n (carried_out s) demand' step ordered (omega arith) near'

  abbrev IsIdle : PartitionState → Type 0
  IsIdle s = (s.scale_pending_jobs ≡ 0) × (s.pending_jobs ≡ 0) × (s.running_jobs ≡ 0)

  down_step :
      (s : PartitionState) (n : ℕ)
      → IsIdle s
      → 0 < cfg.scale_down_step
      → safe_floor cfg s ≤ cfg.max_replicas
      → s.current_replicas ≤ safe_floor cfg s + suc n
      → IsIdle (carried_out s)
        × (safe_floor cfg (carried_out s) ≡ safe_floor cfg s)
        × (safe_floor cfg s ≤ (carried_out s).current_replicas)
        × ((carried_out s).current_replicas ≤ safe_floor cfg s + n)
  unfolding carried_out evaluate
  down_step s n idle step ordered near = ground arith

  settled :
      (n : ℕ) (s : PartitionState)
      → IsIdle s
      → 0 < cfg.scale_down_step
      → safe_floor cfg s ≤ cfg.max_replicas
      → safe_floor cfg s ≤ s.current_replicas
      → s.current_replicas ≤ safe_floor cfg s + n
      → (rounds n s).current_replicas ≡ safe_floor cfg s
  unfolding rounds
  settled zero s idle step ordered above near = omega arith
  settled (suc n) s idle step ordered above near =
      let (idle', same, above', near') = down_step s n idle step ordered near in
      settled n (carried_out s) idle' step (omega arith) (omega arith) (omega arith) ∙ same

  -- With a positive step and a floor within the cap, a pool without jobs reaches the floor
  -- (`min_replicas`, or the busy nodes if they are more) from above or below, in one round more
  -- than any number that is at least the number of its replicas above the floor.
  pub rounds-reach_floor :
      (n : ℕ) (s : PartitionState)
      → (s.scale_pending_jobs ≡ 0) × (s.pending_jobs ≡ 0) × (s.running_jobs ≡ 0)
      → 0 < cfg.scale_down_step
      → safe_floor cfg s ≤ cfg.max_replicas
      → s.current_replicas ≤ safe_floor cfg s + n
      → (rounds (suc n) s).current_replicas ≡ safe_floor cfg s
  unfolding rounds
  rounds-reach_floor n s idle step ordered near =
      let (idle', same, above', near') = down_step s n idle step ordered (omega arith) in
      settled n (carried_out s) idle' step (omega arith) (omega arith) (omega arith) ∙ same
