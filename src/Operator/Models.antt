-- ===== src/Operator/Models.antt =====
-- operator/models.py: the data classes that the operator's modules share.
-- The environment's defaults are left out: every field is given by the caller. Counts and seconds
-- are natural numbers, and text is a list of code points.
use kelpflux.Base.{ℕ, ◌*◌, Bool, List, Text}

-- A moment of time.time() in microseconds, and a configured number of seconds in that unit.
abbrev pub Time : Type 0
Time = ℕ

abbrev pub seconds : ℕ → Time
seconds n = n * 1000000

pub record PartitionConfig : Type 0 where
  pub partition : Text
  pub worker_statefulset : Text
  pub min_replicas : ℕ
  pub max_replicas : ℕ
  pub scale_up_step : ℕ
  pub scale_down_step : ℕ
  pub scale_down_cooldown : ℕ
  pub checkpoint_path : Text
  pub max_checkpoint_age_seconds : ℕ
  pub checkpoint_grace_seconds : ℕ
  pub drain_timeout_seconds : ℕ
  pub match_features : List Text
  pub match_gres : List Text
  pub cpus_per_node : ℕ
  pub memory_mb_per_node : ℕ
  pub fallback : Bool

-- What the control loop reads of the configuration.
pub record Config : Type 0 where
  pub reconcile_period_seconds : ℕ
  pub checkpoint_guard_enabled : Bool
  pub provisioning_timeout_seconds : ℕ
  pub provisioning_retry_seconds : ℕ

pub record PartitionState : Type 0 where
  pub partition : Text
  pub worker_statefulset : Text
  pub current_replicas : ℕ
  pub pending_jobs : ℕ
  pub running_jobs : ℕ
  pub busy_nodes : ℕ
  pub scale_pending_jobs : ℕ

pub data ScalingAction : Type 0 where
  scale_up scale_down keep : ScalingAction

-- The texts that a decision gives as its reason.
pub data Reason : Type 0 where
  resource_pending_jobs pending_jobs_not_blocked_by_resources : Reason
  running_jobs_block_scale_down no_pending_jobs : Reason
  provisioning_retry_backoff provisioning_in_flight : Reason
  checkpoint_unknown_block_scale_down checkpoint_stale_block_scale_down : Reason

pub record ScalingDecision : Type 0 where
  pub target_replicas : ℕ
  pub action : ScalingAction
  pub reason : Reason
