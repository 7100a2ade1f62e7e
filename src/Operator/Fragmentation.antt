-- ===== src/Operator/Fragmentation.antt =====
-- operator/fragmentation.py, the data types: snapshots of jobs and nodes, and what detector and
-- decider hand on. Seconds are in the unit of Models; MPS slots, priorities and counts are natural.
pub mod Detector
pub mod Decider
pub mod Requeue
pub mod Parsers
pub mod Adapters
pub mod Capacity
mod Reports
pub mod Limits
pub mod Victims
pub mod Choice
pub mod Decision
pub mod Acting
pub mod Ticks
mod Examples
use kelpflux.Base.{ℕ, ◌-◌, Bool, false, true, ◌&&◌, List, [], ◌∷◌, Text}
use kelpflux.Operator.Models.{Time}

pub record JobView : Type 0 where
  pub job_id : Text
  pub user : Text
  pub partition : Text
  pub state : Text
  pub priority : ℕ
  pub mps_req : ℕ
  pub gpu_count : ℕ
  pub nodes : List Text
  pub submit_ts : Time
  pub runtime_seconds : Time

pub record NodeView : Type 0 where
  pub node_id : Text
  pub free_mps : ℕ
  pub total_mps : ℕ

-- `free_mps` is at most `total_mps` in every view that the adapters build.
unfoldable pub used_mps : NodeView → ℕ
used_mps n = n.total_mps - n.free_mps

pub record RequeueCandidate : Type 0 where
  pub victim : JobView
  pub target : JobView
  pub node_id : Text
  pub slots_freed : ℕ

-- The score is a coefficient of variation, a square root. It is kept as the fraction that is its
-- square.
pub record Score : Type 0 where
  pub numerator : ℕ
  pub denominator : ℕ

pub record FragmentationSnapshot : Type 0 where
  pub timestamp : Time
  pub score : Score
  pub free_mps_per_node : List ℕ
  pub pending_blocked : List JobView
  pub candidates : List RequeueCandidate

abbrev pub nonempty {ℓ} : {A : Type ℓ} → List A → Bool
nonempty [] = false
nonempty (x ∷ xs) = true

unfoldable pub has_actionable_fragmentation : FragmentationSnapshot → Bool
has_actionable_fragmentation s = nonempty s.pending_blocked && nonempty s.candidates

pub record RequeueDecision : Type 0 where
  pub target_job_ids : List Text
  pub blocked_job_ids : List Text
  -- What the text of the reason tells beside the ids: the node, the slots needed and freed.
  pub chosen_node : Text
  pub slots_needed : ℕ
  pub slots_freed : ℕ
  pub snapshot_score : Score
  pub timestamp : Time
