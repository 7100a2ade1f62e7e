-- ===== src/Operator/FragmentationLoop.antt =====
-- operator/fragmentation_loop.py: one cycle of the fragmentation reconciler. The answers of Slurm's
-- REST interface are a parameter, `none` where the call raises.
pub mod Cycles
mod Examples
use kelpflux.Base.{
  ℕ, Bool, true, false, not, Option, none, some, List, [], ◌∷◌, ◌++◌, Text, length, if◌then◌else◌,
}
use kelpflux.Operator.Models.{Time}
use kelpflux.Operator.Fragmentation.{Score, nonempty}
use kelpflux.Operator.Fragmentation.Decider.{
  DecideReason, no_fragmentation, min_interval, hourly_cap, no_candidates_for_head,
  no_victims_after_priority_gap, unblock,
}
use kelpflux.Operator.Fragmentation.Adapters.{
  RestJob, RestNode, jobs_from_slurm_rest, nodes_from_slurm_rest,
}
use kelpflux.Operator.Fragmentation.Requeue.{FragmentationReconciler, ReconcileResult, reconcile}

pub record Rest : Type 0 where
  pub list_jobs : Text → Option (List RestJob)
  pub list_nodes : Option (List RestNode)

-- The jobs of all partitions; `none` with the first call that raises.
unfoldable pub and_jobs : List RestJob → Option (List RestJob) → Option (List RestJob)
and_jobs first none = none
and_jobs first (some others) = some (first ++ others)

unfoldable pub list_all : (Text → Option (List RestJob)) → List Text → Option (List RestJob)
unfolding and_jobs
list_all list_jobs [] = some []
list_all list_jobs (part ∷ parts) =
    let later = list_all list_jobs parts in
    elim (list_jobs part) [ none ↦ none | some jobs ↦ and_jobs jobs later ]

-- The label `reason` of the counter of cycles.
pub data RequeueLabel : Type 0 where
  rate_limited_label no_fragmentation_label no_victims_label unblock_label : RequeueLabel

unfoldable pub reason_label : DecideReason → RequeueLabel
reason_label min_interval = rate_limited_label
reason_label hourly_cap = rate_limited_label
reason_label no_fragmentation = no_fragmentation_label
reason_label no_candidates_for_head = no_victims_label
reason_label no_victims_after_priority_gap = no_victims_label
reason_label unblock = unblock_label

pub data Logged : Type 0 where
  nothing fragmentation_error requeue_decision requeue_skipped : Logged

-- What is logged of a cycle that has run, by its label and whether there was a decision.
unfoldable pub logged_for : RequeueLabel → Bool → Logged
logged_for label true = requeue_decision
logged_for no_fragmentation_label false = nothing
logged_for label false = requeue_skipped

-- The metrics of a cycle that has run.
pub record Report : Type 0 where
  pub score : Score
  pub blocked : ℕ
  pub label : RequeueLabel
  pub victims : ℕ

-- The calls of the actuator, the reconciler after the cycle, its metrics and its log line.
pub record Cycle : Type 0 where
  pub calls : List Text
  pub reconciler : FragmentationReconciler
  pub report : Option Report
  pub logged : Logged

abbrev pub stopped : Logged → FragmentationReconciler → Cycle
stopped why self = record { calls = []; reconciler = self; report = none; logged = why }

abbrev is_decided : {A : Type 0} → Option A → Bool
is_decided none = false
is_decided (some d) = true

module _ (raises : Text → Bool) (self : FragmentationReconciler) (now : Time) where
  unfoldable pub run_cycle : List RestJob → List RestNode → Cycle
  unfolding reason_label logged_for
  run_cycle rest_jobs rest_nodes =
      let mps = self.detector.mps_per_node in
      let (result, after, calls) =
        reconcile raises self (jobs_from_slurm_rest mps rest_jobs)
          (nodes_from_slurm_rest mps rest_nodes) now in
      record {
        calls = calls;
        reconciler = after;
        report = some (record {
          score = result.snapshot.score;
          blocked = length result.snapshot.pending_blocked;
          label = reason_label result.reason;
          victims = length result.requeued;
        });
        logged = logged_for (reason_label result.reason) (is_decided result.decision);
      }

  unfoldable pub with_nodes : List RestJob → Option (List RestNode) → Cycle
  unfolding run_cycle
  with_nodes rest_jobs none = stopped fragmentation_error self
  with_nodes rest_jobs (some rest_nodes) = run_cycle rest_jobs rest_nodes

  unfoldable pub with_jobs : Option (List RestJob) → Option (List RestNode) → Cycle
  unfolding with_nodes
  with_jobs none nodes = stopped fragmentation_error self
  with_jobs (some rest_jobs) nodes = with_nodes rest_jobs nodes

  -- The configured partitions, or those of all pools where none are configured.
  abbrev pub partitions_of : List Text → List Text → List Text
  partitions_of configured pools = if nonempty configured then configured else pools

  unfoldable pub fragmentation_tick : Option Rest → List Text → List Text → Cycle
  unfolding with_jobs list_all
  fragmentation_tick none configured pools = stopped nothing self
  fragmentation_tick (some rest) configured pools =
      with_jobs (list_all rest.list_jobs (partitions_of configured pools)) rest.list_nodes
