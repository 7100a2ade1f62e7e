-- ===== src/Operator/Fragmentation/Examples.antt =====
-- operator/fragmentation.py: the theorems on the sample jobs, of which one waits for two others.
use kelpflux.Base.{
  ◌≡◌, ◌≢◌, ◌↔◌, refl, Bool, false, not, none, some, List, [], ◌∷◌, Text, codes, text_eq, text_le,
  mem_text, lookup, insert, filter, All, sorted, insert_sorted, any, map, leb, ◌&&◌, arith,
}
use kelpflux.Operator.Models.{seconds}
use kelpflux.Operator.Fragmentation.{
  JobView, RequeueCandidate, FragmentationSnapshot, RequeueDecision, has_actionable_fragmentation,
}
use kelpflux.Operator.Fragmentation.Detector
use kelpflux.Operator.Fragmentation.Decider
use kelpflux.Operator.Samples.{
  waiting_job, sample_jobs, sample_nodes, sample_detector, sample_decider,
}
use kelpflux.Operator.Fragmentation.Requeue.{FragmentationReconciler, reconcile}
use kelpflux.Operator.Fragmentation.Limits.{IsLimited, decisions, decisions-IsLimited}
use kelpflux.Operator.Fragmentation.Victims.{IsFair}
use kelpflux.Operator.Fragmentation.Decision.{Explains, decide-snapshot}
use kelpflux.Operator.Fragmentation.Acting.{Acts, decide-Acts_iff}
use kelpflux.Operator.Fragmentation.Ticks.{
  wanted, reconcile-actuation, IsRequeueable, reconcile-IsRequeueable, IsInOrder,
  blocked_jobs-IsInOrder,
}

abbrev sample_snapshot : FragmentationSnapshot
sample_snapshot = Detector.snapshot sample_detector sample_jobs sample_nodes 0

decisions-IsLimited_example : IsLimited (seconds 60) 5 (
    decisions sample_decider [] (
      (sample_snapshot, seconds 10)
      ∷ (sample_snapshot, seconds 20)
      ∷ (sample_snapshot, seconds 80)
      ∷ []))
decisions-IsLimited_example =
    decisions-IsLimited sample_decider _ refl (omega arith)
      (omega arith, (omega arith, (omega arith, tt)))

blocked_jobs-IsInOrder_example :
    IsInOrder (Detector.blocked_jobs sample_jobs sample_nodes)
    × (any
          (λ v. text_eq v.job_id waiting_job.job_id)
          (Detector.blocked_jobs sample_jobs sample_nodes)
        ≡ any
            (λ v.
              text_eq (map Detector.to_upper v.state) (codes "PENDING")
              && (not (any (λ n. leb v.mps_req n.free_mps) sample_nodes)
                  && text_eq v.job_id waiting_job.job_id))
            sample_jobs)
blocked_jobs-IsInOrder_example =
    blocked_jobs-IsInOrder sample_jobs sample_nodes (λ v. text_eq v.job_id waiting_job.job_id)

abbrev sample_reconciler : FragmentationReconciler
sample_reconciler = record {
  detector = sample_detector;
  decider = sample_decider;
  shadow_mode = false;
}

-- The controller refuses to requeue job 1.
abbrev raises_for_one : Text → Bool
raises_for_one jid = text_eq jid (codes "1")

reconcile-actuation_example :
    let (result, after, calls) =
      reconcile raises_for_one sample_reconciler sample_jobs sample_nodes 0 in
    (calls ≡ wanted raises_for_one false result.decision)
    × (result.requeued ≡ filter (λ jid. not (raises_for_one jid)) calls)
    × (result.actuator_errors ≡ filter raises_for_one calls)
reconcile-actuation_example =
    reconcile-actuation raises_for_one sample_reconciler sample_jobs sample_nodes 0

reconcile-IsRequeueable_example :
    All
      (IsRequeueable raises_for_one sample_reconciler sample_jobs sample_nodes 0)
      (reconcile raises_for_one sample_reconciler sample_jobs sample_nodes 0).2
reconcile-IsRequeueable_example =
    reconcile-IsRequeueable raises_for_one sample_reconciler sample_jobs sample_nodes 0

-- The longer-running of two equal victims is chosen first; both are needed.
abbrev sample_decision : RequeueDecision
sample_decision = record {
  target_job_ids = codes "2" ∷ codes "1" ∷ [];
  blocked_job_ids = codes "9" ∷ [];
  chosen_node = codes "n0";
  slots_needed = 80;
  slots_freed = 100;
  snapshot_score = record { numerator = 0; denominator = 1 };
  timestamp = seconds 10;
}

snapshot_blocks : sample_snapshot.pending_blocked ≡ waiting_job ∷ []
unfolding text_eq text_le lookup insert mem_text sorted insert_sorted has_actionable_fragmentation
    Detector.snapshot Detector.blocked_jobs Detector.pending_jobs Detector.running_jobs
    Detector.is_state Detector.to_upper Detector.fits_anywhere Detector.blocked_before
    Detector.victim_before Detector.index_nodes Detector.add_to_nodes Detector.running_by_node
    Detector.is_eligible Detector.candidate Detector.candidates_on Detector.candidates_for
    Detector.all_candidates Detector.fragmentation_score
snapshot_blocks = refl

sample_decides :
    (Decider.decide sample_decider sample_snapshot (seconds 10)).decision ≡ some sample_decision
unfolding text_eq text_le lookup insert mem_text sorted insert_sorted has_actionable_fragmentation
    Detector.snapshot Detector.blocked_jobs Detector.pending_jobs Detector.running_jobs
    Detector.is_state Detector.to_upper Detector.fits_anywhere Detector.blocked_before
    Detector.victim_before Detector.index_nodes Detector.add_to_nodes Detector.running_by_node
    Detector.is_eligible Detector.candidate Detector.candidates_on Detector.candidates_for
    Detector.all_candidates Detector.fragmentation_score Decider.is_recent Decider.trim_history
    Decider.too_soon Decider.limit_reason Decider.rate_limited Decider.frees_more Decider.node_set
    Decider.on_node Decider.freed_on Decider.more_freed_on Decider.choose Decider.for_target
    Decider.conclude Decider.act_on Decider.unblock_head Decider.decide_limited Decider.decide
sample_decides = refl

decide-snapshot_example :
    (target : JobView) × ((others : List JobView) × (Detector.blocked_jobs sample_jobs sample_nodes
        ≡ target ∷ others))
    × ((cs : List RequeueCandidate) × Explains
          (IsFair sample_detector sample_jobs sample_nodes)
          4
          target
          sample_decision
          cs)
decide-snapshot_example =
    decide-snapshot sample_detector sample_jobs sample_nodes sample_decider 0 (seconds 10)
      sample_decision sample_decides

decide-Acts_iff_example : Acts (Decider.decide sample_decider sample_snapshot (seconds 10)) ↔ (
    (Decider.limit_reason (seconds 10) (Decider.trim_history (seconds 10) sample_decider) ≡ none)
    × (Decider.for_target waiting_job sample_snapshot.candidates ≢ []))
decide-Acts_iff_example =
    decide-Acts_iff sample_decider sample_snapshot (seconds 10) waiting_job [] snapshot_blocks
