-- ===== src/Operator/Fragmentation/Requeue.antt =====
-- operator/fragmentation.py, class FragmentationReconciler: detect, decide, and act unless shadowed.
-- The actuator issues Slurm's requeue call; `raises` says for which job it raises.
use kelpflux.Base.{Bool, true, false, Option, none, some, List, [], ◌∷◌, Text, if◌then◌else◌}
use kelpflux.Operator.Models.{Time}
use kelpflux.Operator.Fragmentation.{JobView, NodeView, FragmentationSnapshot, RequeueDecision}
use kelpflux.Operator.Fragmentation.Detector.{FragmentationDetector, snapshot}
use kelpflux.Operator.Fragmentation.Decider.{RequeueDecider, DecideReason, decide}

pub record FragmentationReconciler : Type 0 where
  pub detector : FragmentationDetector
  pub decider : RequeueDecider
  pub shadow_mode : Bool

pub record ReconcileResult : Type 0 where
  pub snapshot : FragmentationSnapshot
  pub decision : Option RequeueDecision
  pub reason : DecideReason
  pub requeued : List Text
  pub shadow : Bool
  pub actuator_errors : List Text

-- The loop over the decision's jobs: the calls that it makes, those that succeed, those that raise.
-- Of an error only the job's id is kept; the source appends the exception's type and text.
pub record Actuation : Type 0 where
  pub calls : List Text
  pub succeeded : List Text
  pub errors : List Text

abbrev pub no_action : Actuation
no_action = record { calls = []; succeeded = []; errors = [] }

module _ (raises : Text → Bool) where
  unfoldable pub actuate : List Text → Actuation
  actuate [] = no_action
  actuate (jid ∷ rest) =
      let others = actuate rest in
      if raises jid
      then record others { calls = jid ∷ others.calls; errors = jid ∷ others.errors }
      else record others { calls = jid ∷ others.calls; succeeded = jid ∷ others.succeeded }

  unfoldable pub act : Bool → Option RequeueDecision → Actuation
  act shadow none = no_action
  act true (some d) = no_action
  act false (some d) = actuate d.target_job_ids

  -- The result, the reconciler with the decider's new history, and the calls to the actuator.
  unfoldable pub reconcile :
      FragmentationReconciler
      → List JobView
      → List NodeView
      → Time
      → ReconcileResult × FragmentationReconciler × List Text
  reconcile self jobs nodes now =
      let snap = snapshot self.detector jobs nodes now in
      let outcome = decide self.decider snap now in
      let acted = act self.shadow_mode outcome.decision in
      (
        record {
          snapshot = snap;
          decision = outcome.decision;
          reason = outcome.reason;
          requeued = acted.succeeded;
          shadow = self.shadow_mode;
          actuator_errors = acted.errors;
        },
        record self { decider = outcome.decider },
        acted.calls,
      )
