-- ===== src/Operator/Reconciler/Stages.antt =====
-- operator/reconciler.py and scale_actions.py: the parts of a pass that patch a replica count or
-- end a provisioning, each under the permission that it needs.
use kelpflux.Base.{ℕ, ◌≡◌, ◌≢◌, refl, false, Option, none, some, List, Text, Dict, lookup, leb}
use kelpflux.Operator.Models.{
  Time, PartitionConfig, Config, PartitionState, ScalingDecision, scale_up, scale_down, keep,
  ScalingAction,
}
use kelpflux.Operator.Policy.{CheckpointAwareQueuePolicy, evaluate}
use kelpflux.Operator.Effects.{
  Provisioning, Effect, is_patch, patch_replicas, World, App, Action, ◌>>=◌,
}
use kelpflux.Operator.Effects.Keeps.{
  Leads, Keeps, Keeps-pure, Keeps-bind, Keeps-if, Keeps-get, Keeps-note, keeps_rules,
}
use kelpflux.Operator.Effects.Answers.{Leads-time-bind}
use kelpflux.Operator.ScaleActions.{shrink, drain_then_scale, do_scale_down, do_scale_up}
use kelpflux.Operator.ScaleActions.Reads.{kill_overdue-quiet, all_idle-quiet}
use kelpflux.Operator.Reconciler.{
  require, complete_provisioning, roll_back, check_deadline, check_begun, clear_retry,
  gate_scale_up, dispatch, decide_and_act,
}
use kelpflux.Operator.Reconciler.Quiet.{
  Respects, save_scale_up-quiet, cancel_drains-quiet, trace_decision-quiet, start_drains-quiet,
  do_keep-quiet, best_effort_annotation-quiet, observe_latency-quiet, read_overdue-quiet,
  read_checkpoint_age-quiet, missing_since-quiet, require-quiet, trace_jobs-quiet,
}

-- The rest of a block knows what a key held.
pub Keeps-require-bind :
    {A B : Type 0} {P : App → Type 0} (o : Option A) (f : A → Action B)
    → ((a : A) → o ≡ some a → Keeps P (f a))
    → Keeps P (require o >>= f)
unfolding require ◌>>=◌
Keeps-require-bind none f k = record { at = λ app h. h }
Keeps-require-bind (some a) f k = k a refl

pub Leads-require-bind :
    {A B : Type 0} {P Q : App → Type 0} (o : Option A) (f : A → Action B)
    → ((app : App) → P app → Q app)
    → ((a : A) → o ≡ some a → Leads P Q (f a))
    → Leads P Q (require o >>= f)
unfolding require ◌>>=◌
Leads-require-bind none f w k = record { at = w }
Leads-require-bind (some a) f w k = k a refl

module _ (old : List Effect) {Allowed : Effect → Type 0}
    (G : Dict Provisioning → Dict Time → Type 0)
    (quiet : (e : Effect) → is_patch e ≡ false → Allowed e) (world : World) where
  shrink-Respects :
      (c : PartitionConfig) (s : PartitionState) (d : ScalingDecision) (k : Text)
      (nodes : List Text) (now : Time)
      → Allowed (patch_replicas c.worker_statefulset d.target_replicas)
      → Respects old Allowed G (shrink world c s d k nodes now)
  unfolding shrink
  shrink-Respects c s d k nodes now ok_patch = search (keeps_rules, quiet) depth 14

  drain_then_scale-Respects :
      (c : PartitionConfig) (s : PartitionState) (d : ScalingDecision) (k : Text)
      → Allowed (patch_replicas c.worker_statefulset d.target_replicas)
      → Respects old Allowed G (drain_then_scale world c s d k)
  unfolding drain_then_scale
  drain_then_scale-Respects c s d k ok_patch =
      search
        (
          keeps_rules,
          quiet,
          start_drains-quiet old G quiet world,
          kill_overdue-quiet old (λ b. G b.provisioning b.provisioning_retry_at) quiet world,
          all_idle-quiet old (λ b. G b.provisioning b.provisioning_retry_at) quiet world,
          shrink-Respects,
        )
        depth 14

  pub do_scale_down-Respects :
      (c : PartitionConfig) (s : PartitionState) (d : ScalingDecision) (k : Text) (last now : Time)
      → Allowed (patch_replicas c.worker_statefulset d.target_replicas)
      → Respects old Allowed G (do_scale_down world c s d k last now)
  unfolding do_scale_down
  do_scale_down-Respects c s d k last now ok_patch =
      search (keeps_rules, quiet, drain_then_scale-Respects) depth 14

  -- The method from the reading of the checkpoint on, given what the last branch does.
  pub decide_and_act-Respects :
      (config : Config) (policy : CheckpointAwareQueuePolicy) (c : PartitionConfig)
      (s : PartitionState) (k : Text)
      → ((age : Option ℕ) (missing : Option Time) (last : Time) (tick : ℕ)
          → Respects old Allowed G (
              dispatch world config
                (evaluate policy c s age missing).action
                c
                s
                (evaluate policy c s age missing)
                k
                last
                (world.clock tick)))
      → Respects old Allowed G (decide_and_act world config policy c s k)
  unfolding decide_and_act
  decide_and_act-Respects config policy c s k last_branch =
      Keeps-bind _ _ (read_checkpoint_age-quiet old G quiet world config c.checkpoint_path) λ age.
        Keeps-bind _ _ (missing_since-quiet old G quiet world config k c.checkpoint_path age)
          λ missing. Leads-time-bind world _ λ tick. Keeps-bind _ _ Keeps-get λ b.
            Keeps-bind _ _ (require-quiet old G quiet world (lookup k b.last_scale_action_at))
              λ last. Keeps-bind _ _ (trace_jobs-quiet old G quiet world config c) λ _.
                Keeps-bind _ _ (Keeps-note _ (quiet _ refl)) λ _. last_branch age missing last tick

module _ (old : List Effect) {Allowed : Effect → Type 0}
    (quiet : (e : Effect) → is_patch e ≡ false → Allowed e) (world : World) (config : Config) where
  complete_provisioning-Respects :
      (k : Text) (begun : Provisioning)
      → Respects old Allowed (λ p r. Unit) (complete_provisioning world config k begun)
  unfolding complete_provisioning
  complete_provisioning-Respects k begun =
      search
        (
          keeps_rules,
          quiet,
          observe_latency-quiet old (λ p r. Unit) quiet world config,
          best_effort_annotation-quiet old (λ p r. Unit) quiet world config,
        )
        depth 14

  roll_back-Respects :
      (k : Text) (begun : Provisioning)
      → Allowed (patch_replicas k begun.from_replicas)
      → Respects old Allowed (λ p r. Unit) (roll_back world config k begun)
  unfolding roll_back
  roll_back-Respects k begun ok_patch =
      search (keeps_rules, quiet, best_effort_annotation-quiet old (λ p r. Unit) quiet world config)
        depth 14

  check_deadline-Respects :
      (k : Text) (begun : Provisioning)
      → Allowed (patch_replicas k begun.from_replicas)
      → Respects old Allowed (λ p r. Unit) (check_deadline world config k begun)
  unfolding check_deadline
  check_deadline-Respects k begun ok_patch =
      search
        (keeps_rules, read_overdue-quiet old (λ p r. Unit) quiet world config, roll_back-Respects)
        depth 14

  pub check_begun-Respects :
      (k : Text) (ready : ℕ) (begun : Option Provisioning)
      → ((p : Provisioning) → begun ≡ some p → Allowed (patch_replicas k p.from_replicas))
      → Respects old Allowed (λ p r. Unit) (check_begun world config k ready begun)
  unfolding check_begun
  check_begun-Respects k ready none ok_patch = Keeps-pure tt
  check_begun-Respects k ready (some p) ok_patch =
      Keeps-if (leb p.target_replicas ready) _ _ (λ _. complete_provisioning-Respects k p)
        (λ _. check_deadline-Respects k p (ok_patch p refl))

  do_scale_up-Respects :
      (c : PartitionConfig) (s : PartitionState) (d : ScalingDecision) (k : Text) (now : Time)
      → Allowed (patch_replicas c.worker_statefulset d.target_replicas)
      → Respects old Allowed (λ p r. Unit) (do_scale_up world c s d k now)
  unfolding do_scale_up
  do_scale_up-Respects c s d k now ok_patch =
      search
        (
          keeps_rules,
          quiet,
          cancel_drains-quiet old (λ p r. Unit) quiet world,
          trace_decision-quiet old (λ p r. Unit) quiet world,
          save_scale_up-quiet old (λ p r. Unit) quiet world,
        )
        depth 14

  clear_retry-Respects :
      (k : Text) (retry_at : Time)
      → Respects old Allowed (λ p r. Unit) (clear_retry world config k retry_at)
  unfolding clear_retry
  clear_retry-Respects k retry_at =
      search (keeps_rules, best_effort_annotation-quiet old (λ p r. Unit) quiet world config) depth
        14

  gate_scale_up-Respects :
      (c : PartitionConfig) (s : PartitionState) (d : ScalingDecision) (k : Text) (now : Time)
      → Allowed (patch_replicas c.worker_statefulset d.target_replicas)
      → Respects old Allowed (λ p r. Unit) (gate_scale_up world config c s d k now)
  unfolding gate_scale_up
  gate_scale_up-Respects c s d k now ok_patch =
      search
        (
          keeps_rules,
          quiet,
          do_keep-quiet old (λ p r. Unit) quiet world,
          clear_retry-Respects,
          do_scale_up-Respects,
        )
        depth 14

  pub dispatch-Respects :
      (a : ScalingAction) (c : PartitionConfig) (s : PartitionState) (d : ScalingDecision)
      (k : Text) (last now : Time)
      → (a ≢ keep → Allowed (patch_replicas c.worker_statefulset d.target_replicas))
      → Respects old Allowed (λ p r. Unit) (dispatch world config a c s d k last now)
  unfolding dispatch
  dispatch-Respects scale_up c s d k last now ok_patch =
      gate_scale_up-Respects c s d k now (ok_patch (λ e. cc))
  dispatch-Respects scale_down c s d k last now ok_patch =
      do_scale_down-Respects old (λ p r. Unit) quiet world c s d k last now (ok_patch (λ e. cc))
  dispatch-Respects keep c s d k last now ok_patch = do_keep-quiet old (λ p r. Unit) quiet world d
