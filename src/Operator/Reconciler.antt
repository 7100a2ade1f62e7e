-- ===== src/Operator/Reconciler.antt =====
-- operator/reconciler.py: _process_pool, the decision loop of one pool.
-- Its stages stand in the order of the method. An exception that a stage lets through is caught and
-- logged by `process_pool`, with the state as the stage left it.
mod Quiet
mod Stages
pub mod Patches
pub mod Gate
pub mod Waiting
mod Examples
use kelpflux.Base.{
  ℕ, ◌+◌, ◌-◌, Bool, true, false, not, ◌&&◌, Option, none, some, List, [], ◌∷◌, Text, codes, range,
  lookup, insert, erase, Dict, ltb, leb, ◌==◌, if◌then◌else◌,
}
use kelpflux.Operator.Models.{
  Time, seconds, PartitionConfig, Config, PartitionState, ScalingAction, scale_up, scale_down, keep,
  Reason, provisioning_retry_backoff, provisioning_in_flight, ScalingDecision,
}
use kelpflux.Operator.Policy.{CheckpointAwareQueuePolicy, evaluate}
use kelpflux.Operator.Effects.{
  Provisioning, last_scale_action, provisioning_marker, provisioning_retry, AnnotationKey,
  AnnotationValue, blank, moment, ghost_detected_total, provisioning_timeout_total,
  current_replicas, pods_ready, ghost_jobs_present, provisioning_latency, provisioning_timeout,
  ghost_jobs_detected, scale_deferred, loop_observation, error, patch_replicas, set_annotation,
  resume_slurm_node, future_slurm_node, get_ready_replicas, get_checkpoint_age, start_span,
  end_span, metric, log, World, App, Result, ok, raised, Action, after_effect, pure, get, modify,
  raise_error, ◌>>=◌, ◌>>◌, suppress, for_each, note, inc, emit, call, ask, peek, time,
}
use kelpflux.Operator.ScaleActions.{node_name, get_or, do_scale_up, do_scale_down, do_keep}
use kelpflux.Operator.JobTraces.{update_traces}

unfoldable pub is_some {ℓ} : {A : Type ℓ} → Option A → Bool
is_some none = false
is_some (some a) = true

-- d[k], which raises on a missing key
unfoldable pub require : {A : Type 0} → Option A → Action A
require none = raise_error
require (some a) = pure a

module _ (world : World) (config : Config) where
  unfoldable pub best_effort_annotation : Text → AnnotationKey → AnnotationValue → Action (Unit {0})
  best_effort_annotation key name value = suppress (call world (set_annotation key name value))

  unfoldable pub observe_latency : Text → Action (Unit {0})
  observe_latency key =
      if world.otel_enabled
      then note (start_span (codes "k8s_provisioning") key)
        >> note (end_span (codes "k8s_provisioning") key)
        >> inc provisioning_latency
      else inc provisioning_latency

  -- The pods of the last scale-up are ready: it is over, and its new nodes may take jobs.
  unfoldable pub complete_provisioning : Text → Provisioning → Action (Unit {0})
  complete_provisioning key begun = do
    now ← time world
    observe_latency key
    modify (λ s. record s {
      provisioning = erase key s.provisioning;
      provisioning_retry_at = erase key s.provisioning_retry_at;
    })
    best_effort_annotation key provisioning_marker blank
    best_effort_annotation key provisioning_retry blank
    suppress (
        for_each (λ i. call world (resume_slurm_node (node_name key i)))
          (range begun.from_replicas begun.target_replicas))

  -- The pods of the last scale-up did not come in time: take it back, and wait before the next.
  unfoldable pub roll_back : Text → Provisioning → Action (Unit {0})
  roll_back key begun = do
    for_each (λ i. suppress (call world (future_slurm_node (node_name key i))))
        (range begun.from_replicas begun.target_replicas)
    call world (patch_replicas key begun.from_replicas)
    now ← time world
    let retry_at = now + seconds config.provisioning_retry_seconds
    modify (λ s. record s {
      last_scale_action_at = insert key now s.last_scale_action_at;
      provisioning_retry_at = insert key retry_at s.provisioning_retry_at;
      provisioning = erase key s.provisioning;
    })
    best_effort_annotation key provisioning_marker blank
    best_effort_annotation key last_scale_action (moment now)
    best_effort_annotation key provisioning_retry (moment retry_at)
    inc provisioning_timeout_total
    emit (provisioning_timeout begun)

  unfoldable pub is_overdue : Provisioning → Time → Bool
  is_overdue begun now = leb (begun.started_at + seconds config.provisioning_timeout_seconds) now

  -- The clock is read only where a timeout is configured.
  unfoldable pub read_overdue : Provisioning → Action Bool
  read_overdue begun =
      if ltb 0 config.provisioning_timeout_seconds
      then (time world >>= λ now. pure (is_overdue begun now))
      else pure false

  unfoldable pub check_deadline : Text → Provisioning → Action (Unit {0})
  check_deadline key begun = do
    overdue ← read_overdue begun
    if overdue then roll_back key begun else pure tt

  unfoldable pub check_begun : Text → ℕ → Option Provisioning → Action (Unit {0})
  check_begun key ready none = pure tt
  check_begun key ready (some begun) =
      if leb begun.target_replicas ready
      then complete_provisioning key begun
      else check_deadline key begun

  -- The part of the method on a scale-up that is under way.
  unfoldable pub check_provisioning : Text → ℕ → Action (Unit {0})
  check_provisioning key ready = do app ← get; check_begun key ready (lookup key app.provisioning)

  -- Running jobs on a pool that has neither replicas nor ready pods.
  unfoldable pub detect_ghosts : PartitionState → ℕ → Action (Unit {0})
  detect_ghosts state ready = do
    let ghost = state.current_replicas == 0 && ready == 0 && ltb 0 state.running_jobs
    inc (ghost_jobs_present ghost)
    if ghost then inc ghost_detected_total >> emit ghost_jobs_detected else pure tt

  -- get_checkpoint_age_seconds: without a path nothing is asked.
  unfoldable pub read_checkpoint_age : Text → Action (Option ℕ)
  read_checkpoint_age [] = pure none
  read_checkpoint_age (c ∷ path) =
      ask world (get_checkpoint_age (c ∷ path)) (λ tick. world.checkpoint_age tick (c ∷ path))

  unfoldable pub mark_missing : Text → Text → Option ℕ → Action (Unit {0})
  mark_missing key (c ∷ path) none = do
    now ← time world
    modify (λ s. record s {
      checkpoint_missing_since =
          insert key (get_or now (lookup key s.checkpoint_missing_since))
            s.checkpoint_missing_since;
    })
  mark_missing key path age =
      modify (λ s. record s { checkpoint_missing_since = erase key s.checkpoint_missing_since })

  unfoldable pub since : Option Time → Action (Option Time)
  since none = pure none
  since (some first) = do now ← time world; pure (some (now - first))

  -- When the checkpoint was first found missing, as the policy is told.
  unfoldable pub missing_since : Text → Text → Option ℕ → Action (Option Time)
  missing_since key path age = do
    mark_missing key path age
    app ← get
    since (lookup key app.checkpoint_missing_since)

  abbrev hold : PartitionState → ScalingDecision → Reason → ScalingDecision
  hold state decision why = record decision {
    target_replicas = state.current_replicas;
    action = keep;
    reason = why;
  }

  -- `if retry_at:` of a time that has passed
  unfoldable pub clear_retry : Text → Time → Action (Unit {0})
  clear_retry key retry_at =
      if retry_at == 0
      then pure tt
      else modify (λ s. record s { provisioning_retry_at = erase key s.provisioning_retry_at })
        >> best_effort_annotation key provisioning_retry blank

  -- A scale-up waits while one is under way, and for a while after one that failed.
  unfoldable pub gate_scale_up :
      PartitionConfig → PartitionState → ScalingDecision → Text → Time → Action (Unit {0})
  gate_scale_up partition_cfg state decision key now = do
    app ← get
    let retry_at = get_or 0 (lookup key app.provisioning_retry_at)
    if ltb now retry_at
        then do_keep (hold state decision provisioning_retry_backoff)
        else if is_some (lookup key app.provisioning)
        then emit scale_deferred >> do_keep (hold state decision provisioning_in_flight)
        else clear_retry key retry_at >> do_scale_up world partition_cfg state decision key now

  -- The last branch of the method, by the decision's action.
  unfoldable pub dispatch :
      ScalingAction
      → PartitionConfig
      → PartitionState
      → ScalingDecision
      → Text
      → Time
      → Time
      → Action (Unit {0})
  dispatch scale_up partition_cfg state decision key last now =
      gate_scale_up partition_cfg state decision key now
  dispatch scale_down partition_cfg state decision key last now =
      do_scale_down world partition_cfg state decision key last now
  dispatch keep partition_cfg state decision key last now = do_keep decision

  unfoldable pub trace_jobs : PartitionConfig → Action (Unit {0})
  trace_jobs partition_cfg =
      if world.otel_enabled && world.rest_configured
      then update_traces world partition_cfg.partition
      else pure tt

  -- From the reading of the checkpoint to the end.
  unfoldable pub decide_and_act :
      CheckpointAwareQueuePolicy → PartitionConfig → PartitionState → Text → Action (Unit {0})
  decide_and_act policy partition_cfg state key = do
    checkpoint_age ← read_checkpoint_age partition_cfg.checkpoint_path
    missing ← missing_since key partition_cfg.checkpoint_path checkpoint_age
    let decision = evaluate policy partition_cfg state checkpoint_age missing
    now ← time world
    app ← get
    last ← require (lookup key app.last_scale_action_at)
    trace_jobs partition_cfg
    emit loop_observation
    dispatch decision.action partition_cfg state decision key last now

  unfoldable pub reconcile :
      CheckpointAwareQueuePolicy → PartitionConfig → Dict PartitionState → Action (Unit {0})
  reconcile policy partition_cfg all_states = do
    let key = partition_cfg.worker_statefulset
    state ← require (lookup key all_states)
    inc (current_replicas state.current_replicas)
    ready ← ask world (get_ready_replicas key) (λ tick. world.ready_replicas tick key)
    inc (pods_ready ready)
    check_provisioning key ready
    detect_ghosts state ready
    decide_and_act policy partition_cfg state key

  -- The whole method: an exception is logged, and the loop goes on.
  unfoldable pub process_pool :
      CheckpointAwareQueuePolicy → PartitionConfig → Dict PartitionState → App → App
  process_pool policy partition_cfg all_states app =
      let (result, after) = reconcile policy partition_cfg all_states app in
      elim result [ ok _ ↦ after | raised ↦ after_effect (log error) after ]
