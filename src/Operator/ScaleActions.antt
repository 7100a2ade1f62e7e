-- ===== src/Operator/ScaleActions.antt =====
-- operator/scale_actions.py: the executors of a decision.
pub mod Reads
mod Safety
pub mod Drains
mod Examples
use kelpflux.Base.{
  ℕ, ◌+◌, ◌-◌, ◌≤◌, ◌<◌, Bool, true, false, not, ◌&&◌, ◌||◌, Option, none, some, List, [], ◌∷◌,
  ◌++◌, map, Text, codes, show_nat, mem_text, text_le, sorted, filter, range, lookup, insert, erase,
  Dict, ltb, leb, ◌==◌, if◌then◌else◌,
}
use kelpflux.Operator.Models.{
  Time, seconds, PartitionConfig, PartitionState, ScalingDecision, Reason,
  checkpoint_unknown_block_scale_down, checkpoint_stale_block_scale_down,
}
use kelpflux.Operator.Effects.{
  Provisioning, cooldown, last_scale_action, provisioning_marker, provisioning_retry, blank, moment,
  marker, running_jobs_label, cooldown_label, draining_label, checkpoint_guard_label,
  no_action_label, scale_up_total, scale_down_total, drain_total, drain_timeout_total,
  checkpoint_guard_blocks_total, scale_skipped_total, scale_action, scale_skipped_running,
  scale_skipped_cooldown, scale_skipped_draining, scale_skipped_keep, drain_initiated,
  drain_timeout_force_kill, patch_replicas, set_annotation, drain_slurm_node, resume_slurm_node,
  cancel_jobs_on_node, down_slurm_node, future_slurm_node, get_node_cpu_alloc, start_span, end_span,
  World, App, Action, pure, get, modify, ◌>>=◌, ◌>>◌, suppress, for_each, inc, emit, note, call,
  ask, time,
}

-- f"{worker_statefulset}-{i}"
unfoldable pub node_name : Text → ℕ → Text
node_name statefulset i = statefulset ++ codes "-" ++ show_nat i

-- {f"{worker_statefulset}-{i}" for i in range(lo, hi)}
unfoldable pub node_names : Text → ℕ → ℕ → List Text
node_names statefulset lo hi = map (node_name statefulset) (range lo hi)

abbrev pub get_or {ℓ} : {A : Type ℓ} → A → Option A → A
get_or d none = d
get_or d (some a) = a

-- xs - ys and xs | ys, of sets
unfoldable pub difference : List Text → List Text → List Text
difference xs ys = filter (λ x. not (mem_text x ys)) xs

unfoldable pub union : List Text → List Text → List Text
unfolding difference
union xs ys = xs ++ difference ys xs

unfoldable pub begin_provisioning : PartitionState → ScalingDecision → Time → Provisioning
begin_provisioning state decision now = record {
  started_at = now;
  from_replicas = state.current_replicas;
  target_replicas = decision.target_replicas;
}

module _ (world : World) where
  -- The annotations that repeat the in-memory values; best effort.
  unfoldable pub save_scale_up : Text → Time → Action (Unit {0})
  save_scale_up statefulset now = suppress do
    call world (set_annotation statefulset cooldown (moment now))
    call world (set_annotation statefulset last_scale_action (moment now))
    call world (set_annotation statefulset provisioning_retry blank)

  -- Draining for an earlier scale-down is cancelled, and the nodes may take jobs again.
  unfoldable pub cancel_drains : PartitionConfig → ScalingDecision → Text → Action (Unit {0})
  unfolding union node_names
  cancel_drains partition_cfg decision key = do
    app ← get
    let draining = get_or [] (lookup key app.draining_nodes)
    modify (λ s. record s {
      draining_nodes = erase key s.draining_nodes;
      draining_started = erase key s.draining_started;
    })
    for_each (λ node. suppress (call world (resume_slurm_node node)))
        (union draining (node_names partition_cfg.worker_statefulset 0 decision.target_replicas))

  unfoldable pub trace_decision : Text → Action (Unit {0})
  trace_decision key =
      if world.otel_enabled
      then note (start_span (codes "scale_up_decision") key)
        >> note (end_span (codes "scale_up_decision") key)
      else pure tt

  unfoldable pub do_scale_up :
      PartitionConfig → PartitionState → ScalingDecision → Text → Time → Action (Unit {0})
  unfolding begin_provisioning
  do_scale_up partition_cfg state decision key now = do
    cancel_drains partition_cfg decision key
    trace_decision key
    let begun = begin_provisioning state decision now
    call world (set_annotation partition_cfg.worker_statefulset provisioning_marker (marker begun))
    modify (λ s. record s { provisioning = insert key begun s.provisioning })
    call world (patch_replicas partition_cfg.worker_statefulset decision.target_replicas)
    modify (λ s. record s {
      provisioning_retry_at = erase key s.provisioning_retry_at;
      last_scale_action_at = insert key now s.last_scale_action_at;
    })
    save_scale_up partition_cfg.worker_statefulset now
    inc scale_up_total
    emit (scale_action state.current_replicas decision.target_replicas decision.reason)

  -- Drain each new node and stamp the start of its drain, whether or not the call succeeds.
  unfoldable pub drain_new : Text → Time → List Text → Action (Unit {0})
  drain_new key now_ts = for_each λ node. do
    suppress (call world (drain_slurm_node node))
    modify (λ s. record s {
      draining_started =
          insert key (insert node now_ts (get_or [] (lookup key s.draining_started)))
            s.draining_started;
    })

  -- What follows the drain of at least one new node.
  unfoldable pub announce_drains : Text → List Text → List Text → Action (Unit {0})
  announce_drains key draining [] = pure tt
  announce_drains key draining (node ∷ rest) = do
    modify (λ s. record s {
      draining_nodes = insert key (union draining (node ∷ rest)) s.draining_nodes;
    })
    inc drain_total
    emit (drain_initiated (sorted text_le (node ∷ rest)))

  -- The nodes to drain are added to those that drain already; the result is all of them.
  unfoldable pub start_drains : Text → List Text → Time → Action (List Text)
  start_drains key nodes_to_drain now_ts = do
    app ← get
    let draining = get_or [] (lookup key app.draining_nodes)
    let new_nodes = difference nodes_to_drain draining
    modify (λ s. record s {
      draining_started = insert key (get_or [] (lookup key s.draining_started)) s.draining_started;
    })
    drain_new key now_ts new_nodes
    announce_drains key draining new_nodes
    pure (union draining new_nodes)

  unfoldable pub force_kill : Text → Action (List Text)
  force_kill node = do
    suppress do call world (cancel_jobs_on_node node); call world (down_slurm_node node)
    inc drain_timeout_total
    emit (drain_timeout_force_kill node)
    pure (node ∷ [])

  -- One round of the loop over draining nodes: the node itself if it is force-killed. A `none` is a
  -- node with no recorded start.
  unfoldable pub check_timeout : Time → Time → Text → Option Time → Action (List Text)
  check_timeout timeout now_ts node none = pure []
  check_timeout timeout now_ts node (some drain_started) = do
    alloc ← ask world (get_node_cpu_alloc node) (λ tick. world.cpu_alloc tick node)
    if alloc == 0 || leb now_ts (drain_started + timeout) then pure [] else force_kill node

  unfoldable pub kill_timed_out : Time → Time → Dict Time → List Text → Action (List Text)
  kill_timed_out timeout now_ts started [] = pure []
  kill_timed_out timeout now_ts started (node ∷ rest) = do
    first ← check_timeout timeout now_ts node (lookup node started)
    others ← kill_timed_out timeout now_ts started rest
    pure (first ++ others)

  -- The loop runs only where a timeout is configured.
  unfoldable pub kill_overdue : ℕ → Time → Dict Time → List Text → Action (List Text)
  kill_overdue drain_timeout_seconds now_ts started draining =
      if ltb 0 drain_timeout_seconds
      then kill_timed_out (seconds drain_timeout_seconds) now_ts started draining
      else pure []

  -- all(n in force_killed or get_node_cpu_alloc(n) == 0 for n in draining), left to right.
  unfoldable pub all_idle : List Text → List Text → Action Bool
  all_idle force_killed [] = pure true
  all_idle force_killed (node ∷ rest) =
      let others = all_idle force_killed rest in
      if mem_text node force_killed
      then others
      else ask world (get_node_cpu_alloc node) (λ tick. world.cpu_alloc tick node) >>= λ alloc.
          if alloc == 0 then others else pure false

  -- The replicas are patched, and the nodes leave Slurm and the books.
  unfoldable pub shrink :
      PartitionConfig
      → PartitionState
      → ScalingDecision
      → Text
      → List Text
      → Time
      → Action (Unit {0})
  shrink partition_cfg state decision key nodes_to_drain now_ts = do
    call world (patch_replicas partition_cfg.worker_statefulset decision.target_replicas)
    for_each (λ node. suppress (call world (future_slurm_node node)))
        (sorted text_le nodes_to_drain)
    modify (λ s. record s {
      draining_nodes = erase key s.draining_nodes;
      draining_started = erase key s.draining_started;
      last_scale_action_at = insert key now_ts s.last_scale_action_at;
    })
    suppress (
        call world
          (set_annotation partition_cfg.worker_statefulset last_scale_action (moment now_ts)))
    inc scale_down_total
    emit (scale_action state.current_replicas decision.target_replicas decision.reason)

  -- Drain first, then patch the replicas once no draining node has work.
  unfoldable pub drain_then_scale :
      PartitionConfig → PartitionState → ScalingDecision → Text → Action (Unit {0})
  drain_then_scale partition_cfg state decision key = do
    let nodes_to_drain =
        node_names partition_cfg.worker_statefulset decision.target_replicas state.current_replicas
    now_ts ← time world
    draining ← start_drains key nodes_to_drain now_ts
    app ← get
    let started = get_or [] (lookup key app.draining_started)
    force_killed ← kill_overdue partition_cfg.drain_timeout_seconds now_ts started draining
    idle ← all_idle force_killed draining
    if idle
        then shrink partition_cfg state decision key nodes_to_drain now_ts
        else inc (scale_skipped_total draining_label) >> emit scale_skipped_draining

  -- `last` is the time of the last scale action: now - last < cooldown is tested without a
  -- subtraction, which could be negative.
  unfoldable pub do_scale_down :
      PartitionConfig → PartitionState → ScalingDecision → Text → Time → Time → Action (Unit {0})
  do_scale_down partition_cfg state decision key last now =
      if ltb 0 state.running_jobs
      then inc (scale_skipped_total running_jobs_label) >> emit scale_skipped_running
      else if ltb now (last + seconds partition_cfg.scale_down_cooldown)
      then inc (scale_skipped_total cooldown_label) >> emit scale_skipped_cooldown
      else drain_then_scale partition_cfg state decision key

is_guard_reason : Reason → Bool
is_guard_reason checkpoint_unknown_block_scale_down = true
is_guard_reason checkpoint_stale_block_scale_down = true
is_guard_reason _ = false

unfoldable pub count_keep : Bool → Action (Unit {0})
count_keep true =
    inc checkpoint_guard_blocks_total >> inc (scale_skipped_total checkpoint_guard_label)
count_keep false = inc (scale_skipped_total no_action_label)

unfoldable pub do_keep : ScalingDecision → Action (Unit {0})
unfolding is_guard_reason
do_keep decision = do
  count_keep (is_guard_reason decision.reason)
  emit (scale_skipped_keep decision.reason)
