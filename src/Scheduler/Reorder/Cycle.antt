-- ===== src/Scheduler/Reorder/Cycle.antt =====
-- services/rl_scheduler/reorder_daemon.py: one cycle of the daemon, with the requests as a trace.
-- Slurm's and the policy's answers are the parameter `CycleWorld`; timeouts are answers that raise.
use kelpflux.Base.{
  ℕ, ◌+◌, ◌*◌, Bool, true, false, not, ◌&&◌, Option, none, some, List, [], ◌∷◌, Text, length, any,
  filter, Dict, lookup, insert, keys, leb, ltb, ◌==◌, if◌then◌else◌,
}
use kelpflux.Operator.Models.{Time}
use kelpflux.Scheduler.Snapshot.{JobItem, NodeItem}
use kelpflux.Scheduler.Placement.{SlurmJob, SlurmNode, parse_nodes}
use kelpflux.Scheduler.Placement.Payload.{top_k}
use kelpflux.Scheduler.Calls.{
  get_jobs, get_nodes, get_healthz, set_priority, Action, pure, raise_error, request, observe,
  on_error, suppress, ◌>>=◌, ◌>>◌, for_each, raise_if,
}
use kelpflux.Scheduler.Reorder.{
  max_pending_jobs, release_priority, Priority, is_owned, is_unrestored, priority_eq,
  parse_eligible_jobs, pending_job_priorities, discovered_nodes, nodes_for, same_job, same_node,
  all_same, priorities_from,
}
use kelpflux.Scheduler.Reorder.Ranking.{RankWorld, Ranked, ranked, failed, rank_pending}

pub record CycleWorld : Type 0 where
  pub jobs_doc : ℕ → Option (List JobItem)
  pub nodes_doc : ℕ → Option (List NodeItem)
  -- obs_dim and n_actions on the health page
  pub healthz : ℕ → Option (Option ℕ × Option ℕ)
  -- The policy, and the deadline, in a ranking that starts at the tick.
  pub policy : ℕ → RankWorld
  -- Slurm takes the priority: the request does not raise, and its answer has no errors.
  pub accepts : ℕ → Text → ℕ → Bool
  pub clock : ℕ → Time
  -- time.time(), for jobs without a submission time
  pub now : ℕ → Time

pub record CycleOptions : Type 0 where
  pub node_names : List Text
  pub gpu_partitions : List Text
  pub mps_per_gpu : ℕ
  pub max_jobs : ℕ
  pub deadline : Time
  pub default_runtime : Time
  pub job_name_prefix : Text
  pub shadow : Bool
  -- env_dims of sim/gym_env.py, for one GPU per node: the observation's size is that of the features.
  pub obs_dim : ℕ

abbrev pub State : Type 0
State = List SlurmJob × List SlurmNode

-- {k: v for ...}, with the last value of a key
unfoldable pub priorities_of : List SlurmJob → Dict ℕ → Dict ℕ
priorities_of [] d = d
priorities_of (job ∷ jobs) d = priorities_of jobs (insert job.job_id job.priority d)

unfoldable pub free_of : List SlurmNode → Dict ℕ → Dict ℕ
free_of [] d = d
free_of (n ∷ ns) d = free_of ns (insert n.name n.free_mps d)

abbrev pub accepted : Bool → Option (Unit {0})
accepted true = some tt
accepted false = none

-- dict.get(key), where a missing key is not equal to any priority
abbrev pub found_other : Priority → Option Priority → Bool
found_other wanted none = false
found_other wanted (some p) = not (priority_eq p wanted)

abbrev pub test_found : (Priority → Bool) → Option Priority → Bool
test_found test none = false
test_found test (some p) = test p

module _ (world : CycleWorld) where
  unfoldable pub write_priority : Text → ℕ → Action (Unit {0})
  write_priority job_id priority =
      request (set_priority job_id priority) (λ tick. accepted (world.accepts tick job_id priority))

  unfoldable pub read_jobs : Action (List JobItem)
  read_jobs = request get_jobs world.jobs_doc

  -- _pending_job_priorities of a fresh answer
  unfoldable pub read_priorities : Action (Dict Priority)
  unfolding read_jobs pending_job_priorities
  read_priorities = read_jobs >>= λ doc. pure (pending_job_priorities doc [])

  abbrev pub owned_ids : Dict Priority → List Text
  owned_ids pending = keys (filter (λ e. is_owned e.1) pending)

  abbrev pub verify_reset : List Text → Action (List Text)
  verify_reset [] = pure []
  verify_reset (jid ∷ owned) = read_priorities >>= λ pending.
      raise_if (any (λ j. test_found is_unrestored (lookup j pending)) (jid ∷ owned))
      >> pure (jid ∷ owned)

  unfoldable pub reset_owned_priorities : Action (List Text)
  unfolding read_priorities write_priority
  reset_owned_priorities = do
    pending ← read_priorities
    let owned = owned_ids pending
    for_each (λ jid. write_priority jid release_priority) owned
    verify_reset owned

  -- A pending job whose priority is another one is given its original back.
  unfoldable pub restore_one : Dict Priority → Text × ℕ → Action (Unit {0})
  unfolding write_priority
  restore_one pending (jid, priority) =
      if found_other (some priority) (lookup jid pending)
      then write_priority jid priority
      else pure tt

  abbrev pub is_mismatch : Dict Priority → Text × ℕ → Bool
  is_mismatch pending (jid, priority) = found_other (some priority) (lookup jid pending)

  unfoldable pub restore_cycle_priorities : Dict ℕ → Action (Unit {0})
  unfolding read_priorities restore_one
  restore_cycle_priorities [] = pure tt
  restore_cycle_priorities (e ∷ originals) = do
    pending ← read_priorities
    for_each (restore_one pending) (e ∷ originals)
    verified ← read_priorities
    raise_if (any (is_mismatch verified) (e ∷ originals))

  module _ (o : CycleOptions) where
    unfoldable pub eligible_at : ℕ → List JobItem → List SlurmJob
    unfolding parse_eligible_jobs
    eligible_at tick doc =
        parse_eligible_jobs o.gpu_partitions o.default_runtime (world.now tick) o.job_name_prefix
          doc

    unfoldable pub read_state : Action State
    unfolding read_jobs eligible_at nodes_for discovered_nodes parse_nodes
    read_state = do
      doc ← read_jobs
      nodes ← request get_nodes world.nodes_doc
      jobs ← observe (λ tick. eligible_at tick doc)
      pure (jobs, nodes_for (discovered_nodes (parse_nodes o.mps_per_gpu nodes) []) o.node_names)

    abbrev pub is_number : ℕ → Option ℕ → Bool
    is_number n none = false
    is_number n (some k) = k == n

    abbrev pub topology_matches : Option ℕ × Option ℕ → Bool
    topology_matches (obs, actions) =
        is_number o.obs_dim obs && is_number (top_k * length o.node_names + 1) actions

    abbrev pub order_or_raise : Ranked → Action (List Text)
    order_or_raise (ranked order) = pure order
    order_or_raise (failed why) = raise_error

    unfoldable pub rank_state : State → Action (List Text)
    unfolding free_of
    rank_state (jobs, nodes) =
        observe (λ tick.
          rank_pending (world.policy tick) o.mps_per_gpu nodes true jobs (free_of nodes []))
        >>= order_or_raise

    -- A job that has its priority already is passed over.
    unfoldable pub write_one : Time → Dict ℕ → Text × ℕ → Action (Unit {0})
    unfolding write_priority
    write_one deadline current (jid, priority) = observe world.clock >>= λ t.
        raise_if (leb deadline t)
        >> (if is_number priority (lookup jid current)
            then pure tt
            else write_priority jid priority)

    unfoldable pub write_all : Time → Dict ℕ → Dict ℕ → Action (Unit {0})
    unfolding write_one read_priorities
    write_all deadline current priorities = do
      for_each (write_one deadline current) priorities
      verified ← read_priorities
      raise_if (any (is_mismatch verified) priorities)

    unfoldable pub same_state : State → State → Bool
    same_state (jobs, nodes) (jobs', nodes') =
        all_same same_job jobs jobs' && all_same same_node nodes nodes'

    unfoldable pub write_order : Time → List SlurmJob → List Text → Action (List Text)
    unfolding write_all restore_cycle_priorities reset_owned_priorities priorities_of
        priorities_from
    write_order deadline current_jobs order =
        let current = priorities_of current_jobs [] in
        on_error (write_all deadline current (priorities_from 0 order))
          (suppress (restore_cycle_priorities current) >> suppress reset_owned_priorities)
        >> pure order

    -- Behind the first read, where there are jobs.
    unfoldable pub rank_and_write : Time → State → Action (List Text)
    unfolding rank_state read_state write_order same_state
    rank_and_write deadline state = do
      raise_if (ltb o.max_jobs (length state.0))
      health ← request get_healthz world.healthz
      raise_if (not (topology_matches health))
      order ← rank_state state
      t ← observe world.clock
      raise_if (leb deadline t)
      current ← read_state
      raise_if (not (same_state state current))
      if o.shadow then pure order else write_order deadline current.0 order

    abbrev pub unless_empty : Time → State → Action (List Text)
    unless_empty deadline ([], nodes) = pure []
    unless_empty deadline (job ∷ jobs, nodes) = rank_and_write deadline (job ∷ jobs, nodes)

    unfoldable pub reorder_cycle : Action (List Text)
    unfolding rank_and_write read_state
    reorder_cycle = do
      raise_if (not (leb 1 o.max_jobs && leb o.max_jobs max_pending_jobs))
      start ← observe world.clock
      state ← read_state
      unless_empty (start + o.deadline) state
