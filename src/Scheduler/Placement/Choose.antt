-- ===== src/Scheduler/Placement/Choose.antt =====
-- services/rl_scheduler/placement_controller.py, choose_and_apply and drain_and_apply: one job placed
-- by the policy's choice, and a cycle of such placements.
use kelpflux.Base.{
  ℕ, zero, suc, max, Bool, true, false, not, ◌&&◌, ◌||◌, Option, none, some, ℤ, pos, negsuc, List,
  [], ◌∷◌, ◌++◌, Text, text_eq, mem_text, starts_with, get_elem?, filter, Dict, lookup, insert,
  if◌then◌else◌,
}
use kelpflux.Operator.Models.{Time}
use kelpflux.Scheduler.Snapshot.{JobItem, NodeItem}
use kelpflux.Scheduler.Placement.{SlurmJob, SlurmNode, parse_jobs, filter_held_jobs, parse_nodes}
use kelpflux.Scheduler.Placement.Payload.{
  ActPayload, Act, build_act_payload, trim_nodes_to_model_topology,
}

-- The arguments; an empty text, or `none`, where the source has a default that is empty or None.
pub record Options : Type 0 where
  pub node_names : List Text
  pub node_name_prefix : Text
  pub job_id : Text
  pub job_name_prefix : Text
  pub mps_per_gpu : ℕ
  pub default_mps : ℕ
  pub default_runtime : Time
  pub release : Bool
  pub shadow : Bool
  pub auto_trim_model_topology : Bool
  pub require_held : Bool

-- What Slurm and the scheduler answer in one call, `none` where a request raises.
pub record Answers : Type 0 where
  pub now : Time
  pub jobs : Option (List JobItem)
  pub nodes : Option (List NodeItem)
  -- The number of actions on the health page.
  pub health : Option (Option ℤ)
  pub act : ActPayload → Option Act
  pub update_ok : Bool

-- POST /job/<id>: the job, the node that it is pinned to, and whether the hold is released.
pub record JobUpdate : Type 0 where
  pub job_id : Text
  pub required_node : Text
  pub release : Bool

pub data Outcome : Type 0 where
  no_matching_pending_jobs no_available_nodes dsac_no_op : Outcome
  node_index_out_of_range : ℤ → Outcome
  shadow_only applied : Outcome

pub record PlacementDecision : Type 0 where
  pub job_id : Option Text
  pub node_name : Option Text
  pub gpu_index : Option ℤ
  pub applied : Bool
  pub outcome : Outcome

abbrev pub nothing_placed : Outcome → PlacementDecision
nothing_placed why = record {
  job_id = none;
  node_name = none;
  gpu_index = none;
  applied = false;
  outcome = why;
}

abbrev placement_of : Text → SlurmNode → ℤ → Bool → Outcome → PlacementDecision
placement_of selected node gpu was_applied why = record {
  job_id = some selected;
  node_name = some node.name;
  gpu_index = some gpu;
  applied = was_applied;
  outcome = why;
}

-- The decision, `none` where a request raised, and the updates that were sent.
abbrev pub Placed : Type 0
Placed = Option PlacementDecision × List JobUpdate

abbrev pub decided : PlacementDecision → Placed
decided d = (some d, [])

-- An empty text does not filter.
abbrev pub if_given : Text → Bool → Bool
if_given s test = text_eq s [] || test

unfoldable pub matching_jobs : Options → List SlurmJob → List SlurmJob
matching_jobs o jobs =
    filter (λ job. if_given o.job_name_prefix (starts_with job.name o.job_name_prefix))
      (filter (λ job. if_given o.job_id (text_eq job.job_id o.job_id))
        (if o.require_held then filter_held_jobs jobs else jobs))

abbrev pub no_names : List Text → Bool
no_names [] = true
no_names (n ∷ ns) = false

unfoldable pub usable_nodes : Options → List SlurmNode → List SlurmNode
usable_nodes o discovered =
    filter (λ n. if_given o.node_name_prefix (starts_with n.name o.node_name_prefix))
      (filter (λ n. no_names o.node_names || mem_text n.name o.node_names)
        (filter (λ n. n.available && not (text_eq n.name [])) discovered))

-- {n.name: n for n in nodes}
unfoldable pub nodes_by_name : List SlurmNode → Dict SlurmNode → Dict SlurmNode
nodes_by_name [] d = d
nodes_by_name (n ∷ ns) d = nodes_by_name ns (insert n.name n d)

abbrev pub node_or : SlurmNode → Option SlurmNode → SlurmNode
node_or n none = n
node_or n (some m) = m

-- The nodes of the kept names; every name is a key.
unfoldable pub resolve : Dict SlurmNode → List SlurmNode → List SlurmNode
resolve d [] = []
resolve d (n ∷ ns) = node_or n (lookup n.name d) ∷ resolve d ns

module _ (o : Options) (answers : Answers) where
  unfoldable pub effective_nodes : List SlurmNode → Option (List SlurmNode)
  unfolding trim_nodes_to_model_topology resolve nodes_by_name
  effective_nodes available =
      let whole = resolve (nodes_by_name available []) available in
      if not o.auto_trim_model_topology then some whole else elim answers.health [
        | none ↦ none
        | some n_actions ↦ some (
            resolve (nodes_by_name available []) (trim_nodes_to_model_topology n_actions available))
      ]

  -- apply_hard_placement, unless in shadow mode
  unfoldable pub apply : Text → SlurmNode → ℤ → Placed
  apply selected node gpu =
      if o.shadow then decided (placement_of selected node gpu false shadow_only) else (
        (if answers.update_ok then some (placement_of selected node gpu true applied) else none),
        record { job_id = selected; required_node = node.name; release = o.release } ∷ [],
      )

  abbrev pub out_of_range : Text → ℤ → ℤ → Placed
  out_of_range selected node gpu = decided (record {
    job_id = some selected;
    node_name = none;
    gpu_index = some gpu;
    applied = false;
    outcome = node_index_out_of_range node;
  })

  unfoldable pub apply_at : Text → ℕ → ℤ → Option SlurmNode → Placed
  unfolding apply
  apply_at selected i gpu none = out_of_range selected (pos i) gpu
  apply_at selected i gpu (some node) = apply selected node gpu

  unfoldable pub carry_out : List SlurmNode → Option Text → Option ℤ → Option ℤ → Placed
  unfolding apply_at
  carry_out nodes (some selected) (some (pos i)) (some gpu) =
      apply_at selected i gpu (get_elem? nodes i)
  carry_out nodes (some selected) (some (negsuc i)) (some gpu) =
      out_of_range selected (negsuc i) gpu
  carry_out nodes selected index gpu = decided (nothing_placed dsac_no_op)

  unfoldable pub obey : List SlurmNode → Option Act → Placed
  unfolding carry_out
  obey nodes none = (none, [])
  obey nodes (some act) = carry_out nodes act.selected_job_id act.node_j act.gpu_k

  unfoldable pub ask_policy : List SlurmJob → Option (List SlurmNode) → Placed
  unfolding obey
  ask_policy jobs none = (none, [])
  ask_policy jobs (some nodes) =
      obey nodes (answers.act (build_act_payload o.mps_per_gpu answers.now jobs nodes))

  unfoldable pub on_nodes : List SlurmJob → List SlurmNode → Placed
  unfolding ask_policy effective_nodes
  on_nodes jobs [] = decided (nothing_placed no_available_nodes)
  on_nodes jobs (n ∷ ns) = ask_policy jobs (effective_nodes (n ∷ ns))

  unfoldable pub read_nodes : List SlurmJob → Option (List NodeItem) → Placed
  unfolding on_nodes usable_nodes parse_nodes
  read_nodes jobs none = (none, [])
  read_nodes jobs (some items) = on_nodes jobs (usable_nodes o (parse_nodes o.mps_per_gpu items))

  unfoldable pub for_jobs : List SlurmJob → Placed
  unfolding read_nodes
  for_jobs [] = decided (nothing_placed no_matching_pending_jobs)
  for_jobs (job ∷ jobs) = read_nodes (job ∷ jobs) answers.nodes

  unfoldable pub read_items : Option (List JobItem) → Placed
  unfolding for_jobs matching_jobs parse_jobs
  read_items none = (none, [])
  read_items (some items) =
      for_jobs (matching_jobs o (parse_jobs o.default_runtime o.default_mps answers.now items))

  unfoldable pub choose_and_apply : Placed
  unfolding read_items
  choose_and_apply = read_items answers.jobs

-- The decisions of a cycle, `none` where a call raised, and the updates that were sent.
abbrev pub Drained : Type 0
Drained = Option (List PlacementDecision) × List JobUpdate

abbrev pub prepend : PlacementDecision → List JobUpdate → Drained → Drained
prepend d sent (none, later) = (none, sent ++ later)
prepend d sent (some ds, later) = (some (d ∷ ds), sent ++ later)

abbrev pub stop_or : Option PlacementDecision → List JobUpdate → Drained → Drained
stop_or none sent rest = (none, sent)
stop_or (some d) sent rest = if d.applied then prepend d sent rest else (some (d ∷ []), sent)

-- `answers` is what is answered in each round.
unfoldable pub drain_rounds : Options → (ℕ → Answers) → ℕ → Drained
unfolding choose_and_apply
drain_rounds o answers zero = (some [], [])
drain_rounds o answers (suc n) =
    let rest = drain_rounds o (λ k. answers (suc k)) n in
    let (decision, sent) = choose_and_apply o (answers 0) in stop_or decision sent rest

unfoldable pub drain_and_apply : Options → (ℕ → Answers) → ℕ → Drained
unfolding drain_rounds
drain_and_apply o answers max_placements = drain_rounds o answers (max 1 max_placements)
