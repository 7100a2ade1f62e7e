-- ===== src/Scheduler/Reorder/Ranking.antt =====
-- services/rl_scheduler/reorder_daemon.py, rank_pending: the dispatch order that the policy is led to,
-- one job after the other. Jobs and nodes are those that Slurm reports; the tuples of the evaluation
-- scripts are left out.
use kelpflux.Base.{
  ℕ, zero, suc, ◌-◌, ◌*◌, Bool, true, false, not, ◌&&◌, ◌||◌, Option, none, some, ℤ, pos, List, [],
  ◌∷◌, map, Text, text_eq, get_elem?, any, take, length, Dict, lookup, insert, erase, leb, ◌==◌,
  if◌then◌else◌,
}
use kelpflux.Operator.Models.{Time}
use kelpflux.Scheduler.Placement.{SlurmJob, SlurmNode}
use kelpflux.Scheduler.Placement.Payload.{
  top_k, by_submit, PendingEntry, ActPayload, Act, build_act_payload,
}

pub data RankError : Type 0 where
  rank_deadline post_failed no_feasible_action unknown_node : RankError

pub data Ranked : Type 0 where
  ranked : List Text → Ranked
  failed : RankError → Ranked

-- list(remaining.values())
abbrev pub values : Dict SlurmJob → List SlurmJob
values [] = []
values ((jid, job) ∷ d) = job ∷ values d

unfoldable pub jobs_by_id : List SlurmJob → Dict SlurmJob → Dict SlurmJob
jobs_by_id [] d = d
jobs_by_id (job ∷ jobs) d = jobs_by_id jobs (insert job.job_id job d)

abbrev pub ids : List SlurmJob → List Text
ids jobs = map (λ job. job.job_id) jobs

-- The nodes with the slots that are left in this ranking.
abbrev pub slots_or : ℕ → Option ℕ → ℕ
slots_or d none = d
slots_or d (some k) = k

abbrev pub coerce_node : Dict ℕ → SlurmNode → SlurmNode
coerce_node free n = record n { free_mps = slots_or n.free_mps (lookup n.name free) }

unfoldable pub coerce_nodes : List SlurmNode → Dict ℕ → List SlurmNode
coerce_nodes nodes free = map (coerce_node free) nodes

unfoldable pub mem_nat : ℕ → List ℕ → Bool
mem_nat i [] = false
mem_nat i (j ∷ js) = i == j || mem_nat i js

-- eligible.get(jid, set()); a later entry of the same id would replace an earlier one
unfoldable pub indices_of : Text → List PendingEntry → List ℕ
indices_of jid [] = []
indices_of jid (e ∷ es) =
    let later = indices_of jid es in
    if any (λ (f : PendingEntry). text_eq f.job_id jid) es
    then later
    else if text_eq e.job_id jid
    then e.eligible_node_indices
    else []

-- A job to dispatch, and the node that its slots are taken from.
abbrev pub Pick : Type 0
Pick = SlurmJob × SlurmNode

unfoldable pub pick_on : List PendingEntry → ℕ → SlurmJob → Option SlurmNode → Option Pick
unfolding mem_nat indices_of
pick_on entries i job none = none
pick_on entries i job (some node) =
    if mem_nat i (indices_of job.job_id entries)
      && (node.available && leb job.mps_req node.free_mps)
    then some (job, node)
    else none

-- The policy's choice, if it is feasible. An index that is negative or too large is none.
unfoldable pub policy_pick :
    List PendingEntry → List SlurmNode → Option SlurmJob → Option ℤ → Option Pick
unfolding pick_on
policy_pick entries nodes (some job) (some (pos i)) = pick_on entries i job (get_elem? nodes i)
policy_pick entries nodes job index = none

-- for node_index, candidate_node in enumerate(fnodes), from the index `i` on
unfoldable pub first_node : List PendingEntry → Dict ℕ → SlurmJob → ℕ → List SlurmNode → Option Pick
unfolding mem_nat indices_of
first_node entries localfree job i [] = none
first_node entries localfree job i (node ∷ nodes) =
    let later = first_node entries localfree job (suc i) nodes in
    if node.available
      && (mem_nat i (indices_of job.job_id entries)
          && leb job.mps_req (slots_or 0 (lookup node.name localfree)))
    then some (job, node)
    else later

abbrev pub or_pick : Option Pick → Option Pick → Option Pick
or_pick none other = other
or_pick (some p) other = some p

-- The first job, by submission, that fits on a node, and the first such node.
unfoldable pub first_fit : List PendingEntry → Dict ℕ → List SlurmNode → List SlurmJob → Option Pick
unfolding first_node
first_fit entries localfree nodes [] = none
first_fit entries localfree nodes (job ∷ jobs) =
    or_pick (first_node entries localfree job 0 nodes) (first_fit entries localfree nodes jobs)

-- What the policy answers; nothing at all where the request raised and the mode is not strict.
abbrev pub no_act : Act
no_act = record { selected_job_id = none; node_j = none; gpu_k = none; action = none }

-- The remaining job of the id, if there is one.
abbrev pub remaining_job : Dict SlurmJob → Option Text → Option SlurmJob
remaining_job remaining none = none
remaining_job remaining (some jid) = lookup jid remaining

abbrev pub selected_job : Dict SlurmJob → Act → Option SlurmJob
selected_job remaining act = remaining_job remaining act.selected_job_id

abbrev pub action_is : ℕ → Option ℤ → Bool
action_is n (some (pos k)) = k == n
action_is n _ = false

-- No job is selected: the field is absent, null or empty.
abbrev pub selects_nothing : Option Text → Bool
selects_nothing none = true
selects_nothing (some jid) = text_eq jid []

unfoldable pub is_noop : List SlurmNode → Act → Bool
is_noop fnodes act =
    selects_nothing act.selected_job_id && action_is (top_k * length fnodes) act.action

abbrev pub and_rank : Text → Ranked → Ranked
and_rank jid (ranked order) = ranked (jid ∷ order)
and_rank jid (failed e) = failed e

-- A round ends the ranking, or takes a job to a node with that many slots left.
pub data Round : Type 0 where
  stop : Ranked → Round
  took : Pick → ℕ → Round

-- A node without an entry in the dictionary of free slots raises KeyError.
abbrev pub take_from : Pick → Option ℕ → Round
take_from pick none = stop (failed unknown_node)
take_from pick (some free) = took pick free

-- localfree[node] -= job.mps_req
abbrev pub left_free : ℕ → Pick → Dict ℕ → Dict ℕ
left_free free pick localfree = insert pick.1.name (free - pick.0.mps_req) localfree

-- What surrounds a ranking: the policy, whether the deadline has passed, and the moment, by round.
pub record RankWorld : Type 0 where
  pub post : ℕ → ActPayload → Option Act
  pub late : ℕ → Bool
  pub now : ℕ → Time

module _ (world : RankWorld) (mps_per_gpu : ℕ) (nodes : List SlurmNode) (strict : Bool) where
  -- Where no pick is left: the rest by submission, or an exception in strict mode.
  unfoldable pub rank_rest : Dict SlurmJob → RankError → Bool → Ranked
  rank_rest remaining why noop =
      if strict && not noop then failed why else ranked (ids (by_submit (values remaining)))

  -- The pick of one round from the policy's answer, or the fallback's.
  unfoldable pub round_pick :
      Dict SlurmJob → Dict ℕ → List SlurmNode → List PendingEntry → Act → Option Pick
  unfolding policy_pick first_fit
  round_pick remaining localfree fnodes entries act =
      or_pick (policy_pick entries fnodes (selected_job remaining act) act.node_j)
        (if strict then none else first_fit entries localfree fnodes (by_submit (values remaining)))

  unfoldable pub entries_of : ℕ → Dict SlurmJob → Dict ℕ → ActPayload
  unfolding coerce_nodes
  entries_of round remaining localfree =
      build_act_payload mps_per_gpu (world.now round) (take top_k (by_submit (values remaining)))
        (coerce_nodes nodes localfree)

  unfoldable pub settle : Dict SlurmJob → Dict ℕ → Bool → Option Pick → Round
  unfolding rank_rest
  settle remaining localfree noop none = stop (rank_rest remaining no_feasible_action noop)
  settle remaining localfree noop (some pick) = take_from pick (lookup pick.1.name localfree)

  unfoldable pub obey : ℕ → Dict SlurmJob → Dict ℕ → Act → Round
  unfolding settle round_pick entries_of is_noop
  obey round remaining localfree act =
      let fnodes = coerce_nodes nodes localfree in
      let entries = (entries_of round remaining localfree).pending_jobs in
      settle remaining localfree (is_noop fnodes act)
        (round_pick remaining localfree fnodes entries act)

  -- Without an answer the round goes on with an empty one, or raises in strict mode.
  unfoldable pub answered : ℕ → Dict SlurmJob → Dict ℕ → Option Act → Round
  unfolding obey
  answered round remaining localfree none =
      if strict then stop (failed post_failed) else obey round remaining localfree no_act
  answered round remaining localfree (some act) = obey round remaining localfree act

  unfoldable pub rank_round : ℕ → Dict SlurmJob → Dict ℕ → Round
  unfolding answered
  rank_round round remaining localfree =
      if world.late round
      then stop (failed rank_deadline)
      else answered round remaining localfree
          (world.post round (entries_of round remaining localfree))

  -- One pass of the loop for each unit of fuel; every pass takes a job out, or is the last.
  unfoldable pub rank_rounds : ℕ → ℕ → Dict SlurmJob → Dict ℕ → Ranked
  unfolding rank_round
  rank_rounds zero round remaining localfree = ranked []
  rank_rounds (suc fuel) round [] localfree = ranked []
  rank_rounds (suc fuel) round (entry ∷ others) localfree =
      elim (rank_round round (entry ∷ others) localfree) [
        | stop result ↦ result
        | took pick free ↦ and_rank pick.0.job_id (
            rank_rounds fuel (suc round) (erase pick.0.job_id (entry ∷ others))
              (left_free free pick localfree))
      ]

  -- The fuel is the number of jobs.
  unfoldable pub rank_pending : List SlurmJob → Dict ℕ → Ranked
  unfolding rank_rounds jobs_by_id
  rank_pending pending free =
      let remaining = jobs_by_id pending [] in rank_rounds (length remaining) 0 remaining free
