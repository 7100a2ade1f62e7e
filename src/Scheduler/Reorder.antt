-- ===== src/Scheduler/Reorder.antt =====
-- services/rl_scheduler/reorder_daemon.py: the jobs that may be reordered, the priorities that the
-- daemon owns, and the state that a cycle compares.
pub mod Ranking
mod Jobs
mod Picks
pub mod Dispatch
pub mod Totality
pub mod Cycle
mod Orders
pub mod Requests
pub mod Writes
mod Examples
use kelpflux.Base.{
  ℕ, suc, ◌+◌, ◌-◌, ◌*◌, Bool, true, false, not, ◌&&◌, ◌||◌, Option, none, some, List, [], ◌∷◌, map,
  Text, codes, text_eq, mem_text, starts_with, contains, filter, Dict, lookup, insert, leb, ltb,
  ◌==◌, if◌then◌else◌,
}
use kelpflux.Operator.Models.{Time}
use kelpflux.Operator.Fragmentation.Parsers.{number_or}
use kelpflux.Scheduler.Parsers.{parse_tres_int, rtx4070, rtx3080}
use kelpflux.Scheduler.Snapshot.{
  JobItem, NodeItem, or_text, is_pending, tres_text, cons_some, views,
}
use kelpflux.Scheduler.Placement.{SlurmJob, SlurmNode, parse_job, is_held_reason, parse_nodes}
use kelpflux.Scheduler.Placement.Payload.{by_submit}

abbrev pub release_base : ℕ
release_base = 5000000

abbrev pub release_spacing : ℕ
release_spacing = 10000

abbrev pub max_pending_jobs : ℕ
max_pending_jobs = 150

abbrev pub min_owned_priority : ℕ
min_owned_priority = release_base - (max_pending_jobs - 1) * release_spacing

-- Slurm's INFINITE: the priority is computed anew.
abbrev pub release_priority : ℕ
release_priority = 0xFFFFFFFF

-- A priority of -1 stands for one that is absent.
abbrev pub Priority : Type 0
Priority = Option ℕ

abbrev pub is_owned : Priority → Bool
is_owned none = false
is_owned (some p) = leb min_owned_priority p && leb p release_base

-- pending[job_id] <= 0 or == RELEASE_PRIORITY or in the owned range
abbrev pub is_unrestored : Priority → Bool
is_unrestored none = true
is_unrestored (some p) = p == 0 || p == release_priority || is_owned (some p)

abbrev pub priority_eq : Priority → Priority → Bool
priority_eq none none = true
priority_eq (some p) (some q) = p == q
priority_eq _ _ = false

-- `none` for a job without an explicit MPS request.
unfoldable pub job_from_item : Time → Time → JobItem → Option SlurmJob
unfolding parse_tres_int parse_job
job_from_item default_runtime now item =
    if is_pending item && ltb 0 (number_or 0 (parse_tres_int (tres_text item) (codes "mps")))
    then some (parse_job default_runtime 0 now item)
    else none

-- A held job has a reason that says so, or the priority 0.
unfoldable pub is_unheld : JobItem → Bool
unfolding is_held_reason
is_unheld item =
    not (is_held_reason (or_text item.state_reason item.reason) || number_or 1 item.priority == 0)

abbrev single_gpu : Text → Option SlurmJob → Option SlurmJob
single_gpu prefix none = none
single_gpu prefix (some job) =
    if job.gpu_count == 1 && (text_eq prefix [] || starts_with job.name prefix)
    then some job
    else none

unfoldable pub eligible_job : List Text → Time → Time → Text → JobItem → Option SlurmJob
unfolding is_unheld job_from_item
eligible_job gpu_partitions default_runtime now job_name_prefix item =
    if is_pending item && (is_unheld item && mem_text item.partition gpu_partitions)
    then single_gpu job_name_prefix (job_from_item default_runtime now item)
    else none

unfoldable pub parse_eligible_jobs : List Text → Time → Time → Text → List JobItem → List SlurmJob
unfolding eligible_job views
parse_eligible_jobs gpu_partitions default_runtime now job_name_prefix items =
    by_submit (views (eligible_job gpu_partitions default_runtime now job_name_prefix) items)

-- The entries of the dictionary, later ones over earlier ones.
unfoldable pub pending_job_priorities : List JobItem → Dict Priority → Dict Priority
pending_job_priorities [] d = d
pending_job_priorities (item ∷ items) d = pending_job_priorities items (elim item.job_id [
  | none ↦ d
  | some jid ↦ if is_pending item then insert jid item.priority d else d
])

unfoldable pub discovered_nodes : List SlurmNode → Dict SlurmNode → Dict SlurmNode
discovered_nodes [] d = d
discovered_nodes (n ∷ ns) d = discovered_nodes ns (insert n.name n d)

-- A node that is not reported, or takes no jobs, has no free slots.
unfoldable pub state_node : Text → Option SlurmNode → SlurmNode
state_node name none = record {
  name = name;
  free_mps = 0;
  running_jobs = 0;
  gpu_type = if contains (codes "3080") name then rtx3080 else rtx4070;
  available = false;
}
state_node name (some node) =
    if node.available then node else record node { free_mps = 0; available = false }

unfoldable pub nodes_for : Dict SlurmNode → List Text → List SlurmNode
unfolding state_node
nodes_for discovered node_names = map (λ name. state_node name (lookup name discovered)) node_names

-- _state_signature: the fields that a cycle compares.
unfoldable pub same_job : SlurmJob → SlurmJob → Bool
same_job a b =
    text_eq a.job_id b.job_id
    && (a.mps_req == b.mps_req
        && (a.gpu_count == b.gpu_count
            && (text_eq a.partition b.partition
                && (text_eq a.required_nodes b.required_nodes
                    && (a.submit_ts == b.submit_ts && a.priority == b.priority)))))

unfoldable pub same_node : SlurmNode → SlurmNode → Bool
same_node a b =
    text_eq a.name b.name
    && (text_eq a.gpu_type b.gpu_type
        && (a.free_mps == b.free_mps && (if a.available then b.available else not b.available)))

-- Two tuples are equal: the same length, and each pair of entries.
unfoldable pub all_same : {A : Type 0} → (A → A → Bool) → List A → List A → Bool
all_same same [] [] = true
all_same same (x ∷ xs) (y ∷ ys) = same x y && all_same same xs ys
all_same same _ _ = false

-- The i-th job of an order gets RELEASE_BASE - i * RELEASE_SPACING. Over more than 500 jobs the source
-- would go below zero, where this stops at 0.
unfoldable pub priorities_from : ℕ → List Text → Dict ℕ
priorities_from i [] = []
priorities_from i (jid ∷ order) =
    (jid, release_base - i * release_spacing) ∷ priorities_from (suc i) order
