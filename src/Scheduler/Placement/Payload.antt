-- ===== src/Scheduler/Placement/Payload.antt =====
-- services/rl_scheduler/placement_controller.py: what the policy is asked, and what it answers.
use kelpflux.Base.{
  ℕ, suc, ◌-◌, ◌/◌, max, Bool, ◌&&◌, ◌||◌, Option, some, ℤ, List, [], ◌∷◌, map, Text, text_eq,
  mem_text, split_on, any, take, length, sorted, leb, if◌then◌else◌,
}
use kelpflux.Operator.Models.{Time}
use kelpflux.Scheduler.Placement.{SlurmJob, SlurmNode}

abbrev pub top_k : ℕ
top_k = 16

abbrev pub submitted_before : SlurmJob → SlurmJob → Bool
submitted_before a b = leb a.submit_ts b.submit_ts

-- sorted(jobs, key=lambda job: job.submit_ts)
abbrev pub by_submit : List SlurmJob → List SlurmJob
by_submit jobs = sorted submitted_before jobs

pub record PendingEntry : Type 0 where
  pub job_id : Text
  pub mps_req : ℕ
  pub gpu_count : ℕ
  pub gpu_type : Text
  pub runtime : Time
  pub submit_ts : Time
  pub ram_req : ℕ
  pub slo_s : Time
  pub job_class : Text
  pub eligible_node_indices : List ℕ
  pub can_fit : Bool

pub record ActPayload : Type 0 where
  pub now : Time
  pub pending_jobs : List PendingEntry
  pub nodes : List SlurmNode
  pub n_nodes : ℕ
  pub gpus_per_node : ℕ
  pub mps_per_gpu : ℕ

-- The node takes jobs, has the GPU type that the job needs, and is one that the job names, if any.
unfoldable pub is_eligible : SlurmJob → SlurmNode → Bool
is_eligible job node =
    node.available
    && ((text_eq job.required_gpu_type [] || text_eq node.gpu_type job.required_gpu_type)
        && (text_eq job.required_nodes [] || mem_text node.name (split_on b',' job.required_nodes)))

-- The indices, from `i` on, of the nodes that pass the test.
unfoldable pub indices : (SlurmNode → Bool) → ℕ → List SlurmNode → List ℕ
indices test i [] = []
indices test i (node ∷ nodes) =
    if test node then i ∷ indices test (suc i) nodes else indices test (suc i) nodes

unfoldable pub entry_of : List SlurmNode → SlurmJob → PendingEntry
unfolding indices is_eligible
entry_of nodes job = record {
  job_id = job.job_id;
  mps_req = job.mps_req;
  gpu_count = job.gpu_count;
  gpu_type = job.gpu_type;
  runtime = job.runtime;
  submit_ts = job.submit_ts;
  ram_req = job.ram_req;
  slo_s = job.slo_s;
  job_class = job.job_class;
  eligible_node_indices = indices (is_eligible job) 0 nodes;
  can_fit = any (λ node. is_eligible job node && leb job.mps_req node.free_mps) nodes;
}

unfoldable pub build_act_payload : ℕ → Time → List SlurmJob → List SlurmNode → ActPayload
unfolding entry_of
build_act_payload mps_per_gpu now jobs nodes = record {
  now = now;
  pending_jobs = map (entry_of nodes) (take top_k (by_submit jobs));
  nodes = nodes;
  n_nodes = length nodes;
  gpus_per_node = 1;
  mps_per_gpu = mps_per_gpu;
}

-- The policy's answer; `none` for a field that is absent or null, and for numbers that are none.
pub record Act : Type 0 where
  pub selected_job_id : Option Text
  pub node_j : Option ℤ
  pub gpu_k : Option ℤ
  pub action : Option ℤ

-- Only as many nodes as the model knows placements for. `n_actions` is what the scheduler's health
-- page gives, `none` where that is no integer.
unfoldable pub trim_nodes_to_model_topology : Option ℤ → List SlurmNode → List SlurmNode
trim_nodes_to_model_topology (some (ℤ.pos n_actions)) nodes =
    if leb n_actions 1 then nodes else take (max 1 ((n_actions - 1) / top_k)) nodes
trim_nodes_to_model_topology n_actions nodes = nodes
