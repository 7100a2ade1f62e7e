-- ===== src/Sim/Env.antt =====
-- sim/gym_env.py: the actions of the training environment and its action mask, without the ablation.
-- A mask is the list of the actions that it allows.
pub mod Codec
pub mod Masks
pub mod Allowed
mod Examples
use kelpflux.Base.{
  ℕ, suc, ◌+◌, ◌*◌, ◌/◌, ◌%◌, Bool, true, false, not, ◌&&◌, Option, none, some, List, [], ◌∷◌, ◌++◌,
  get_elem?, range, take, sorted, ◌==◌, if◌then◌else◌,
}
use kelpflux.Sim.Cluster.{Job, Allocation, Node, Cluster, node_at}
use kelpflux.Sim.Cluster.Planner.{plan_on}
use kelpflux.Sim.Latency.{TraceJob}
use kelpflux.Sim.Runner.{first_submitted}

-- The topology, the jobs that an action may name, and whether an action has a mode.
pub record Shape : Type 0 where
  pub n_nodes : ℕ
  pub gpus_per_node : ℕ
  pub top_k : ℕ
  pub colocation : Bool

abbrev pub n_modes : Shape → ℕ
n_modes self = if self.colocation then 2 else 1

abbrev pub n_placements : Shape → ℕ
n_placements self = self.n_nodes * self.gpus_per_node

-- The lengths of an observation and of the action space.
unfoldable pub env_dims : Shape → ℕ × ℕ
env_dims self = (
  self.top_k * 9 + self.n_nodes * self.gpus_per_node * 7 + 4 + 6,
  self.top_k * self.n_nodes * self.gpus_per_node * n_modes self + 1,
)

abbrev pub no_op : Shape → ℕ
no_op self = self.top_k * self.n_nodes * self.gpus_per_node * n_modes self

unfoldable pub encode : Shape → ℕ → ℕ → ℕ → ℕ
encode self job_i placement mode = (job_i * n_placements self + placement) * n_modes self + mode

-- (job_i, node_j, gpu_k, mode)
unfoldable pub decode : Shape → ℕ → ℕ × ℕ × ℕ × ℕ
decode self a =
    let pj = a / n_modes self in
    let rem = pj % n_placements self in
    (pj / n_placements self, rem / self.gpus_per_node, rem % self.gpus_per_node, a % n_modes self)

unfoldable pub top_k_jobs : Shape → List TraceJob → List TraceJob
unfolding first_submitted
top_k_jobs self pending = take self.top_k (sorted first_submitted pending)

abbrev is_plan : Option (List Allocation) → Bool
is_plan none = false
is_plan (some plan) = true

unfoldable pub can_allocate_on : Cluster → Job → ℕ → ℕ → Bool
can_allocate_on cluster job node_i gpu_i = is_plan (plan_on cluster job node_i gpu_i)

abbrev is_slots : ℕ → Option ℕ → Bool
is_slots cap none = false
is_slots cap (some free) = free == cap

abbrev gpu_of : ℕ → Option Node → Option ℕ
gpu_of g none = none
gpu_of g (some n) = get_elem? n.gpus g

-- st.cluster.nodes[nj].gpus[gk].free_mps == cap
unfoldable pub gpu_idle : Cluster → ℕ → ℕ → Bool
gpu_idle cluster nj gk = is_slots cluster.mps_per_gpu (gpu_of gk (node_at cluster nj))

module _ (self : Shape) (cluster : Cluster) where
  unfoldable pub legal_modes : ℕ → ℕ → Bool → List ℕ → List ℕ
  unfolding encode
  legal_modes i placement idle [] = []
  legal_modes i placement idle (mode ∷ modes) =
      let rest = legal_modes i placement idle modes in
      if mode == 1 && not idle then rest else encode self i placement mode ∷ rest

  unfoldable pub legal_gpus : ℕ → Job → ℕ → List ℕ → List ℕ
  unfolding legal_modes can_allocate_on gpu_idle
  legal_gpus i job nj [] = []
  legal_gpus i job nj (gk ∷ gks) =
      let rest = legal_gpus i job nj gks in
      if can_allocate_on cluster job nj gk
      then legal_modes i (nj * self.gpus_per_node + gk) (gpu_idle cluster nj gk)
          (range 0 (n_modes self))
        ++ rest
      else rest

  unfoldable pub legal_nodes : ℕ → Job → List ℕ → List ℕ
  unfolding legal_gpus
  legal_nodes i job [] = []
  legal_nodes i job (nj ∷ njs) =
      legal_gpus i job nj (range 0 self.gpus_per_node) ++ legal_nodes i job njs

  unfoldable pub legal_jobs : ℕ → List TraceJob → List ℕ
  unfolding legal_nodes
  legal_jobs i [] = []
  legal_jobs i (job ∷ jobs) =
      legal_nodes i job.job (range 0 self.n_nodes) ++ legal_jobs (suc i) jobs

  unfoldable pub action_mask : List TraceJob → List ℕ
  unfolding legal_jobs top_k_jobs
  action_mask pending = legal_jobs 0 (top_k_jobs self pending) ++ no_op self ∷ []
