-- ===== src/Sim/Cluster.antt =====
-- sim/cluster.py: nodes, their GPUs' MPS slots and host memory, and the allocation of jobs to them.
-- Memory is counted exactly, in units of 1e-9 GB, so the tolerance of the memory test is one unit, and
-- the overcommit factor is a fraction; the source adds and subtracts floats, which round. An index out of range, where the source raises, finds no node.
pub mod Planner
pub mod Plans
pub mod Placing
pub mod Undo
pub mod Release
pub mod Spread
pub mod Roundtrip
pub mod Cells
pub mod Requested
pub mod Balance
mod Examples
use kelpflux.Base.{
  ℕ, zero, suc, ◌+◌, ◌-◌, ◌*◌, Bool, true, false, not, ◌&&◌, ◌||◌, Option, none, some, List, [],
  ◌∷◌, ◌++◌, map, Text, get_elem?, length, take, replicate, range, filter, sum_by, lookup, insert,
  erase, Dict, ltb, leb, ◌==◌, if◌then◌else◌,
}

-- What the allocation reads of a job.
pub record Job : Type 0 where
  pub job_id : Text
  pub gpu_count : ℕ
  pub mps_req : ℕ
  pub ram_req : ℕ

pub record Allocation : Type 0 where
  pub job_id : Text
  pub node_id : ℕ
  pub gpu_indices : List ℕ
  pub mps_per_gpu : ℕ

-- `gpus` lists the free slots of each GPU.
pub record Node : Type 0 where
  pub node_id : ℕ
  pub gpus : List ℕ
  pub gpu_type : Text
  pub ram_gb : ℕ
  pub used_ram_gb : ℕ

pub record Cluster : Type 0 where
  pub n_nodes : ℕ
  pub gpus_per_node : ℕ
  pub mps_per_gpu : ℕ
  pub overcommit_num : ℕ
  pub overcommit_den : ℕ
  pub nodes : List Node
  pub active : Dict (List Allocation)
  pub active_ram : Dict ℕ

unfoldable pub free_ram_gb : Node → ℕ
free_ram_gb n = n.ram_gb - n.used_ram_gb

-- The indices from `i` on of the GPUs with all slots free.
unfoldable pub whole_from : ℕ → ℕ → List ℕ → List ℕ
whole_from mps_per_gpu i [] = []
whole_from mps_per_gpu i (free ∷ gpus) =
    let rest = whole_from mps_per_gpu (suc i) gpus in if free == mps_per_gpu then i ∷ rest else rest

unfoldable pub free_whole_gpus : Node → ℕ → List ℕ
unfolding whole_from
free_whole_gpus n mps_per_gpu = whole_from mps_per_gpu 0 n.gpus

abbrev total : List ℕ → ℕ
total xs = sum_by (λ x. x) xs

unfoldable pub free_mps_total : Node → ℕ
free_mps_total n = total n.gpus

-- A new node of __post_init__, with its card and memory.
unfoldable pub new_node : ℕ → ℕ → ℕ → Text × ℕ → Node
new_node gpus_per_node mps_per_gpu i (gpu_type, ram_gb) = record {
  node_id = i;
  gpus = replicate gpus_per_node mps_per_gpu;
  gpu_type = gpu_type;
  ram_gb = ram_gb;
  used_ram_gb = 0;
}

unfoldable pub new_nodes : ℕ → ℕ → ℕ → List (Text × ℕ) → List Node
unfolding new_node
new_nodes gpus_per_node mps_per_gpu i [] = []
new_nodes gpus_per_node mps_per_gpu i (kind ∷ kinds) =
    new_node gpus_per_node mps_per_gpu i kind ∷ new_nodes gpus_per_node mps_per_gpu (suc i) kinds

-- The cluster of __post_init__: `kinds` has one card and memory size for each node.
unfoldable pub new_cluster : ℕ → ℕ → ℕ → ℕ → List (Text × ℕ) → Cluster
unfolding new_nodes
new_cluster gpus_per_node mps_per_gpu num den kinds = record {
  n_nodes = length kinds;
  gpus_per_node = gpus_per_node;
  mps_per_gpu = mps_per_gpu;
  overcommit_num = num;
  overcommit_den = den;
  nodes = new_nodes gpus_per_node mps_per_gpu 0 kinds;
  active = [];
  active_ram = [];
}

abbrev pub node_at : Cluster → ℕ → Option Node
node_at self i = get_elem? self.nodes i

-- used_ram_gb + ram_req <= ram_gb * ram_overcommit + 1e-9, times the fraction's denominator
unfoldable pub ram_fits : Cluster → ℕ → Node → Bool
ram_fits self ram_req n =
    leb ((n.used_ram_gb + ram_req) * self.overcommit_den)
      (n.ram_gb * self.overcommit_num + self.overcommit_den)

unfoldable pub ram_fits_on : Cluster → ℕ → Option Node → Bool
unfolding ram_fits
ram_fits_on self ram_req none = false
ram_fits_on self ram_req (some n) = ram_fits self ram_req n

unfoldable pub ram_ok : Cluster → ℕ → ℕ → Bool
unfolding ram_fits_on
ram_ok self node_i ram_req = ram_fits_on self ram_req (node_at self node_i)

unfoldable pub total_mps : Cluster → ℕ
total_mps self = self.n_nodes * self.gpus_per_node * self.mps_per_gpu

unfoldable pub free_mps_per_node : Cluster → List ℕ
unfolding free_mps_total
free_mps_per_node self = map free_mps_total self.nodes

unfoldable pub used_mps : Cluster → ℕ
unfolding total_mps free_mps_total
used_mps self = total_mps self - sum_by free_mps_total self.nodes

-- xs[i] = f(xs[i])
unfoldable pub update_at {ℓ} : {A : Type ℓ} → (A → A) → ℕ → List A → List A
update_at f i [] = []
update_at f zero (x ∷ xs) = f x ∷ xs
update_at f (suc i) (x ∷ xs) = x ∷ update_at f i xs

-- The inner loop over the GPUs of one allocation, for either operation on the free slots.
unfoldable pub change_gpus : (ℕ → ℕ) → List ℕ → List ℕ → List ℕ
unfolding update_at
change_gpus f [] gpus = gpus
change_gpus f (gi ∷ indices) gpus = change_gpus f indices (update_at f gi gpus)

unfoldable pub change_nodes : (ℕ → ℕ → ℕ) → List Allocation → List Node → List Node
unfolding change_gpus
change_nodes f [] nodes = nodes
change_nodes f (alloc ∷ plan) nodes = change_nodes f plan (
    update_at (λ n. record n { gpus = change_gpus (f alloc.mps_per_gpu) alloc.gpu_indices n.gpus })
      alloc.node_id nodes)

-- k in xs
abbrev pub mem_nat : ℕ → List ℕ → Bool
mem_nat k [] = false
mem_nat k (x ∷ xs) = k == x || mem_nat k xs

-- {a.node_id for a in plan}
unfoldable pub hosts : List Allocation → List ℕ
hosts [] = []
hosts (a ∷ plan) =
    let others = hosts plan in if mem_nat a.node_id others then others else a.node_id ∷ others

unfoldable pub change_ram : (ℕ → ℕ) → List ℕ → List Node → List Node
unfolding update_at
change_ram f [] nodes = nodes
change_ram f (ni ∷ is) nodes =
    change_ram f is (update_at (λ n. record n { used_ram_gb = f n.used_ram_gb }) ni nodes)

unfoldable pub reserve_ram : Text → List Allocation → ℕ → Cluster → Cluster
unfolding change_ram hosts
reserve_ram job_id plan ram_req self = record self {
  nodes = change_ram (λ used. used + ram_req) (hosts plan) self.nodes;
  active_ram = insert job_id ram_req self.active_ram;
}

-- What try_allocate and try_allocate_on do with a plan.
unfoldable pub commit : Job → List Allocation → Cluster → Cluster
unfolding reserve_ram change_nodes
commit job plan self =
    let taken = record self { nodes = change_nodes (λ mps free. free - mps) plan self.nodes } in
    let charged = reserve_ram job.job_id plan job.ram_req taken in
    record charged { active = insert job.job_id plan charged.active }

abbrev ram_or_zero : Option ℕ → ℕ
ram_or_zero none = 0
ram_or_zero (some ram) = ram

unfoldable pub release_plan : Text → Option (List Allocation) → Cluster → Cluster
unfolding change_nodes change_ram hosts
release_plan job_id none self = self
release_plan job_id (some plan) self =
    let ram = ram_or_zero (lookup job_id self.active_ram) in
    record self {
      active = erase job_id self.active;
      active_ram = erase job_id self.active_ram;
      nodes =
          change_ram (λ used. used - ram) (hosts plan)
            (change_nodes (λ mps free. free + mps) plan self.nodes);
    }

unfoldable pub release : Text → Cluster → Cluster
unfolding release_plan
release job_id self = release_plan job_id (lookup job_id self.active) self
