-- ===== src/Sim/Cluster/Examples.antt =====
-- sim/cluster.py: allocations on two nodes of two GPUs each.
use kelpflux.Base.{ℕ, ◌+◌, some, List, ◌≡◌, refl, [], ◌∷◌, codes, text_eq, lookup, insert}
use kelpflux.Sim.Cluster.{
  Job, Allocation, Cluster, new_cluster, new_nodes, new_node, free_mps_per_node, free_mps_total,
  ram_fits, update_at, change_gpus, change_nodes, hosts, change_ram, reserve_ram, commit,
  release_plan, release,
}
use kelpflux.Sim.Cluster.Planner.{
  is_fraction, better, best_gpu, take_best, plan_fraction, plan, plan_on, carry_out, try_allocate,
}
use kelpflux.Sim.Cluster.Release.{slots_of}
use kelpflux.Sim.Cluster.Roundtrip.{try_allocate-release}
use kelpflux.Sim.Cluster.Placing.{IsPlan, plan-IsPlan, plan_on-IsPlan}
use kelpflux.Sim.Cluster.Cells.{cell}
use kelpflux.Sim.Cluster.Balance.{here, allocated, in_use, Reach-slots}

abbrev two_nodes : Cluster
two_nodes = new_cluster 2 100 1 1 ((codes "rtx4070", 62) ∷ (codes "rtx3080", 5) ∷ [])

abbrev small_job : Job
small_job = record { job_id = codes "a"; gpu_count = 1; mps_req = 30; ram_req = 4 }

abbrev wide_job : Job
wide_job = record { job_id = codes "b"; gpu_count = 3; mps_req = 100; ram_req = 4 }

plan-IsPlan_example : IsPlan two_nodes wide_job (plan two_nodes wide_job)
plan-IsPlan_example = plan-IsPlan two_nodes wide_job

plan_on-IsPlan_example : IsPlan two_nodes small_job (plan_on two_nodes small_job 1 0)
plan_on-IsPlan_example = plan_on-IsPlan two_nodes small_job 1 0

-- A small job takes slots of one GPU, and gives them back.
try_allocate_small : free_mps_per_node (try_allocate two_nodes small_job).1 ≡ 170 ∷ 200 ∷ []
unfolding new_cluster new_nodes new_node free_mps_per_node free_mps_total ram_fits update_at
    change_gpus change_nodes hosts change_ram reserve_ram commit is_fraction better best_gpu
    take_best plan_fraction plan carry_out try_allocate
try_allocate_small = refl

release_small :
    free_mps_per_node (release (codes "a") (try_allocate two_nodes small_job).1) ≡ 200 ∷ 200 ∷ []
unfolding new_cluster new_nodes new_node free_mps_per_node free_mps_total ram_fits update_at
    change_gpus change_nodes hosts change_ram reserve_ram commit is_fraction better best_gpu
    take_best plan_fraction plan carry_out try_allocate release release_plan lookup insert text_eq
release_small = refl

abbrev small_plan : List Allocation
small_plan = record { job_id = codes "a"; node_id = 0; gpu_indices = 0 ∷ []; mps_per_gpu = 30 } ∷ []

small_job_placed : (try_allocate two_nodes small_job).0 ≡ some small_plan
unfolding new_cluster new_nodes new_node ram_fits is_fraction better best_gpu take_best
    plan_fraction plan carry_out try_allocate
small_job_placed = refl

try_allocate-release_example :
    let after = release (codes "a") (try_allocate two_nodes small_job).1 in
    (slots_of after.nodes ≡ slots_of two_nodes.nodes)
    × (lookup (codes "b") after.active ≡ lookup (codes "b") two_nodes.active)
unfolding new_cluster lookup
try_allocate-release_example =
    try_allocate-release two_nodes small_job small_plan (codes "b") small_job_placed refl

-- A GPU from which a small job has taken slots.
Reach-slots_example :
    let after = (try_allocate two_nodes small_job).1 in
    (free : ℕ) × (cell 0 0 after.nodes ≡ some free) × (free + in_use 0 0 after ≡ 100)
unfolding new_cluster new_nodes new_node lookup
Reach-slots_example =
    Reach-slots two_nodes (try_allocate two_nodes small_job).1 0 0 100 refl refl
      (allocated two_nodes small_job here refl)
