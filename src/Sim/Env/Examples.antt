-- ===== src/Sim/Env/Examples.antt =====
-- sim/gym_env.py: the mask of a topology with two nodes of one GPU each, and a job that waits.
use kelpflux.Base.{◌≡◌, ◌↔◌, ◌⊎◌, refl, true, false, [], ◌∷◌, codes}
use kelpflux.Sim.Cluster.{Cluster, new_cluster, mem_nat}
use kelpflux.Sim.Latency.{TraceJob}
use kelpflux.Sim.Env.{Shape, no_op, encode, decode, env_dims, top_k_jobs, action_mask}
use kelpflux.Sim.Env.Masks.{IsLegal}
use kelpflux.Sim.Env.Allowed.{action_mask-IsLegal}

-- The live topology.
abbrev live_shape : Shape
live_shape = record { n_nodes = 2; gpus_per_node = 1; top_k = 16; colocation = false }

abbrev live_cluster : Cluster
live_cluster = new_cluster 1 100 1 1 ((codes "rtx4070", 62) ∷ (codes "rtx3080", 5) ∷ [])

abbrev waiting_job : TraceJob
waiting_job = record {
  job = record { job_id = codes "a"; gpu_count = 1; mps_req = 30; ram_req = 4 };
  gpu_type = codes "rtx4070";
  submit_ts = 0;
  runtime = 50;
  latency_class = [];
}

action_mask-IsLegal_example :
    (mem_nat 1 (action_mask live_shape live_cluster (waiting_job ∷ [])) ≡ true) ↔ (
      (1 ≡ no_op live_shape)
      ⊎ IsLegal live_shape live_cluster
          (top_k_jobs live_shape (waiting_job ∷ []))
          (decode live_shape 1))
action_mask-IsLegal_example = action_mask-IsLegal live_shape live_cluster (waiting_job ∷ []) 1

-- The dimensions that the file names for this topology.
live_dims : env_dims live_shape ≡ (168, 33)
unfolding env_dims
live_dims = refl

second_node : decode live_shape (encode live_shape 3 1 0) ≡ (3, 1, 0, 0)
unfolding encode decode
second_node = refl
