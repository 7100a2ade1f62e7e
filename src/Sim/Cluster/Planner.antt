-- ===== src/Sim/Cluster/Planner.antt =====
-- sim/cluster.py, the planners: where a job could be placed.
use kelpflux.Base.{
  ℕ, zero, suc, ◌-◌, Bool, not, ◌&&◌, ◌||◌, Option, none, some, List, [], ◌∷◌, get_elem?, length,
  take, range, filter, sorted, ltb, leb, ◌==◌, min, if◌then◌else◌,
}
use kelpflux.Sim.Cluster.{
  Job, Allocation, Node, Cluster, free_whole_gpus, node_at, ram_fits, ram_ok, mem_nat, commit,
}

-- job.gpu_count == 1 and job.mps_req < self.mps_per_gpu
unfoldable pub is_fraction : Cluster → Job → Bool
is_fraction self job = job.gpu_count == 1 && ltb job.mps_req self.mps_per_gpu

-- The GPU found so far and what it would have left.
abbrev pub Best : Type 0
Best = Option (ℕ × ℕ)

unfoldable pub better : ℕ → ℕ → Best → Best
better gi residual none = some (gi, residual)
better gi residual (some (best, least)) =
    if ltb residual least then some (gi, residual) else some (best, least)

unfoldable pub best_gpu : ℕ → Best → ℕ → List ℕ → Best
unfolding better
best_gpu mps_req best gi [] = best
best_gpu mps_req best gi (free ∷ gpus) =
    if leb mps_req free
    then best_gpu mps_req (better gi (free - mps_req) best) (suc gi) gpus
    else best_gpu mps_req best (suc gi) gpus

abbrev pub one_gpu : Job → ℕ → ℕ → Allocation
one_gpu job ni gi = record {
  job_id = job.job_id;
  node_id = ni;
  gpu_indices = gi ∷ [];
  mps_per_gpu = job.mps_req;
}

module _ (self : Cluster) (job : Job) where
  -- The result on a node with memory: the GPU found there, or what the later nodes give.
  unfoldable pub take_best : ℕ → Option (List Allocation) → Best → Option (List Allocation)
  take_best ni later none = later
  take_best ni later (some (gi, residual)) = some (one_gpu job ni gi ∷ [])

  -- The first node with memory for the job and a GPU with slots for it; `ni` is the first's index,
  -- which is its node_id in a cluster of __post_init__.
  unfoldable pub plan_fraction : ℕ → List Node → Option (List Allocation)
  unfolding take_best
  plan_fraction ni [] = none
  plan_fraction ni (n ∷ nodes) =
      let later = plan_fraction (suc ni) nodes in
      if ram_fits self job.ram_req n
      then take_best ni later (best_gpu job.mps_req none 0 n.gpus)
      else later

  unfoldable pub free_on : Option Node → List ℕ
  free_on none = []
  free_on (some n) = free_whole_gpus n self.mps_per_gpu

  unfoldable pub free_at : ℕ → List ℕ
  unfolding free_on
  free_at ni = free_on (node_at self ni)

  -- On one node of a whole-GPU plan: as many of the GPUs as are still needed.
  abbrev pub whole_gpus : ℕ → ℕ → List ℕ → Allocation
  whole_gpus needed ni ordered = record {
    job_id = job.job_id;
    node_id = ni;
    gpu_indices = take (min needed (length ordered)) ordered;
    mps_per_gpu = self.mps_per_gpu;
  }

  -- The allocations on the nodes in order, and how many GPUs are still needed at the end; `gpus_on`
  -- gives the free GPUs of a node in the order to take them.
  unfoldable pub fill : (ℕ → List ℕ) → ℕ → List ℕ → List Allocation × ℕ
  fill gpus_on zero nis = ([], 0)
  fill gpus_on (suc needed) [] = ([], suc needed)
  fill gpus_on (suc needed) (ni ∷ nis) =
      let ordered = gpus_on ni in
      let skipped = fill gpus_on (suc needed) nis in
      let (others, missing) = fill gpus_on (suc needed - min (suc needed) (length ordered)) nis in
      if not (ram_ok self ni job.ram_req)
      then skipped
      else if length ordered == 0
      then skipped
      else (whole_gpus (suc needed) ni ordered ∷ others, missing)

  unfoldable pub filled : List Allocation × ℕ → Option (List Allocation)
  filled (plan, zero) = some plan
  filled (plan, suc missing) = none

  abbrev pub most_free : ℕ → ℕ → Bool
  most_free i j = leb (length (free_at j)) (length (free_at i))

  unfoldable pub plan : Option (List Allocation)
  unfolding plan_fraction fill filled is_fraction free_at
  plan =
      if is_fraction self job
      then plan_fraction 0 self.nodes
      else filled (fill free_at job.gpu_count (sorted most_free (range 0 self.n_nodes)))

  -- The requested GPU first, where it is free.
  unfoldable pub requested_first : ℕ → List ℕ → List ℕ
  requested_first gpu_i free =
      if mem_nat gpu_i free then gpu_i ∷ filter (λ g. not (g == gpu_i)) free else free

  unfoldable pub ordered_on : ℕ → ℕ → ℕ → List ℕ
  unfolding requested_first
  ordered_on node_i gpu_i ni =
      if ni == node_i then requested_first gpu_i (free_at ni) else free_at ni

  unfoldable pub fraction_at : ℕ → ℕ → Node → Option ℕ → Option (List Allocation)
  fraction_at node_i gpu_i n none = none
  fraction_at node_i gpu_i n (some free) =
      if leb job.mps_req free && ram_fits self job.ram_req n
      then some (one_gpu job node_i gpu_i ∷ [])
      else none

  unfoldable pub plan_fraction_on : ℕ → ℕ → Option Node → Option (List Allocation)
  unfolding fraction_at
  plan_fraction_on node_i gpu_i none = none
  plan_fraction_on node_i gpu_i (some n) = fraction_at node_i gpu_i n (get_elem? n.gpus gpu_i)

  unfoldable pub plan_on : ℕ → ℕ → Option (List Allocation)
  unfolding plan_fraction_on ordered_on fill filled is_fraction
  plan_on node_i gpu_i =
      if leb self.n_nodes node_i || leb self.gpus_per_node gpu_i
      then none
      else if is_fraction self job
      then plan_fraction_on node_i gpu_i (node_at self node_i)
      else filled (
          fill (ordered_on node_i gpu_i) job.gpu_count
            (node_i ∷ filter (λ n. not (n == node_i)) (range 0 self.n_nodes)))

-- The plan, and the cluster with the plan carried out; unchanged where there is none.
unfoldable pub carry_out :
    Cluster → Job → Option (List Allocation) → Option (List Allocation) × Cluster
carry_out self job none = (none, self)
carry_out self job (some plan) = (some plan, commit job plan self)

unfoldable pub try_allocate : Cluster → Job → Option (List Allocation) × Cluster
unfolding carry_out plan
try_allocate self job = carry_out self job (plan self job)

unfoldable pub try_allocate_on : Cluster → Job → ℕ → ℕ → Option (List Allocation) × Cluster
unfolding carry_out plan_on
try_allocate_on self job node_i gpu_i = carry_out self job (plan_on self job node_i gpu_i)
