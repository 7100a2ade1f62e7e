-- ===== src/Sim/Cluster/Placing.antt =====
-- sim/cluster.py, the planners: that every plan can be carried out.
use kelpflux.Base.{
  ℕ, zero, suc, ◌+◌, ◌-◌, ◌≡◌, refl, sym, ap, ◌∙◌, inl, inr, true, not, ◌&&◌, ◌||◌, Option, none,
  some, List, [], ◌∷◌, get_elem?, range, filter, All, All-filter, ltb, leb, ◌==◌, ==_iff,
  Bool-cases, leb→le, arith, subst,
}
use kelpflux.Sim.Cluster.{Job, Allocation, Node, Cluster, node_at, ram_fits, mem_nat}
use kelpflux.Sim.Cluster.Planner.{
  is_fraction, Best, better, best_gpu, one_gpu, plan_fraction, free_at, fill, filled, take_best,
  plan, requested_first, ordered_on, plan_fraction_on, fraction_at, plan_on,
}
use kelpflux.Sim.Cluster.Plans.{
  IsPlaced, gpus_of, HasSlots, IsWhole, free_at-All, fill-IsPlaced, fill_count,
}

-- `xs` is the part of `full` from the index `i` on.
abbrev IsTail {ℓ} : {A : Type ℓ} → List A → ℕ → List A → Type ℓ
IsTail full i xs = (j : ℕ) → get_elem? xs j ≡ get_elem? full (i + j)

IsTail-next {ℓ} :
    {A : Type ℓ} (full xs : List A) (x : A) (i : ℕ)
    → IsTail full i (x ∷ xs)
    → IsTail full (suc i) xs
IsTail-next full xs x i h j = h (suc j) ∙ ap (get_elem? full) (omega arith)

IsTail-head {ℓ} :
    {A : Type ℓ} (full xs : List A) (x : A) (i : ℕ)
    → IsTail full i (x ∷ xs)
    → get_elem? full i ≡ some x
IsTail-head full xs x i h = ap (get_elem? full) (omega arith) ∙ sym (h 0)

IsTail-all {ℓ} : {A : Type ℓ} (full : List A) → IsTail full 0 full
IsTail-all full j = ap (get_elem? full) (omega arith)

-- The GPU found so far has the slots.
abbrev IsFound : ℕ → List ℕ → Best → Type 0
IsFound req full none = Unit
IsFound req full (some (k, residual)) = HasSlots req full k

module _ (req : ℕ) (full : List ℕ) where
  better-IsFound :
      (gi residual : ℕ) (best : Best)
      → HasSlots req full gi
      → IsFound req full best
      → IsFound req full (better gi residual best)
  unfolding better
  better-IsFound gi residual none h k = h
  better-IsFound gi residual (some (b, least)) h k = elim (Bool-cases (ltb residual least)) [
    | inl e ↦ rw e h
    | inr e ↦ rw e k
  ]

  best_gpu-IsFound :
      (best : Best) (gi : ℕ) (gpus : List ℕ)
      → IsTail full gi gpus
      → IsFound req full best
      → IsFound req full (best_gpu req best gi gpus)
  unfolding best_gpu
  best_gpu-IsFound best gi [] at h = h
  best_gpu-IsFound best gi (free ∷ gpus) at h = elim (Bool-cases (leb req free)) [
    | inl e ↦
        rw (best_gpu, e)
          (best_gpu-IsFound (better gi (free - req) best) (suc gi) gpus
            (IsTail-next full gpus free gi at)
            (better-IsFound gi (free - req) best
              (free, IsTail-head full gpus free gi at, leb→le req free e) h))
    | inr e ↦
        rw (best_gpu, e) (best_gpu-IsFound best (suc gi) gpus (IsTail-next full gpus free gi at) h)
  ]

mem_nat-All : (P : ℕ → Type 0) (k : ℕ) (xs : List ℕ) → All P xs → mem_nat k xs ≡ true → P k
mem_nat-All P k [] h e = absurd (cc)
mem_nat-All P k (x ∷ xs) h e = elim (Bool-cases (k == x)) [
  | inl same ↦ subst P (sym ((==_iff k x).0 same)) h.0
  | inr other ↦ mem_nat-All P k xs h.1 (ground (arith, e, other))
]

-- A plan, where there is one, can be carried out and has the GPUs that the job asks for.
abbrev pub IsPlan : Cluster → Job → Option (List Allocation) → Type 0
IsPlan self job none = Unit
IsPlan self job (some allocs) = All (IsPlaced self job) allocs × (gpus_of allocs ≡ job.gpu_count)

module _ (self : Cluster) (job : Job) where
  one_gpu-IsPlan :
      (ni gi : ℕ) (n : Node)
      → node_at self ni ≡ some n
      → ram_fits self job.ram_req n ≡ true
      → HasSlots job.mps_req n.gpus gi
      → job.gpu_count ≡ 1
      → IsPlan self job (some (one_gpu job ni gi ∷ []))
  one_gpu-IsPlan ni gi n e fits slots one = (((n, e, fits, (slots, tt)), tt), omega (arith, one))

  filled-IsPlan :
      (gpus_on : ℕ → List ℕ) (nis : List ℕ)
      → ((ni : ℕ) → All (IsWhole self job ni) (gpus_on ni))
      → IsPlan self job (filled self job (fill self job gpus_on job.gpu_count nis))
  unfolding filled
  filled-IsPlan gpus_on nis h =
      filled_cases (fill self job gpus_on job.gpu_count nis)
        (fill-IsPlaced self job gpus_on h job.gpu_count nis)
        (fill_count self job gpus_on job.gpu_count nis)
    where
      filled_cases :
          (r : List Allocation × ℕ)
          → All (IsPlaced self job) r.0
          → gpus_of r.0 + r.1 ≡ job.gpu_count
          → IsPlan self job (filled self job r)
      filled_cases (allocs, zero) placed count = (placed, omega (arith, count))
      filled_cases (allocs, suc missing) placed count = tt

  take_best-IsPlan :
      (ni : ℕ) (n : Node) (later : Option (List Allocation)) (best : Best)
      → node_at self ni ≡ some n
      → ram_fits self job.ram_req n ≡ true
      → IsFound job.mps_req n.gpus best
      → job.gpu_count ≡ 1
      → IsPlan self job later
      → IsPlan self job (take_best self job ni later best)
  unfolding take_best
  take_best-IsPlan ni n later none e fits found one h = h
  take_best-IsPlan ni n later (some (gi, residual)) e fits found one h =
      one_gpu-IsPlan ni gi n e fits found one

  plan_fraction-IsPlan :
      (ni : ℕ) (nodes : List Node)
      → IsTail self.nodes ni nodes
      → job.gpu_count ≡ 1
      → IsPlan self job (plan_fraction self job ni nodes)
  unfolding plan_fraction
  plan_fraction-IsPlan ni [] at one = tt
  plan_fraction-IsPlan ni (n ∷ nodes) at one =
      let later = plan_fraction-IsPlan (suc ni) nodes (IsTail-next self.nodes nodes n ni at) one in
      elim (Bool-cases (ram_fits self job.ram_req n)) [
        | inr e ↦ rw (plan_fraction, e) later
        | inl e ↦
            rw (plan_fraction, e)
              (take_best-IsPlan ni n _ _ (IsTail-head self.nodes nodes n ni at) e
                (best_gpu-IsFound job.mps_req n.gpus none 0 n.gpus (IsTail-all n.gpus) tt) one
                later)
      ]

  is_fraction_one : is_fraction self job ≡ true → job.gpu_count ≡ 1
  unfolding is_fraction
  is_fraction_one h = ground (arith, h)

  requested_first-All :
      (P : ℕ → Type 0) (gpu_i : ℕ) (free : List ℕ)
      → All P free
      → All P (requested_first self job gpu_i free)
  unfolding requested_first
  requested_first-All P gpu_i free h = elim (Bool-cases (mem_nat gpu_i free)) [
    | inl e ↦ rw e (mem_nat-All P gpu_i free h e, All-filter P (λ g. not (g == gpu_i)) free h)
    | inr e ↦ rw e h
  ]

  ordered_on-All :
      (node_i gpu_i ni : ℕ) → All (IsWhole self job ni) (ordered_on self job node_i gpu_i ni)
  unfolding ordered_on
  ordered_on-All node_i gpu_i ni = elim (Bool-cases (ni == node_i)) [
    | inl e ↦ rw (ordered_on, e) (requested_first-All _ gpu_i _ (free_at-All self job ni))
    | inr e ↦ rw (ordered_on, e) (free_at-All self job ni)
  ]

  fraction_at-IsPlan :
      (node_i gpu_i : ℕ) (n : Node) (o : Option ℕ)
      → node_at self node_i ≡ some n
      → get_elem? n.gpus gpu_i ≡ o
      → job.gpu_count ≡ 1
      → IsPlan self job (fraction_at self job node_i gpu_i n o)
  unfolding fraction_at
  fraction_at-IsPlan node_i gpu_i n none e slot one = tt
  fraction_at-IsPlan node_i gpu_i n (some free) e slot one =
      elim (Bool-cases (leb job.mps_req free && ram_fits self job.ram_req n)) [
        | inr no_room ↦ rw no_room tt
        | inl room ↦ rw room (
            one_gpu-IsPlan node_i gpu_i n e (ground (arith, room))
              (free, slot, ground (arith, room)) one)
      ]

  plan_fraction_on-IsPlan :
      (node_i gpu_i : ℕ) (o : Option Node)
      → node_at self node_i ≡ o
      → job.gpu_count ≡ 1
      → IsPlan self job (plan_fraction_on self job node_i gpu_i o)
  unfolding plan_fraction_on
  plan_fraction_on-IsPlan node_i gpu_i none e one = tt
  plan_fraction_on-IsPlan node_i gpu_i (some n) e one =
      fraction_at-IsPlan node_i gpu_i n (get_elem? n.gpus gpu_i) e refl one

  -- Whatever the state of the cluster: where `try_allocate` finds a plan, each of its allocations is
  -- on a node that has memory for the job, within the overcommit factor, and on GPUs that have the
  -- slots free; and the plan has as many GPUs as the job asks for.
  pub plan-IsPlan : IsPlan self job (plan self job)
  unfolding plan
  plan-IsPlan = elim (Bool-cases (is_fraction self job)) [
    | inl e ↦ rw e (plan_fraction-IsPlan 0 self.nodes (IsTail-all self.nodes) (is_fraction_one e))
    | inr e ↦ rw e (filled-IsPlan (free_at self job) _ (free_at-All self job))
  ]

  -- The same holds of every plan of `try_allocate_on`, whichever node and GPU are asked for.
  pub plan_on-IsPlan : (node_i gpu_i : ℕ) → IsPlan self job (plan_on self job node_i gpu_i)
  unfolding plan_on
  plan_on-IsPlan node_i gpu_i =
      elim (Bool-cases (leb self.n_nodes node_i || leb self.gpus_per_node gpu_i)) [
        | inl outside ↦ rw (plan_on, outside) tt
        | inr inside ↦ elim (Bool-cases (is_fraction self job)) [
          | inl e ↦
              rw (plan_on, inside, e)
                (plan_fraction_on-IsPlan node_i gpu_i (node_at self node_i) refl
                  (is_fraction_one e))
          | inr e ↦
              rw (plan_on, inside, e)
                (filled-IsPlan (ordered_on self job node_i gpu_i)
                  (node_i ∷ filter (λ n. not (n == node_i)) (range 0 self.n_nodes))
                  (ordered_on-All node_i gpu_i))
        ]
      ]
