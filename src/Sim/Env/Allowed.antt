-- ===== src/Sim/Env/Allowed.antt =====
-- sim/gym_env.py, action_mask: exactly which actions it allows.
use kelpflux.Base.{
  ℕ, zero, suc, ◌+◌, ◌*◌, ◌≡◌, ◌↔◌, ◌⊎◌, refl, sym, ap, ◌∙◌, subst, inl, inr, true, some, List, [],
  ◌∷◌, ◌++◌, get_elem?, range, Bool-cases, ◌==◌, ==_iff, arith,
}
use kelpflux.Sim.Cluster.{Job, Cluster, mem_nat}
use kelpflux.Sim.Cluster.Cells.{All-mem_nat}
use kelpflux.Sim.Latency.{TraceJob}
use kelpflux.Sim.Env.{
  Shape, n_modes, no_op, encode, decode, top_k_jobs, can_allocate_on, gpu_idle, legal_modes,
  legal_gpus, legal_nodes, legal_jobs, action_mask,
}
use kelpflux.Sim.Env.Codec.{decode-encode, encode-decode}
use kelpflux.Sim.Env.Masks.{
  in_range, mem_nat-append, mem_nat-left, mem_nat-right, IsPossible, IsLegal, Codes,
  legal_modes-mem, legal_jobs-Codes,
}

module _ (self : Shape) (cluster : Cluster) where
  legal_gpus-mem :
      (i : ℕ) (job : Job) (nj gk mode : ℕ) (gks : List ℕ)
      → IsPossible self cluster job nj gk mode
      → mem_nat gk gks ≡ true
      → mem_nat
          (encode self i (nj * self.gpus_per_node + gk) mode)
          (legal_gpus self cluster i job nj gks)
        ≡ true
  unfolding legal_gpus
  legal_gpus-mem i job nj gk mode [] p h = absurd (cc)
  legal_gpus-mem i job nj gk mode (k ∷ gks) (n, g, m, can, idle) h = elim (Bool-cases (gk == k)) [
    | inl same ↦
        let is_k : gk ≡ k = (==_iff gk k).0 same in
        let can_there : can_allocate_on cluster job nj k ≡ true =
          subst (λ x. can_allocate_on cluster job nj x ≡ true) is_k can in
        rw can_there (
          mem_nat-left (encode self i (nj * self.gpus_per_node + gk) mode)
            (legal_modes self cluster i (nj * self.gpus_per_node + k) (gpu_idle cluster nj k)
              (range 0 (n_modes self)))
            (legal_gpus self cluster i job nj gks)
            (subst
              (λ x.
                mem_nat (encode self i (nj * self.gpus_per_node + gk) mode) (
                  legal_modes self cluster i (nj * self.gpus_per_node + x) (gpu_idle cluster nj x)
                    (range 0 (n_modes self)))
                ≡ true)
              is_k
              (legal_modes-mem self cluster i job nj gk n g can mode (range 0 (n_modes self)) idle
                (in_range mode (n_modes self) m))))
    | inr other ↦
        let later = legal_gpus-mem i job nj gk mode gks (n, g, m, can, idle) (rw other at h) in
        elim (Bool-cases (can_allocate_on cluster job nj k)) [
          | inl e ↦ rw e (
              mem_nat-right (encode self i (nj * self.gpus_per_node + gk) mode)
                (legal_modes self cluster i (nj * self.gpus_per_node + k) (gpu_idle cluster nj k)
                  (range 0 (n_modes self)))
                (legal_gpus self cluster i job nj gks) later)
          | inr e ↦ rw e later
        ]
  ]

  legal_nodes-mem :
      (i : ℕ) (job : Job) (nj gk mode : ℕ) (njs : List ℕ)
      → IsPossible self cluster job nj gk mode
      → mem_nat nj njs ≡ true
      → mem_nat
          (encode self i (nj * self.gpus_per_node + gk) mode)
          (legal_nodes self cluster i job njs)
        ≡ true
  unfolding legal_nodes
  legal_nodes-mem i job nj gk mode [] p h = absurd (cc)
  legal_nodes-mem i job nj gk mode (k ∷ njs) p h = elim (Bool-cases (nj == k)) [
    | inl same ↦
        mem_nat-left (encode self i (nj * self.gpus_per_node + gk) mode)
          (legal_gpus self cluster i job k (range 0 self.gpus_per_node))
          (legal_nodes self cluster i job njs)
          (subst
            (λ x.
              mem_nat (encode self i (nj * self.gpus_per_node + gk) mode)
                (legal_gpus self cluster i job x (range 0 self.gpus_per_node))
              ≡ true)
            ((==_iff nj k).0 same)
            (legal_gpus-mem i job nj gk mode (range 0 self.gpus_per_node) p
              (in_range gk self.gpus_per_node p.1)))
    | inr other ↦
        mem_nat-right (encode self i (nj * self.gpus_per_node + gk) mode)
          (legal_gpus self cluster i job k (range 0 self.gpus_per_node))
          (legal_nodes self cluster i job njs)
          (legal_nodes-mem i job nj gk mode njs p (rw other at h))
  ]

  legal_jobs-mem :
      (i k : ℕ) (job : TraceJob) (nj gk mode : ℕ) (jobs : List TraceJob)
      → get_elem? jobs k ≡ some job
      → IsPossible self cluster job.job nj gk mode
      → mem_nat
          (encode self (i + k) (nj * self.gpus_per_node + gk) mode)
          (legal_jobs self cluster i jobs)
        ≡ true
  unfolding legal_jobs
  legal_jobs-mem i k job nj gk mode [] at p = absurd (cc)
  legal_jobs-mem i zero job nj gk mode (x ∷ jobs) at p =
      let is_x : job ≡ x = cc in
      mem_nat-left (encode self (i + 0) (nj * self.gpus_per_node + gk) mode)
        (legal_nodes self cluster i x.job (range 0 self.n_nodes))
        (legal_jobs self cluster (suc i) jobs)
        (subst
          (λ n.
            mem_nat (encode self n (nj * self.gpus_per_node + gk) mode)
              (legal_nodes self cluster i x.job (range 0 self.n_nodes))
            ≡ true)
          (omega arith)
          (subst
            (λ y.
              mem_nat (encode self i (nj * self.gpus_per_node + gk) mode)
                (legal_nodes self cluster i y.job (range 0 self.n_nodes))
              ≡ true)
            is_x
            (legal_nodes-mem i job.job nj gk mode (range 0 self.n_nodes) p
              (in_range nj self.n_nodes p.0))))
  legal_jobs-mem i (suc k) job nj gk mode (x ∷ jobs) at p =
      mem_nat-right (encode self (i + suc k) (nj * self.gpus_per_node + gk) mode)
        (legal_nodes self cluster i x.job (range 0 self.n_nodes))
        (legal_jobs self cluster (suc i) jobs)
        (subst
          (λ n.
            mem_nat (encode self n (nj * self.gpus_per_node + gk) mode)
              (legal_jobs self cluster (suc i) jobs)
            ≡ true)
          (omega arith) (legal_jobs-mem (suc i) k job nj gk mode jobs at p))

  code-IsLegal :
      (top : List TraceJob) (a k : ℕ) (job : TraceJob)
      → get_elem? top k ≡ some job
      → Codes self cluster (0 + k) job.job a
      → IsLegal self cluster top (decode self a)
  code-IsLegal top a k job at (nj, gk, mode, e, p) =
      let same : decode self a ≡ (0 + k, nj, gk, mode) =
        ap (decode self) e ∙ decode-encode self (0 + k) nj gk mode p.0 p.1 p.2 in
      subst (IsLegal self cluster top) (sym same)
        (job, subst (λ n. get_elem? top n ≡ some job) (omega arith) at, p)

  allowed-IsLegal :
      (top : List TraceJob) (a : ℕ)
      → mem_nat a (legal_jobs self cluster 0 top ++ no_op self ∷ []) ≡ true
      → (a ≡ no_op self) ⊎ IsLegal self cluster top (decode self a)
  allowed-IsLegal top a h = elim (Bool-cases (mem_nat a (legal_jobs self cluster 0 top))) [
    | inl e ↦
        let (k, job, at, codes) =
          All-mem_nat _ a (legal_jobs self cluster 0 top) e (legal_jobs-Codes self cluster 0 top) in
        inr (code-IsLegal top a k job at codes)
    | inr e ↦
        inl
          (ground (arith, h, e, mem_nat-append a (legal_jobs self cluster 0 top) (no_op self ∷ [])))
  ]

  IsLegal-allowed :
      (top : List TraceJob) (a : ℕ) (numbers : ℕ × ℕ × ℕ × ℕ)
      → decode self a ≡ numbers
      → IsLegal self cluster top numbers
      → mem_nat a (legal_jobs self cluster 0 top) ≡ true
  IsLegal-allowed top a (i, nj, gk, mode) e (job, at, p) =
      let code : encode self (0 + i) (nj * self.gpus_per_node + gk) mode ≡ a =
        ap (λ n. encode self n (nj * self.gpus_per_node + gk) mode) (omega arith)
        ∙ (ap
              (λ (numbers : ℕ × ℕ × ℕ × ℕ).
                encode self numbers.0 (numbers.1 * self.gpus_per_node + numbers.2) numbers.3)
              (sym e)
            ∙ encode-decode self a) in
      subst (λ n. mem_nat n (legal_jobs self cluster 0 top) ≡ true) code
        (legal_jobs-mem 0 i job nj gk mode top at p)

  -- The action mask allows an action, without the ablation, if and only if it is the no-op, or it is
  -- decoded to the index of one of the first pending jobs, and to a node and a GPU of the topology
  -- on which the cluster can place this job, and in the mode that keeps the job apart this GPU is idle.
  pub action_mask-IsLegal :
      (pending : List TraceJob) (a : ℕ)
      → (mem_nat a (action_mask self cluster pending) ≡ true)
        ↔ ((a ≡ no_op self) ⊎ IsLegal self cluster (top_k_jobs self pending) (decode self a))
  unfolding action_mask
  action_mask-IsLegal pending a =
      let top = top_k_jobs self pending in
      (
        allowed-IsLegal top a,
        λ either. elim either [
          | inl e ↦
              mem_nat-right a (legal_jobs self cluster 0 top) (no_op self ∷ []) (ground (arith, e))
          | inr legal ↦
              mem_nat-left a (legal_jobs self cluster 0 top) (no_op self ∷ [])
                (IsLegal-allowed top a (decode self a) refl legal)
        ],
      )
