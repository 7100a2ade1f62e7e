-- ===== src/Sim/Env/Masks.antt =====
-- sim/gym_env.py, action_mask: that each action it allows is the code of a possible placement.
use kelpflux.Base.{
  ℕ, zero, suc, ◌+◌, ◌*◌, ◌≤◌, ◌<◌, ◌≡◌, refl, ap, subst, inl, inr, true, false, not, ◌&&◌, ◌||◌,
  some, List, [], ◌∷◌, ◌++◌, get_elem?, range, range_from, All, All-append, All-map_impl,
  Bool-cases, ◌==◌, ==_iff, arith,
}
use kelpflux.Sim.Cluster.{Job, Cluster, mem_nat}
use kelpflux.Sim.Latency.{TraceJob}
use kelpflux.Sim.Env.{
  Shape, n_modes, encode, can_allocate_on, gpu_idle, legal_modes, legal_gpus, legal_nodes,
  legal_jobs,
}

range-All : (lo n : ℕ) → All (λ k. k < lo + n) (range_from lo n)
range-All lo zero = tt
range-All lo (suc n) = (
  omega arith,
  All-map_impl _ (λ k. k < lo + suc n) _ (λ k h. omega (arith, h)) (range-All (suc lo) n),
)

-- The numbers of a range lie below its end.
below : (n : ℕ) → All (λ k. k < n) (range 0 n)
below n =
    subst (λ m. All (λ k. k < n) (range_from 0 m)) (omega arith)
      (All-map_impl _ (λ k. k < n) _ (λ k h. omega (arith, h)) (range-All 0 n))

mem_nat-range : (k lo n : ℕ) → lo ≤ k → k < lo + n → mem_nat k (range_from lo n) ≡ true
mem_nat-range k lo zero h e = absurd (omega (arith, h, e))
mem_nat-range k lo (suc n) h e = elim (Bool-cases (k == lo)) [
  | inl same ↦ rw same refl
  | inr other ↦ rw other (mem_nat-range k (suc lo) n (ground (arith, h, other)) (omega (arith, e)))
]

pub in_range : (k n : ℕ) → k < n → mem_nat k (range 0 n) ≡ true
in_range k n h =
    subst (λ m. mem_nat k (range_from 0 m) ≡ true) (omega arith)
      (mem_nat-range k 0 n (omega arith) (omega (arith, h)))

pub mem_nat-append :
    (k : ℕ) (xs ys : List ℕ) → mem_nat k (xs ++ ys) ≡ (mem_nat k xs || mem_nat k ys)
mem_nat-append k [] ys = refl
mem_nat-append k (x ∷ xs) ys = ground (arith, mem_nat-append k xs ys)

pub mem_nat-left : (k : ℕ) (xs ys : List ℕ) → mem_nat k xs ≡ true → mem_nat k (xs ++ ys) ≡ true
mem_nat-left k xs ys h = ground (arith, h, mem_nat-append k xs ys)

pub mem_nat-right : (k : ℕ) (xs ys : List ℕ) → mem_nat k ys ≡ true → mem_nat k (xs ++ ys) ≡ true
mem_nat-right k xs ys h = ground (arith, h, mem_nat-append k xs ys)

module _ (self : Shape) (cluster : Cluster) where
  -- The job can be placed there; apart, only where nothing else runs.
  abbrev pub IsPossible : Job → ℕ → ℕ → ℕ → Type 0
  IsPossible job nj gk mode =
      (nj < self.n_nodes)
      × (gk < self.gpus_per_node)
      × (mode < n_modes self)
      × (can_allocate_on cluster job nj gk ≡ true)
      × (mode ≡ 1 → gpu_idle cluster nj gk ≡ true)

  -- An action that the mask allows, as the numbers that it is decoded to.
  abbrev pub IsLegal : List TraceJob → ℕ × ℕ × ℕ × ℕ → Type 0
  IsLegal top (i, nj, gk, mode) =
      (job : TraceJob) × (get_elem? top i ≡ some job) × IsPossible job.job nj gk mode

  abbrev pub Codes : ℕ → Job → ℕ → Type 0
  Codes i job a =
      (nj : ℕ) × (gk : ℕ) × (mode : ℕ) × (a ≡ encode self i (nj * self.gpus_per_node + gk) mode)
      × IsPossible job nj gk mode

  module _ (i : ℕ) (job : Job) (nj gk : ℕ) (n : nj < self.n_nodes) (g : gk < self.gpus_per_node)
      (can : can_allocate_on cluster job nj gk ≡ true) where
    legal_modes-Codes :
        (modes : List ℕ)
        → All (λ m. m < n_modes self) modes
        → All (Codes i job) (
            legal_modes self cluster i
              (nj * self.gpus_per_node + gk)
              (gpu_idle cluster nj gk)
              modes)
    unfolding legal_modes
    legal_modes-Codes [] h = tt
    legal_modes-Codes (mode ∷ modes) h =
        let rest = legal_modes-Codes modes h.1 in
        elim (Bool-cases (mode == 1 && not (gpu_idle cluster nj gk))) [
          | inl e ↦ rw e rest
          | inr e ↦
              rw e ((nj, gk, mode, refl, (n, g, h.0, can, λ apart. ground (arith, apart, e))), rest)
        ]

    pub legal_modes-mem :
        (mode : ℕ) (modes : List ℕ)
        → (mode ≡ 1 → gpu_idle cluster nj gk ≡ true)
        → mem_nat mode modes ≡ true
        → mem_nat (encode self i (nj * self.gpus_per_node + gk) mode) (
            legal_modes self cluster i
              (nj * self.gpus_per_node + gk)
              (gpu_idle cluster nj gk)
              modes)
          ≡ true
    unfolding legal_modes
    legal_modes-mem mode (m ∷ modes) idle h = elim (Bool-cases (mode == m)) [
      | inl same ↦
          let is_m : mode ≡ m = (==_iff mode m).0 same in
          let allowed : (m == 1 && not (gpu_idle cluster nj gk)) ≡ false =
            subst (λ x. (x == 1 && not (gpu_idle cluster nj gk)) ≡ false) is_m
              (ground (arith, idle)) in
          rw allowed (ground (arith, ap (encode self i (nj * self.gpus_per_node + gk)) is_m))
      | inr other ↦
          let later = legal_modes-mem mode modes idle (rw other at h) in ground (arith, later)
    ]
    legal_modes-mem mode [] idle h = absurd (cc)

  legal_gpus-Codes :
      (i : ℕ) (job : Job) (nj : ℕ) (gks : List ℕ)
      → nj < self.n_nodes
      → All (λ k. k < self.gpus_per_node) gks
      → All (Codes i job) (legal_gpus self cluster i job nj gks)
  unfolding legal_gpus
  legal_gpus-Codes i job nj [] n h = tt
  legal_gpus-Codes i job nj (gk ∷ gks) n h =
      let rest = legal_gpus-Codes i job nj gks n h.1 in
      elim (Bool-cases (can_allocate_on cluster job nj gk)) [
        | inl e ↦ rw e (
            All-append (Codes i job) _ _
              (legal_modes-Codes i job nj gk n h.0 e _ (below (n_modes self))) rest)
        | inr e ↦ rw e rest
      ]

  legal_nodes-Codes :
      (i : ℕ) (job : Job) (njs : List ℕ)
      → All (λ k. k < self.n_nodes) njs
      → All (Codes i job) (legal_nodes self cluster i job njs)
  unfolding legal_nodes
  legal_nodes-Codes i job [] h = tt
  legal_nodes-Codes i job (nj ∷ njs) h =
      All-append (Codes i job) _ _ (legal_gpus-Codes i job nj _ h.0 (below self.gpus_per_node))
        (legal_nodes-Codes i job njs h.1)

  -- Each action of the list is the code of a possible placement of the job at some index.
  pub legal_jobs-Codes :
      (i : ℕ) (jobs : List TraceJob)
      → All
          (λ a.
            (k : ℕ) × (job : TraceJob) × (get_elem? jobs k ≡ some job) × Codes (i + k) job.job a)
          (legal_jobs self cluster i jobs)
  unfolding legal_jobs
  legal_jobs-Codes i [] = tt
  legal_jobs-Codes i (job ∷ jobs) =
      All-append _ _ _
        (All-map_impl _ _ _
          (λ a codes. (0, job, refl, subst (λ n. Codes n job.job a) (omega arith) codes))
          (legal_nodes-Codes i job.job _ (below self.n_nodes)))
        (All-map_impl _ _ _
          (λ a (k, other, at, codes).
            (suc k, other, at, subst (λ n. Codes n other.job a) (omega arith) codes))
          (legal_jobs-Codes (suc i) jobs))
