-- ===== src/Sim/Cluster/Plans.antt =====
-- sim/cluster.py, the planners: that a plan can be carried out, and gives the job what it asks for.
use kelpflux.Base.{
  All-take, ℕ, zero, suc, ◌+◌, ◌-◌, ◌≤◌, ◌≡◌, refl, sym, ap, ◌∙◌, inl, inr, true, Option, none,
  some, List, [], ◌∷◌, get_elem?, length, take, sum_by, All, All-map_impl, ◌==◌, ==_iff, min,
  Bool-cases, arith,
}
use kelpflux.Sim.Cluster.{
  Job, Allocation, Node, Cluster, whole_from, free_whole_gpus, node_at, ram_fits, ram_fits_on,
  ram_ok,
}
use kelpflux.Sim.Cluster.Planner.{free_on, free_at, whole_gpus, fill}

abbrev pub HasSlots : ℕ → List ℕ → ℕ → Type 0
HasSlots mps gpus gi = (free : ℕ) × (get_elem? gpus gi ≡ some free) × (mps ≤ free)

-- The allocation's node exists and has memory for the job, and each GPU listed has the slots free.
abbrev pub IsPlaced : Cluster → Job → Allocation → Type 0
IsPlaced self job a =
    (n : Node) × (node_at self a.node_id ≡ some n)
    × (ram_fits self job.ram_req n ≡ true)
    × All (HasSlots a.mps_per_gpu n.gpus) a.gpu_indices

-- The GPUs of a plan, counted.
abbrev pub gpus_of : List Allocation → ℕ
gpus_of allocs = sum_by (λ a. length a.gpu_indices) allocs

shift :
    (gpus : List ℕ) (mps free i k : ℕ)
    → ((j : ℕ) × (k ≡ suc i + j) × (get_elem? gpus j ≡ some mps))
    → (j : ℕ) × (k ≡ i + j) × (get_elem? (free ∷ gpus) j ≡ some mps)
shift gpus mps free i k (j, e, h) = (suc j, omega (arith, e), h)

whole_from-All :
    (mps i : ℕ) (gpus : List ℕ)
    → All (λ k. (j : ℕ) × (k ≡ i + j) × (get_elem? gpus j ≡ some mps)) (whole_from mps i gpus)
unfolding whole_from
whole_from-All mps i [] = tt
whole_from-All mps i (free ∷ gpus) = elim (Bool-cases (free == mps)) [
  | inl e ↦ rw e (
    (0, omega arith, ap some ((==_iff free mps).0 e)),
    All-map_impl _ _ _ (shift gpus mps free i) (whole_from-All mps (suc i) gpus),
  )
  | inr e ↦ rw e (All-map_impl _ _ _ (shift gpus mps free i) (whole_from-All mps (suc i) gpus))
]

length-take : (n : ℕ) (xs : List ℕ) → length (take n xs) ≡ min n (length xs)
length-take zero xs = omega arith
length-take (suc n) [] = omega arith
length-take (suc n) (x ∷ xs) = omega (arith, length-take n xs)

same_node : (n m : Node) → some n ≡ some m → n ≡ m
same_node n m e = ground (arith, e)

zero_plus : (gi j : ℕ) → gi ≡ 0 + j → gi ≡ j
zero_plus gi j e = omega (arith, e)

module _ (self : Cluster) (job : Job) where
  abbrev pub IsWhole : ℕ → ℕ → Type 0
  IsWhole ni gi =
      (n : Node) → node_at self ni ≡ some n → get_elem? n.gpus gi ≡ some self.mps_per_gpu

  free_on-All :
      (ni : ℕ) (o : Option Node) → node_at self ni ≡ o → All (IsWhole ni) (free_on self job o)
  unfolding free_on free_whole_gpus
  free_on-All ni none e = tt
  free_on-All ni (some n) e =
      All-map_impl _ (IsWhole ni) (whole_from self.mps_per_gpu 0 n.gpus)
        (λ gi (j, same, whole) m e'. cc (same_node n m (sym e ∙ e'), zero_plus gi j same))
        (whole_from-All self.mps_per_gpu 0 n.gpus)

  pub free_at-All : (ni : ℕ) → All (IsWhole ni) (free_at self job ni)
  unfolding free_at
  free_at-All ni = free_on-All ni (node_at self ni) refl

  ram_fits_on_node :
      (ni : ℕ) (o : Option Node)
      → node_at self ni ≡ o
      → ram_fits_on self job.ram_req o ≡ true
      → (n : Node) × (node_at self ni ≡ some n) × (ram_fits self job.ram_req n ≡ true)
  unfolding ram_fits_on
  ram_fits_on_node ni none e h = ground (arith, h)
  ram_fits_on_node ni (some n) e h = (n, e, h)

  ram_ok_node :
      (ni : ℕ)
      → ram_ok self ni job.ram_req ≡ true
      → (n : Node) × (node_at self ni ≡ some n) × (ram_fits self job.ram_req n ≡ true)
  unfolding ram_ok
  ram_ok_node ni h = ram_fits_on_node ni (node_at self ni) refl h

  whole_gpus-IsPlaced :
      (needed ni : ℕ) (ordered : List ℕ)
      → All (IsWhole ni) ordered
      → ram_ok self ni job.ram_req ≡ true
      → IsPlaced self job (whole_gpus self job needed ni ordered)
  whole_gpus-IsPlaced needed ni ordered h ok =
      let (n, e, fits) = ram_ok_node ni ok in
      (
        n,
        e,
        fits,
        All-map_impl _ _ _ (λ gi k. (self.mps_per_gpu, k n e, omega arith))
            (All-take (IsWhole ni) (min needed (length ordered)) ordered h),
      )

  module _ (gpus_on : ℕ → List ℕ) where
    pub fill-IsPlaced :
        ((ni : ℕ) → All (IsWhole ni) (gpus_on ni))
        → (needed : ℕ) (nis : List ℕ) → All (IsPlaced self job) (fill self job gpus_on needed nis).0
    unfolding fill
    fill-IsPlaced h zero nis = tt
    fill-IsPlaced h (suc needed) [] = tt
    fill-IsPlaced h (suc needed) (ni ∷ nis) = elim (Bool-cases (ram_ok self ni job.ram_req)) [
      | inr e ↦ rw e (fill-IsPlaced h (suc needed) nis)
      | inl e ↦ elim (Bool-cases (length (gpus_on ni) == 0)) [
        | inl empty ↦ rw (e, empty) (fill-IsPlaced h (suc needed) nis)
        | inr some_gpus ↦
            rw (e, some_gpus)
              (
                whole_gpus-IsPlaced (suc needed) ni (gpus_on ni) (h ni) e,
                fill-IsPlaced h (suc needed - min (suc needed) (length (gpus_on ni))) nis,
              )
      ]
    ]

    pub fill_count :
        (needed : ℕ) (nis : List ℕ)
        → gpus_of (fill self job gpus_on needed nis).0 + (fill self job gpus_on needed nis).1
          ≡ needed
    unfolding fill
    fill_count zero nis = omega arith
    fill_count (suc needed) [] = omega arith
    fill_count (suc needed) (ni ∷ nis) =
        let size = length (gpus_on ni) in
        elim (Bool-cases (ram_ok self ni job.ram_req)) [
          | inr e ↦ rw e (fill_count (suc needed) nis)
          | inl e ↦ elim (Bool-cases (length (gpus_on ni) == 0)) [
            | inl empty ↦ rw (e, empty) (fill_count (suc needed) nis)
            | inr some_gpus ↦
                rw (e, some_gpus)
                  (omega (
                    arith,
                    fill_count (suc needed - min (suc needed) size) nis,
                    length-take (min (suc needed) size) (gpus_on ni),
                  ))
          ]
        ]
