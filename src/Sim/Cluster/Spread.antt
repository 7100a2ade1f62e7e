-- ===== src/Sim/Cluster/Spread.antt =====
-- sim/cluster.py: the plans of try_allocate list no node and no GPU twice, so release undoes them.
use kelpflux.Base.{
  ℕ, zero, suc, ◌-◌, ◌≤◌, ◌<◌, ◌≡◌, refl, ◌∙◌, inl, inr, Bool, false, ◌||◌, Option, none, some,
  List, [], ◌∷◌, length, take, min, range_from, sorted, insert_sorted, All, All-map_impl, ◌==◌,
  Bool-cases, arith,
}
use kelpflux.Sim.Cluster.{
  Job, Allocation, Node, Cluster, node_at, whole_from, free_whole_gpus, ram_ok, mem_nat,
}
use kelpflux.Sim.Cluster.Planner.{free_on, free_at, fill}
use kelpflux.Sim.Cluster.Undo.{IsSpread, host_ids}

not_among : (i : ℕ) (ks : List ℕ) → All (λ k. i < k) ks → mem_nat i ks ≡ false
not_among i [] h = refl
not_among i (k ∷ ks) h = ground (arith, h.0, not_among i ks h.1)

whole_from_above : (mps i : ℕ) (gpus : List ℕ) → All (λ k. i ≤ k) (whole_from mps i gpus)
unfolding whole_from
whole_from_above mps i [] = tt
whole_from_above mps i (free ∷ gpus) =
    let later =
      All-map_impl _ (λ k. i ≤ k) _ (λ k h. omega (arith, h)) (whole_from_above mps (suc i) gpus) in
    elim (Bool-cases (free == mps)) [ inl e ↦ rw e (omega arith, later) | inr e ↦ rw e later ]

whole_from-IsSpread : (mps i : ℕ) (gpus : List ℕ) → IsSpread (whole_from mps i gpus)
unfolding whole_from
whole_from-IsSpread mps i [] = tt
whole_from-IsSpread mps i (free ∷ gpus) = elim (Bool-cases (free == mps)) [
  | inl e ↦ rw e (
    not_among i _ (
        All-map_impl _ (λ k. i < k) _ (λ k h. omega (arith, h))
          (whole_from_above mps (suc i) gpus)),
    whole_from-IsSpread mps (suc i) gpus,
  )
  | inr e ↦ rw e (whole_from-IsSpread mps (suc i) gpus)
]

mem_nat-take : (k n : ℕ) (xs : List ℕ) → mem_nat k xs ≡ false → mem_nat k (take n xs) ≡ false
mem_nat-take k zero xs h = refl
mem_nat-take k (suc n) [] h = refl
mem_nat-take k (suc n) (x ∷ xs) h = ground (arith, h, mem_nat-take k n xs)

IsSpread-take : (n : ℕ) (xs : List ℕ) → IsSpread xs → IsSpread (take n xs)
IsSpread-take zero xs h = tt
IsSpread-take (suc n) [] h = tt
IsSpread-take (suc n) (x ∷ xs) h = (mem_nat-take x n xs h.0, IsSpread-take n xs h.1)

range_from_above : (lo n : ℕ) → All (λ k. lo ≤ k) (range_from lo n)
range_from_above lo zero = tt
range_from_above lo (suc n) = (
  omega arith,
  All-map_impl _ (λ k. lo ≤ k) _ (λ k h. omega (arith, h)) (range_from_above (suc lo) n),
)

pub range_from-IsSpread : (lo n : ℕ) → IsSpread (range_from lo n)
range_from-IsSpread lo zero = tt
range_from-IsSpread lo (suc n) = (
  not_among lo _
      (All-map_impl _ (λ k. lo < k) _ (λ k h. omega (arith, h)) (range_from_above (suc lo) n)),
  range_from-IsSpread (suc lo) n,
)

module _ (le : ℕ → ℕ → Bool) where
  mem_nat-insert_sorted :
      (k x : ℕ) (ys : List ℕ) → mem_nat k (insert_sorted le x ys) ≡ (k == x || mem_nat k ys)
  unfolding insert_sorted
  mem_nat-insert_sorted k x [] = refl
  mem_nat-insert_sorted k x (y ∷ ys) = ground (arith, mem_nat-insert_sorted k x ys)

  insert_sorted-IsSpread :
      (x : ℕ) (ys : List ℕ) → mem_nat x ys ≡ false → IsSpread ys → IsSpread (insert_sorted le x ys)
  unfolding insert_sorted
  insert_sorted-IsSpread x [] h spread = (refl, tt)
  insert_sorted-IsSpread x (y ∷ ys) h spread = elim (Bool-cases (le x y)) [
    | inl e ↦ rw e (h, spread)
    | inr e ↦ rw e (
      ground (arith, mem_nat-insert_sorted y x ys, spread.0, h),
      insert_sorted-IsSpread x ys (ground (arith, h)) spread.1,
    )
  ]

  mem_nat-sorted : (k : ℕ) (xs : List ℕ) → mem_nat k (sorted le xs) ≡ mem_nat k xs
  unfolding sorted
  mem_nat-sorted k [] = refl
  mem_nat-sorted k (x ∷ xs) =
      ground (arith, mem_nat-insert_sorted k x (sorted le xs), mem_nat-sorted k xs)

  pub sorted-IsSpread : (xs : List ℕ) → IsSpread xs → IsSpread (sorted le xs)
  unfolding sorted
  sorted-IsSpread [] h = tt
  sorted-IsSpread (x ∷ xs) h =
      insert_sorted-IsSpread x (sorted le xs) (mem_nat-sorted x xs ∙ h.0) (sorted-IsSpread xs h.1)

-- No node and, on each node, no GPU is listed twice.
abbrev pub IsSpreadPlan : List Allocation → Type 0
IsSpreadPlan allocs = All (λ a. IsSpread a.gpu_indices) allocs × IsSpread (host_ids allocs)

module _ (self : Cluster) (job : Job) where
  pub free_at-IsSpread : (ni : ℕ) → IsSpread (free_at self job ni)
  unfolding free_at free_on free_whole_gpus
  free_at-IsSpread ni = of (node_at self ni)
    where
      of : (o : Option Node) → IsSpread (free_on self job o)
      of none = tt
      of (some n) = whole_from-IsSpread self.mps_per_gpu 0 n.gpus

  module _ (gpus_on : ℕ → List ℕ) where
    mem_nat-fill :
        (k needed : ℕ) (nis : List ℕ)
        → mem_nat k nis ≡ false
        → mem_nat k (host_ids (fill self job gpus_on needed nis).0) ≡ false
    unfolding fill
    mem_nat-fill k zero nis h = refl
    mem_nat-fill k (suc needed) [] h = refl
    mem_nat-fill k (suc needed) (ni ∷ nis) h =
        let later = mem_nat-fill k (suc needed) nis (ground (arith, h)) in
        elim (Bool-cases (ram_ok self ni job.ram_req)) [
          | inr e ↦ rw e later
          | inl e ↦ elim (Bool-cases (length (gpus_on ni) == 0)) [
            | inl empty ↦ rw (e, empty) later
            | inr some_gpus ↦
                rw (e, some_gpus)
                  (ground (
                    arith,
                    h,
                    mem_nat-fill k (suc needed - min (suc needed) (length (gpus_on ni))) nis,
                  ))
          ]
        ]

    pub fill-IsSpreadPlan :
        ((ni : ℕ) → IsSpread (gpus_on ni))
        → (needed : ℕ) (nis : List ℕ) → IsSpread nis
        → IsSpreadPlan (fill self job gpus_on needed nis).0
    unfolding fill
    fill-IsSpreadPlan h zero nis spread = (tt, tt)
    fill-IsSpreadPlan h (suc needed) [] spread = (tt, tt)
    fill-IsSpreadPlan h (suc needed) (ni ∷ nis) spread =
        let less = suc needed - min (suc needed) (length (gpus_on ni)) in
        let later = fill-IsSpreadPlan h (suc needed) nis spread.1 in
        let others = fill-IsSpreadPlan h less nis spread.1 in
        elim (Bool-cases (ram_ok self ni job.ram_req)) [
          | inr e ↦ rw e later
          | inl e ↦ elim (Bool-cases (length (gpus_on ni) == 0)) [
            | inl empty ↦ rw (e, empty) later
            | inr some_gpus ↦
                rw (e, some_gpus)
                  (
                    (IsSpread-take _ (gpus_on ni) (h ni), others.0),
                    (mem_nat-fill ni less nis spread.0, others.1),
                  )
          ]
        ]
