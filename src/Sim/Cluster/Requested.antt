-- ===== src/Sim/Cluster/Requested.antt =====
-- sim/cluster.py: the plans of try_allocate_on list no node and no GPU twice.
use kelpflux.Base.{
  ℕ, ◌≡◌, refl, inl, inr, Bool, false, not, ◌||◌, ◌&&◌, Option, none, some, List, [], ◌∷◌, filter,
  range, leb, get_elem?, ◌==◌, Bool-cases, arith,
}
use kelpflux.Sim.Cluster.{Job, Node, Cluster, node_at, ram_fits, mem_nat}
use kelpflux.Sim.Cluster.Planner.{
  is_fraction, free_at, requested_first, ordered_on, fraction_at, plan_fraction_on, plan_on,
}
use kelpflux.Sim.Cluster.Undo.{IsSpread}
use kelpflux.Sim.Cluster.Spread.{range_from-IsSpread, free_at-IsSpread, fill-IsSpreadPlan}
use kelpflux.Sim.Cluster.Roundtrip.{IsSpreadResult, filled-IsSpreadResult}

mem_nat-filter :
    (test : ℕ → Bool) (k : ℕ) (xs : List ℕ)
    → mem_nat k xs ≡ false
    → mem_nat k (filter test xs) ≡ false
mem_nat-filter test k [] h = refl
mem_nat-filter test k (x ∷ xs) h = ground (arith, h, mem_nat-filter test k xs)

filter-IsSpread : (test : ℕ → Bool) (xs : List ℕ) → IsSpread xs → IsSpread (filter test xs)
filter-IsSpread test [] h = tt
filter-IsSpread test (x ∷ xs) h = elim (Bool-cases (test x)) [
  | inl e ↦ rw e (mem_nat-filter test x xs h.0, filter-IsSpread test xs h.1)
  | inr e ↦ rw e (filter-IsSpread test xs h.1)
]

filtered_out : (k : ℕ) (xs : List ℕ) → mem_nat k (filter (λ x. not (x == k)) xs) ≡ false
filtered_out k [] = refl
filtered_out k (x ∷ xs) = ground (arith, filtered_out k xs)

-- One element is moved to the front.
first-IsSpread : (k : ℕ) (xs : List ℕ) → IsSpread xs → IsSpread (k ∷ filter (λ x. not (x == k)) xs)
first-IsSpread k xs h = (filtered_out k xs, filter-IsSpread (λ x. not (x == k)) xs h)

module _ (self : Cluster) (job : Job) where
  requested_first-IsSpread :
      (gpu_i : ℕ) (free : List ℕ) → IsSpread free → IsSpread (requested_first self job gpu_i free)
  unfolding requested_first
  requested_first-IsSpread gpu_i free h = elim (Bool-cases (mem_nat gpu_i free)) [
    | inl e ↦ rw e (first-IsSpread gpu_i free h)
    | inr e ↦ rw e h
  ]

  ordered_on-IsSpread : (node_i gpu_i ni : ℕ) → IsSpread (ordered_on self job node_i gpu_i ni)
  unfolding ordered_on
  ordered_on-IsSpread node_i gpu_i ni = elim (Bool-cases (ni == node_i)) [
    | inl e ↦
        rw e (requested_first-IsSpread gpu_i (free_at self job ni) (free_at-IsSpread self job ni))
    | inr e ↦ rw e (free_at-IsSpread self job ni)
  ]

  fraction_at-IsSpreadResult :
      (node_i gpu_i : ℕ) (n : Node) (free : Option ℕ)
      → IsSpreadResult (fraction_at self job node_i gpu_i n free)
  unfolding fraction_at
  fraction_at-IsSpreadResult node_i gpu_i n none = tt
  fraction_at-IsSpreadResult node_i gpu_i n (some free) =
      elim (Bool-cases (leb job.mps_req free && ram_fits self job.ram_req n)) [
        | inl e ↦ rw e (((refl, tt), tt), (refl, tt))
        | inr e ↦ rw e tt
      ]

  plan_fraction_on-IsSpreadResult :
      (node_i gpu_i : ℕ) (n : Option Node)
      → IsSpreadResult (plan_fraction_on self job node_i gpu_i n)
  unfolding plan_fraction_on
  plan_fraction_on-IsSpreadResult node_i gpu_i none = tt
  plan_fraction_on-IsSpreadResult node_i gpu_i (some n) =
      fraction_at-IsSpreadResult node_i gpu_i n (get_elem? n.gpus gpu_i)

  pub plan_on-IsSpreadResult : (node_i gpu_i : ℕ) → IsSpreadResult (plan_on self job node_i gpu_i)
  unfolding plan_on
  plan_on-IsSpreadResult node_i gpu_i =
      elim (Bool-cases (leb self.n_nodes node_i || leb self.gpus_per_node gpu_i)) [
        | inl e ↦ rw e tt
        | inr e ↦ elim (Bool-cases (is_fraction self job)) [
          | inl whole ↦
              rw (e, whole) (plan_fraction_on-IsSpreadResult node_i gpu_i (node_at self node_i))
          | inr whole ↦
              rw (e, whole)
                (filled-IsSpreadResult self job _ (
                  fill-IsSpreadPlan self job (ordered_on self job node_i gpu_i)
                    (ordered_on-IsSpread node_i gpu_i) job.gpu_count
                    (node_i ∷ filter (λ n. not (n == node_i)) (range 0 self.n_nodes))
                    (first-IsSpread node_i (range 0 self.n_nodes) (range_from-IsSpread 0 _))))
        ]
      ]
