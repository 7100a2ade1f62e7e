-- ===== src/Sim/Cluster/Roundtrip.antt =====
-- sim/cluster.py: try_allocate and release, one after the other.
use kelpflux.Base.{
  ℕ, zero, suc, ◌≡◌, refl, Option, none, some, inl, inr, List, [], ◌∷◌, Text, sorted, range, lookup,
  All, All-map_impl, All-both, Bool-cases, arith,
}
use kelpflux.Sim.Cluster.{Job, Allocation, Node, Cluster, ram_fits, release}
use kelpflux.Sim.Cluster.Planner.{
  is_fraction, Best, best_gpu, take_best, plan_fraction, free_at, filled, most_free, plan,
  carry_out, try_allocate,
}
use kelpflux.Sim.Cluster.Plans.{IsPlaced}
use kelpflux.Sim.Cluster.Placing.{IsPlan, plan-IsPlan}
use kelpflux.Sim.Cluster.Undo.{IsSpread, IsHeld}
use kelpflux.Sim.Cluster.Release.{slots_of, commit-release}
use kelpflux.Sim.Cluster.Spread.{
  IsSpreadPlan, range_from-IsSpread, sorted-IsSpread, free_at-IsSpread, fill-IsSpreadPlan,
}

abbrev pub IsSpreadResult : Option (List Allocation) → Type 0
IsSpreadResult none = Unit
IsSpreadResult (some allocs) = IsSpreadPlan allocs

module _ (self : Cluster) (job : Job) where
  pub filled-IsSpreadResult :
      (r : List Allocation × ℕ) → IsSpreadPlan r.0 → IsSpreadResult (filled self job r)
  unfolding filled
  filled-IsSpreadResult (allocs, zero) h = h
  filled-IsSpreadResult (allocs, suc missing) h = tt

  take_best-IsSpreadResult :
      (ni : ℕ) (later : Option (List Allocation)) (best : Best)
      → IsSpreadResult later
      → IsSpreadResult (take_best self job ni later best)
  unfolding take_best
  take_best-IsSpreadResult ni later none h = h
  take_best-IsSpreadResult ni later (some (gi, residual)) h = (((refl, tt), tt), (refl, tt))

  plan_fraction-IsSpreadResult :
      (ni : ℕ) (nodes : List Node) → IsSpreadResult (plan_fraction self job ni nodes)
  unfolding plan_fraction
  plan_fraction-IsSpreadResult ni [] = tt
  plan_fraction-IsSpreadResult ni (n ∷ nodes) =
      let later = plan_fraction-IsSpreadResult (suc ni) nodes in
      elim (Bool-cases (ram_fits self job.ram_req n)) [
        | inl e ↦
            rw (plan_fraction, e)
              (take_best-IsSpreadResult ni _ (best_gpu job.mps_req none 0 n.gpus) later)
        | inr e ↦ rw (plan_fraction, e) later
      ]

  pub plan-IsSpreadResult : IsSpreadResult (plan self job)
  unfolding plan
  plan-IsSpreadResult = elim (Bool-cases (is_fraction self job)) [
    | inl e ↦ rw e (plan_fraction-IsSpreadResult 0 self.nodes)
    | inr e ↦ rw e (
        filled-IsSpreadResult _ (
          fill-IsSpreadPlan self job (free_at self job) (free_at-IsSpread self job) job.gpu_count
            (sorted (most_free self job) (range 0 self.n_nodes))
            (sorted-IsSpread (most_free self job) _ (range_from-IsSpread 0 _))))
  ]

  pub allocs-IsHeld :
      (allocs : List Allocation)
      → All (IsPlaced self job) allocs
      → All (λ a. IsSpread a.gpu_indices) allocs
      → All (IsHeld self.nodes) allocs
  allocs-IsHeld allocs placed spread =
      All-map_impl _ (IsHeld self.nodes) allocs
        (λ a ((n, e, fits, slots), once). (n, e, slots, once)) (All-both _ _ allocs placed spread)

  carry_out-release :
      (result : Option (List Allocation)) (allocs : List Allocation) (other : Text)
      → IsPlan self job result
      → IsSpreadResult result
      → (carry_out self job result).0 ≡ some allocs
      → lookup job.job_id self.active ≡ none
      → let after = release job.job_id (carry_out self job result).1 in
        (slots_of after.nodes ≡ slots_of self.nodes)
        × (lookup other after.active ≡ lookup other self.active)
  unfolding carry_out
  carry_out-release none allocs other placed spread e fresh = ground (arith, e)
  carry_out-release (some made) allocs other placed spread e fresh =
      commit-release job made self other spread.1 (allocs-IsHeld made placed.0 spread.0) fresh

  -- A job that is not active, and for which `try_allocate` finds room, gives its slots back when it is
  -- released: every GPU of every node has again the free slots that it had, and the active jobs, with
  -- their allocations, are those from before.
  pub try_allocate-release :
      (allocs : List Allocation) (other : Text)
      → (try_allocate self job).0 ≡ some allocs
      → lookup job.job_id self.active ≡ none
      → let after = release job.job_id (try_allocate self job).1 in
        (slots_of after.nodes ≡ slots_of self.nodes)
        × (lookup other after.active ≡ lookup other self.active)
  unfolding try_allocate
  try_allocate-release allocs other e fresh =
      carry_out-release (plan self job) allocs other (plan-IsPlan self job) plan-IsSpreadResult e
        fresh
