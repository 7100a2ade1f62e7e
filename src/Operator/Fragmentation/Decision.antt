-- ===== src/Operator/Fragmentation/Decision.antt =====
-- operator/fragmentation.py: what a decision is, and when one is made.
use kelpflux.Base.{
  ℕ, ◌≤◌, ◌≡◌, refl, inl, inr, true, Option, none, some, List, [], ◌∷◌, Text, text_eq, length, All,
  All-filter, All-map_impl, All-both, filter-All, sorted, sorted-All, Bool-cases, arith, max, subst,
}
use kelpflux.Operator.Models.{Time}
use kelpflux.Operator.Fragmentation.{
  JobView, NodeView, RequeueCandidate, FragmentationSnapshot, RequeueDecision,
  has_actionable_fragmentation,
}
use kelpflux.Operator.Fragmentation.Detector.{FragmentationDetector, snapshot, blocked_jobs}
use kelpflux.Operator.Fragmentation.Decider.{
  RequeueDecider, trim_history, rate_limited, DecideReason, victim_ids, on_node, frees_more,
  for_target, conclude, act_on, unblock_head, decide_limited, decide,
}
use kelpflux.Operator.Fragmentation.Victims.{IsFair, snapshot-IsFair}
use kelpflux.Operator.Fragmentation.Choice.{IsDistinct, IsNeeded, slots, IsChoice, choose-IsChoice}

-- The head of the blocked queue.
abbrev IsHead : FragmentationSnapshot → JobView → Type 0
IsHead snap target = (others : List JobView) × (snap.pending_blocked ≡ target ∷ others)

-- The victims of a decision for a target.
abbrev pub Explains {κ} :
    (RequeueCandidate → Type κ) → ℕ → JobView → RequeueDecision → List RequeueCandidate → Type κ
Explains P max_targets target d cs =
    (d.target_job_ids ≡ victim_ids cs)
    × (d.blocked_job_ids ≡ target.job_id ∷ [])
    × All
        (λ c.
          P c
          × (text_eq c.target.job_id target.job_id ≡ true)
          × (text_eq c.node_id d.chosen_node ≡ true))
        cs
    × IsDistinct (victim_ids cs)
    × (d.slots_freed ≡ slots cs)
    × IsNeeded target.mps_req cs
    × (length cs ≤ max 1 max_targets)

some-inj : {A : Type 0} (a b : A) → some a ≡ some b → a ≡ b
some-inj a b e = ground (arith, e)

module _ {κ} (P : RequeueCandidate → Type κ) (self : RequeueDecider) (snap : FragmentationSnapshot)
    (now : Time) (d : RequeueDecision) where
  abbrev IsExplained : JobView → Type κ
  IsExplained target =
      (cs : List RequeueCandidate) × Explains P self.max_targets_per_decision target d cs

  conclude-Explains :
      (target : JobView) (nid : Text) (chosen : List RequeueCandidate) (freed : ℕ)
      → IsChoice target.mps_req self.max_targets_per_decision
          (λ c.
            P c × (text_eq c.target.job_id target.job_id ≡ true) × (text_eq c.node_id nid ≡ true))
          chosen
          freed
      → (conclude self target nid snap now chosen freed).decision ≡ some d
      → IsExplained target
  unfolding conclude
  conclude-Explains target nid [] freed h e = ground (arith, e)
  conclude-Explains target nid (c ∷ cs) freed ((h, dist, f), inl k) e = ground (arith, k)
  conclude-Explains target nid (c ∷ cs) freed ((h, dist, f), inr (n, l)) e = (
    c ∷ cs,
    subst (λ d. Explains P self.max_targets_per_decision target d (c ∷ cs)) (some-inj _ d e)
        (refl, refl, h, dist, f, n, l),
  )

  act_on-Explains :
      (target : JobView) (per_target : List RequeueCandidate) (ids : List Text)
      → All (λ c. P c × (text_eq c.target.job_id target.job_id ≡ true)) per_target
      → (act_on self target snap now per_target ids).decision ≡ some d
      → IsExplained target
  unfolding act_on on_node
  act_on-Explains target per_target [] h e = ground (arith, e)
  act_on-Explains target per_target (nid ∷ ids) h e =
      conclude-Explains target nid _ _
        (choose-IsChoice target.mps_req self.max_targets_per_decision _ _ (
          All-map_impl _ _ _ (λ c k. (k.0.0, k.0.1, k.1))
            (All-both _ _ _
              (All-filter _ (λ c. text_eq c.node_id nid) _ (sorted-All frees_more _ per_target h))
              (filter-All (λ c. text_eq c.node_id nid) (sorted frees_more per_target)))))
        e

  unblock_head-Explains :
      (targets : List JobView)
      → snap.pending_blocked ≡ targets
      → All P snap.candidates
      → (unblock_head self snap now targets).decision ≡ some d
      → (target : JobView) × IsHead snap target × IsExplained target
  unfolding unblock_head for_target
  unblock_head-Explains [] same h e = ground (arith, e)
  unblock_head-Explains (target ∷ others) same h e = (
    target,
    (others, same),
    act_on-Explains target _ _
        (All-both _ _ _
          (All-filter _ (λ c. text_eq c.target.job_id target.job_id) snap.candidates h)
          (filter-All (λ c. text_eq c.target.job_id target.job_id) snap.candidates))
        e,
  )

decide_limited-Explains {κ} :
    (P : RequeueCandidate → Type κ) (self : RequeueDecider) (snap : FragmentationSnapshot)
    (now : Time) (d : RequeueDecision) (why : Option DecideReason)
    → All P snap.candidates
    → (decide_limited why self snap now).decision ≡ some d
    → (target : JobView) × IsHead snap target × IsExplained P self snap now d target
unfolding decide_limited
decide_limited-Explains P self snap now d none h e =
    unblock_head-Explains P self snap now d snap.pending_blocked refl h e
decide_limited-Explains P self snap now d (some why) h e = ground (arith, e)

-- A decision on a snapshot is for the head of its blocked queue. It requeues the distinct victims
-- of some of the snapshot's candidates for a job of that id, all on one node, at least one and at
-- most `max_targets_per_decision` (one where that is 0); where there are several, all but the last
-- free fewer slots than the target asks for. `P` is any property that the snapshot's candidates
-- have.
pub decide-Explains {κ} :
    (P : RequeueCandidate → Type κ) (self : RequeueDecider) (snap : FragmentationSnapshot)
    (now : Time) (d : RequeueDecision)
    → All P snap.candidates
    → (decide self snap now).decision ≡ some d
    → (target : JobView) × IsHead snap target
      × ((cs : List RequeueCandidate) × Explains P self.max_targets_per_decision target d cs)
unfolding decide rate_limited trim_history
decide-Explains P self snap now d h e = elim (Bool-cases (has_actionable_fragmentation snap)) [
  | inl k ↦ decide_limited-Explains P (trim_history now self) snap now d _ h (rw k at e)
  | inr k ↦ ground (arith, e, k)
]

-- A decision on the snapshot of some jobs and nodes is for the first of the blocked jobs. It
-- requeues the distinct victims of candidates for a job with that one's id, at least one and at
-- most `max_targets_per_decision` (one where that is 0), all on the chosen node. Of each candidate
-- the victim is a running job of the snapshot that names the node, and the target is a pending job
-- that fits on no node, with a priority above the victim's by more than the gap. Where there are
-- several victims, all but the last free fewer slots than the blocked job asks for.
pub decide-snapshot :
    (detector : FragmentationDetector) (jobs : List JobView) (nodes : List NodeView)
    (self : RequeueDecider) (taken now : Time) (d : RequeueDecision)
    → (decide self (snapshot detector jobs nodes taken) now).decision ≡ some d
    → (target : JobView) × ((others : List JobView) × (blocked_jobs jobs nodes ≡ target ∷ others))
      × ((cs : List RequeueCandidate) × Explains
            (IsFair detector jobs nodes)
            self.max_targets_per_decision
            target
            d
            cs)
unfolding snapshot
decide-snapshot detector jobs nodes self taken now d e =
    decide-Explains (IsFair detector jobs nodes) self (snapshot detector jobs nodes taken) now d
      (snapshot-IsFair detector jobs nodes taken) e
