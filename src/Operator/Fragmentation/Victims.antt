-- ===== src/Operator/Fragmentation/Victims.antt =====
-- operator/fragmentation.py: which jobs a decision requeues, and for which job.
use kelpflux.Base.{
  ◌+◌, ◌<◌, ◌≡◌, refl, sym, inl, inr, true, false, not, Option, none, some, List, [], ◌∷◌, Text,
  text_eq, text_eq_iff, text_eq_self, mem_text, filter, leb, All, All-append, All-filter,
  All-map_impl, All-both, All-map, All-Mem, Mem, filter-All, sorted-All, Bool-cases, arith, Dict,
  lookup, insert,
}
use kelpflux.Operator.Models.{Time}
use kelpflux.Operator.Fragmentation.{JobView, NodeView, RequeueCandidate}
use kelpflux.Operator.Fragmentation.Detector.{
  FragmentationDetector, is_state, pending_text, running_text, fits_anywhere, blocked_before,
  victim_before, pending_jobs, running_jobs, blocked_jobs, occupants, add_to_nodes, running_by_node,
  is_eligible, candidate, candidates_on, candidates_for, all_candidates, snapshot,
}

-- The node names with a job: each job stands under a node that it names, and has the property.
abbrev AllUnder {κ} : (JobView → Type κ) → Dict (List JobView) → Type κ
AllUnder P d = All (λ entry. All (λ j. (mem_text entry.0 j.nodes ≡ true) × P j) entry.1) d

module _ {κ} (P : JobView → Type κ) where
  AllUnder-lookup :
      (d : Dict (List JobView)) (nid : Text)
      → AllUnder P d
      → All (λ j. (mem_text nid j.nodes ≡ true) × P j) (occupants (lookup nid d))
  unfolding lookup
  AllUnder-lookup [] nid h = tt
  AllUnder-lookup ((k, js) ∷ d) nid h = elim (Bool-cases (text_eq k nid)) [
    | inl e ↦ rw (e, sym ((text_eq_iff k nid).0 e)) h.0
    | inr e ↦ rw e (AllUnder-lookup d nid h.1)
  ]

  AllUnder-insert :
      (d : Dict (List JobView)) (nid : Text) (js : List JobView)
      → All (λ j. (mem_text nid j.nodes ≡ true) × P j) js
      → AllUnder P d
      → AllUnder P (insert nid js d)
  unfolding insert
  AllUnder-insert [] nid js k h = (k, tt)
  AllUnder-insert ((i, is) ∷ d) nid js k h = elim (Bool-cases (text_eq i nid)) [
    | inl e ↦ rw e (k, h.1)
    | inr e ↦ rw e (h.0, AllUnder-insert d nid js k h.1)
  ]

  AllUnder-add :
      (r : JobView) (nids : List Text) (d : Dict (List JobView))
      → All (λ nid. mem_text nid r.nodes ≡ true) nids
      → P r
      → AllUnder P d
      → AllUnder P (add_to_nodes r nids d)
  unfolding add_to_nodes
  AllUnder-add r [] d k p h = h
  AllUnder-add r (nid ∷ nids) d k p h = AllUnder-add r nids _ k.1 p (
      AllUnder-insert d nid _
        (All-append _ (occupants (lookup nid d)) (r ∷ []) (AllUnder-lookup d nid h) ((k.0, p), tt))
        h)

-- Every name of a list is in it.
mem_text-All : (names : List Text) → All (λ nid. mem_text nid names ≡ true) names
unfolding mem_text
mem_text-All [] = tt
mem_text-All (x ∷ xs) = (
  ground (arith, text_eq_self x),
  All-map_impl _ _ xs (λ y h. rw h ground arith) (mem_text-All xs),
)

AllUnder-running {κ} :
    (P : JobView → Type κ) (rs : List JobView) (d : Dict (List JobView))
    → All P rs
    → AllUnder P d
    → AllUnder P (running_by_node d rs)
unfolding running_by_node
AllUnder-running P [] d h k = k
AllUnder-running P (r ∷ rs) d h k =
    AllUnder-running P rs (add_to_nodes r r.nodes d) h.1
      (AllUnder-add P r r.nodes d (mem_text-All r.nodes) h.0 k)

module _ (self : FragmentationDetector) (jobs : List JobView) (nodes : List NodeView) where
  abbrev IsRunningJob : JobView → Type 0
  IsRunningJob v = Mem v jobs × (is_state running_text v ≡ true)

  abbrev IsBlockedJob : JobView → Type 0
  IsBlockedJob t = Mem t jobs × (is_state pending_text t ≡ true) × (fits_anywhere t nodes ≡ false)

  -- A candidate's victim is a running job on the candidate's node, below the target by more than the
  -- gap; its target is a pending job that fits on no node.
  abbrev pub IsFair : RequeueCandidate → Type 0
  IsFair c =
      (mem_text c.node_id c.victim.nodes ≡ true)
      × IsRunningJob c.victim
      × (c.victim.priority + self.priority_gap < c.target.priority)
      × (c.slots_freed ≡ c.victim.mps_req)
      × IsBlockedJob c.target

  candidates_on-IsFair :
      (target : JobView) (nid : Text) (js : List JobView) (node : Option NodeView)
      → IsBlockedJob target
      → All (λ j. (mem_text nid j.nodes ≡ true) × IsRunningJob j) js
      → All IsFair (candidates_on self target nid js node)
  unfolding candidates_on candidate is_eligible
  candidates_on-IsFair target nid js none t h = tt
  candidates_on-IsFair target nid js (some node) t h =
      elim (Bool-cases (leb target.mps_req node.free_mps)) [
        | inl e ↦ rw e tt
        | inr e ↦ rw e (
            All-map IsFair (candidate self target nid) _ (
              sorted-All victim_before _ _ (
                All-map_impl _ _ _ (λ v k. (k.0.0, k.0.1, ground (arith, k.1), refl, t))
                  (All-both _ _ _ (All-filter _ (is_eligible self target) js h)
                    (filter-All _ js)))))
      ]

  candidates_for-IsFair :
      (target : JobView) (idx : Dict NodeView) (d : Dict (List JobView))
      → IsBlockedJob target
      → AllUnder IsRunningJob d
      → All IsFair (candidates_for self target idx d)
  unfolding candidates_for
  candidates_for-IsFair target idx [] t h = tt
  candidates_for-IsFair target idx ((nid, js) ∷ d) t h =
      All-append IsFair (candidates_on self target nid js (lookup nid idx)) _
        (candidates_on-IsFair target nid js _ t h.0) (candidates_for-IsFair target idx d t h.1)

  all_candidates-IsFair :
      (targets : List JobView) (idx : Dict NodeView) (d : Dict (List JobView))
      → All IsBlockedJob targets
      → AllUnder IsRunningJob d
      → All IsFair (all_candidates self targets idx d)
  unfolding all_candidates
  all_candidates-IsFair [] idx d t h = tt
  all_candidates-IsFair (target ∷ targets) idx d t h =
      All-append IsFair (candidates_for self target idx d) _
        (candidates_for-IsFair target idx d t.0 h) (all_candidates-IsFair targets idx d t.1 h)

  pub blocked_jobs-All : All IsBlockedJob (blocked_jobs jobs nodes)
  unfolding blocked_jobs pending_jobs
  blocked_jobs-All = sorted-All blocked_before _ _ (
      All-map_impl _ _ _ (λ j h. (h.0.0, h.0.1, ground (arith, h.1)))
        (All-both _ _ _
          (All-filter _ (λ j. not (fits_anywhere j nodes)) _
            (All-both _ _ _ (All-filter _ (is_state pending_text) jobs (All-Mem jobs))
              (filter-All (is_state pending_text) jobs)))
          (filter-All _ (filter (is_state pending_text) jobs))))

  -- Every candidate of a snapshot is fair, whatever jobs and nodes it is taken of.
  pub snapshot-IsFair : (now : Time) → All IsFair (snapshot self jobs nodes now).candidates
  unfolding snapshot running_jobs
  snapshot-IsFair now = all_candidates-IsFair _ _ _ blocked_jobs-All (
      AllUnder-running IsRunningJob _ []
        (All-both _ _ _ (All-filter _ (is_state running_text) jobs (All-Mem jobs))
          (filter-All (is_state running_text) jobs))
        tt)
