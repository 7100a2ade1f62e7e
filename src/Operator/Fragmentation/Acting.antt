-- ===== src/Operator/Fragmentation/Acting.antt =====
-- operator/fragmentation.py, RequeueDecider.decide: when it acts.
use kelpflux.Base.{
  ℕ, ◌≡◌, ◌≢◌, ◌↔◌, refl, sym, ◌∙◌, ap, ◌⊎◌, inl, inr, Bool, true, Option, none, some, List, [],
  ◌∷◌, Text, text_eq, text_eq_self, mem_text, filter, any, All, All-map_impl, sorted, sorted-All,
  sorted-any, Bool-cases, arith, subst,
}
use kelpflux.Operator.Models.{Time}
use kelpflux.Operator.Fragmentation.{
  JobView, RequeueCandidate, FragmentationSnapshot, RequeueDecision, nonempty,
  has_actionable_fragmentation,
}
use kelpflux.Operator.Fragmentation.Decider.{
  RequeueDecider, trim_history, limit_reason, rate_limited, DecideReason, unblock, Outcome, choose,
  on_node, node_set, more_freed_on, frees_more, for_target, conclude, act_on, unblock_head,
  decide_limited, decide,
}
use kelpflux.Operator.Fragmentation.Choice.{choose-nonempty}

-- Each node of the set has one of the candidates.
node_set-All :
    (seen : List Text) (cs : List RequeueCandidate)
    → All (λ nid. any (λ c. text_eq c.node_id nid) cs ≡ true) (node_set seen cs)
unfolding node_set
node_set-All seen [] = tt
node_set-All seen (c ∷ cs) = elim (Bool-cases (mem_text c.node_id seen)) [
  | inl e ↦ rw e (All-map_impl _ _ _ (λ nid h. ground (arith, h)) (node_set-All seen cs))
  | inr e ↦ rw e (
    ground (arith, text_eq_self c.node_id),
    All-map_impl _ _ _ (λ nid h. ground (arith, h)) (node_set-All (c.node_id ∷ seen) cs),
  )
]

any-filter :
    (test : RequeueCandidate → Bool) (cs : List RequeueCandidate)
    → any test cs ≡ true
    → filter test cs ≢ []
any-filter test [] h = ground (arith, h)
any-filter test (c ∷ cs) h = ground (arith, h, any-filter test cs)

on_node-nonempty :
    (nid : Text) (cs : List RequeueCandidate)
    → any (λ c. text_eq c.node_id nid) cs ≡ true
    → on_node nid (sorted frees_more cs) ≢ []
unfolding on_node
on_node-nonempty nid cs h =
    any-filter (λ c. text_eq c.node_id nid) _
      (sorted-any frees_more (λ c. text_eq c.node_id nid) cs ∙ h)

abbrev pub Acts : Outcome → Type 0
Acts o = (o.reason ≡ unblock) × ((d : RequeueDecision) × (o.decision ≡ some d))

module _ (self : RequeueDecider) (snap : FragmentationSnapshot) (now : Time) where
  conclude-Acts :
      (target : JobView) (nid : Text) (chosen : List RequeueCandidate) (freed : ℕ)
      → chosen ≢ []
      → Acts (conclude self target nid snap now chosen freed)
  unfolding conclude
  conclude-Acts target nid [] freed h = ground (arith, h)
  conclude-Acts target nid (c ∷ cs) freed h = (refl, (_, refl))

  choose-acts :
      (target : JobView) (nid : Text) (found : List RequeueCandidate)
      → found ≢ []
      → (choose target.mps_req self.max_targets_per_decision found [] 0).0 ≢ []
  choose-acts target nid [] h = ground (arith, h)
  choose-acts target nid (c ∷ cs) h = choose-nonempty _ _ c cs

  act_on-Acts :
      (target : JobView) (per_target : List RequeueCandidate) (ids : List Text)
      → All (λ nid. any (λ c. text_eq c.node_id nid) per_target ≡ true) ids
      → ids ≢ []
      → Acts (act_on self target snap now per_target ids)
  unfolding act_on
  act_on-Acts target per_target [] h some_ids = ground (arith, some_ids)
  act_on-Acts target per_target (nid ∷ ids) h some_ids =
      conclude-Acts target nid _ _ (choose-acts target nid _ (on_node-nonempty nid per_target h.0))

sorted-nonempty : (le : Text → Text → Bool) (x : Text) (xs : List Text) → sorted le (x ∷ xs) ≢ []
sorted-nonempty le x xs e =
    ground (arith, sorted-any le (λ y. true) (x ∷ xs), ap (any (λ y. true)) e)

module _ (self : RequeueDecider) (snap : FragmentationSnapshot) (now : Time)
    (target : JobView) where
  node_set-Acts :
      (per_target : List RequeueCandidate)
      → per_target ≢ []
      → Acts (
          act_on self target snap now per_target
            (sorted (more_freed_on per_target) (node_set [] per_target)))
  unfolding node_set mem_text
  node_set-Acts [] h = ground (arith, h)
  node_set-Acts (c ∷ cs) h =
      act_on-Acts self snap now target (c ∷ cs) _
        (sorted-All (more_freed_on (c ∷ cs)) _ _ (node_set-All [] (c ∷ cs)))
        (sorted-nonempty _ c.node_id _)

  node_set-declines :
      (per_target : List RequeueCandidate)
      → per_target ≡ []
      → ¬ Acts (
          act_on self target snap now per_target
            (sorted (more_freed_on per_target) (node_set [] per_target)))
  unfolding act_on node_set sorted
  node_set-declines [] h (r, (d, k)) = ground (arith, k)
  node_set-declines (c ∷ cs) h a = ground (arith, h)

for_target-candidates :
    (target : JobView) (cs : List RequeueCandidate) → for_target target cs ≢ [] → nonempty cs ≡ true
unfolding for_target
for_target-candidates target [] h = ground (arith, h)
for_target-candidates target (c ∷ cs) h = refl

List-cases : (cs : List RequeueCandidate) → (cs ≡ []) ⊎ (cs ≢ [])
List-cases [] = inl refl
List-cases (c ∷ cs) = inr (λ e. ground (arith, e))

module _ (self : RequeueDecider) (snap : FragmentationSnapshot) (now : Time) (target : JobView)
    (others : List JobView) (head : snap.pending_blocked ≡ target ∷ others) where
  head_acts :
      decide_limited none self snap now
      ≡ act_on self target snap now (for_target target snap.candidates) (
          sorted
            (more_freed_on (for_target target snap.candidates))
            (node_set [] (for_target target snap.candidates)))
  unfolding decide_limited unblock_head
  head_acts = ap (λ targets. unblock_head self snap now targets) head

  limited-Acts :
      (why : Option DecideReason)
      → Acts (decide_limited why self snap now)
      → (why ≡ none) × (for_target target snap.candidates ≢ [])
  unfolding decide_limited
  limited-Acts (some why) (r, (d, k)) = ground (arith, k)
  limited-Acts none h =
      (refl, λ e. node_set-declines self snap now target _ e (subst Acts head_acts h))

  free-Acts : for_target target snap.candidates ≢ [] → Acts (decide_limited none self snap now)
  free-Acts h = subst Acts (sym head_acts) (node_set-Acts self snap now target _ h)

  has_actionable-head :
      for_target target snap.candidates ≢ [] → has_actionable_fragmentation snap ≡ true
  unfolding has_actionable_fragmentation
  has_actionable-head h =
      ground (arith, ap nonempty head, for_target-candidates target snap.candidates h)

-- With a blocked job at the head of the queue, a decision is made, with the reason that it unblocks
-- a job, exactly when no rate limit holds after the history is trimmed and the snapshot has a
-- candidate for a job of the head's id.
pub decide-Acts_iff :
    (self : RequeueDecider) (snap : FragmentationSnapshot) (now : Time) (target : JobView)
    (others : List JobView)
    → snap.pending_blocked ≡ target ∷ others
    → Acts (decide self snap now) ↔ (
        (limit_reason now (trim_history now self) ≡ none)
        × (for_target target snap.candidates ≢ []))
unfolding decide rate_limited
decide-Acts_iff self snap now target others h = (forth, back)
  where
    trimmed : RequeueDecider
    trimmed = trim_history now self

    forth :
        Acts (decide self snap now)
        → (limit_reason now trimmed ≡ none) × (for_target target snap.candidates ≢ [])
    forth a = elim (Bool-cases (has_actionable_fragmentation snap)) [
      | inl e ↦ limited-Acts trimmed snap now target others h _ (rw e at a)
      | inr e ↦ ground (arith, rw e at a)
    ]

    back :
        (limit_reason now trimmed ≡ none) × (for_target target snap.candidates ≢ [])
        → Acts (decide self snap now)
    back (free, found) =
        rw (has_actionable-head trimmed snap now target others h found, free)
          (free-Acts trimmed snap now target others h found)
