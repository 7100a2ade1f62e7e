-- ===== src/Operator/Fragmentation/Decider.antt =====
-- operator/fragmentation.py, class RequeueDecider: whether to act on a snapshot, with rate limits.
-- The history is held with the latest decision first; the source appends at the end.
use kelpflux.Base.{
  ℕ, ◌+◌, Bool, true, false, ◌&&◌, ◌||◌, Option, none, some, List, [], ◌∷◌, ◌++◌, map, Text,
  text_eq, mem_text, filter, length, sum_by, sorted, ltb, leb, ◌==◌, if◌then◌else◌,
}
use kelpflux.Operator.Models.{Time, seconds}
use kelpflux.Operator.Fragmentation.{
  JobView, RequeueCandidate, FragmentationSnapshot, has_actionable_fragmentation, RequeueDecision,
}

pub record RequeueDecider : Type 0 where
  pub min_interval_seconds : Time
  pub max_requeues_per_hour : ℕ
  pub max_targets_per_decision : ℕ
  pub history : List Time

pub data DecideReason : Type 0 where
  no_fragmentation min_interval hourly_cap no_candidates_for_head : DecideReason
  no_victims_after_priority_gap unblock : DecideReason

-- t >= now - 3600
unfoldable pub is_recent : Time → Time → Bool
is_recent now t = leb now (t + seconds 3600)

unfoldable pub trim_history : Time → RequeueDecider → RequeueDecider
trim_history now self = record self { history = filter (is_recent now) self.history }

-- now - history[-1] < min_interval_seconds
unfoldable pub too_soon : Time → Time → List Time → Bool
too_soon now interval [] = false
too_soon now interval (latest ∷ rest) = ltb now (latest + interval)

unfoldable pub limit_reason : Time → RequeueDecider → Option DecideReason
unfolding too_soon
limit_reason now self =
    if too_soon now self.min_interval_seconds self.history
    then some min_interval
    else if leb self.max_requeues_per_hour (length self.history)
    then some hourly_cap
    else none

-- The method trims the history, and answers from what is left.
unfoldable pub rate_limited : Time → RequeueDecider → Option DecideReason × RequeueDecider
unfolding limit_reason trim_history
rate_limited now self = let trimmed = trim_history now self in (limit_reason now trimmed, trimmed)

-- key=lambda c: (-c.slots_freed, c.victim.priority)
unfoldable pub frees_more : RequeueCandidate → RequeueCandidate → Bool
frees_more a b =
    ltb b.slots_freed a.slots_freed
    || (a.slots_freed == b.slots_freed && leb a.victim.priority b.victim.priority)

-- The set of the candidates' nodes; the source iterates it in no particular order, here in that of
-- the first occurrences.
unfoldable pub node_set : List Text → List RequeueCandidate → List Text
node_set seen [] = []
node_set seen (c ∷ cs) =
    if mem_text c.node_id seen then node_set seen cs else c.node_id ∷ node_set (c.node_id ∷ seen) cs

unfoldable pub on_node : Text → List RequeueCandidate → List RequeueCandidate
on_node nid cs = filter (λ c. text_eq c.node_id nid) cs

unfoldable pub freed_on : List RequeueCandidate → Text → ℕ
unfolding on_node
freed_on cs nid = sum_by (λ c. c.slots_freed) (on_node nid cs)

unfoldable pub more_freed_on : List RequeueCandidate → Text → Text → Bool
more_freed_on cs a b = leb (freed_on cs b) (freed_on cs a)

abbrev pub victim_ids : List RequeueCandidate → List Text
victim_ids cs = map (λ c. c.victim.job_id) cs

-- The loop over the node's candidates: the chosen ones and the slots that they free.
unfoldable pub choose :
    ℕ → ℕ → List RequeueCandidate → List RequeueCandidate → ℕ → List RequeueCandidate × ℕ
choose needed max_targets [] chosen freed = (chosen, freed)
choose needed max_targets (cand ∷ rest) chosen freed =
    elim (mem_text cand.victim.job_id (victim_ids chosen)) [
      | true ↦ choose needed max_targets rest chosen freed
      | false ↦
          elim (leb needed (freed + cand.slots_freed)
            || leb max_targets (length (chosen ++ cand ∷ []))) [
              | true ↦ (chosen ++ cand ∷ [], freed + cand.slots_freed)
              | false ↦
                  choose needed max_targets rest (chosen ++ cand ∷ []) (freed + cand.slots_freed)
            ]
    ]

unfoldable pub for_target : JobView → List RequeueCandidate → List RequeueCandidate
for_target target cs = filter (λ c. text_eq c.target.job_id target.job_id) cs

-- The result of a method that may make a decision.
pub record Outcome : Type 0 where
  pub decision : Option RequeueDecision
  pub reason : DecideReason
  pub decider : RequeueDecider

abbrev pub declined : DecideReason → RequeueDecider → Outcome
declined reason self = record { decision = none; reason = reason; decider = self }

-- The last part of the method, on what the loop has chosen.
unfoldable pub conclude :
    RequeueDecider
    → JobView
    → Text
    → FragmentationSnapshot
    → Time
    → List RequeueCandidate
    → ℕ
    → Outcome
conclude self target chosen_node snap now [] freed = declined no_victims_after_priority_gap self
conclude self target chosen_node snap now (c ∷ cs) freed = record {
  decision = some (record {
    target_job_ids = victim_ids (c ∷ cs);
    blocked_job_ids = target.job_id ∷ [];
    chosen_node = chosen_node;
    slots_needed = target.mps_req;
    slots_freed = freed;
    snapshot_score = snap.score;
    timestamp = now;
  });
  reason = unblock;
  decider = record self { history = now ∷ self.history };
}

-- By the nodes of the head's candidates, the one with most to free first.
unfoldable pub act_on :
    RequeueDecider
    → JobView
    → FragmentationSnapshot
    → Time
    → List RequeueCandidate
    → List Text
    → Outcome
act_on self target snap now per_target [] = declined no_candidates_for_head self
act_on self target snap now per_target (chosen_node ∷ others) =
    let (chosen, freed) =
      choose target.mps_req self.max_targets_per_decision
        (on_node chosen_node (sorted frees_more per_target)) [] 0 in
    conclude self target chosen_node snap now chosen freed

-- By the blocked jobs, the head first.
unfoldable pub unblock_head : RequeueDecider → FragmentationSnapshot → Time → List JobView → Outcome
unblock_head self snap now [] = declined no_fragmentation self
unblock_head self snap now (target ∷ others) =
    let per_target = for_target target snap.candidates in
    act_on self target snap now per_target
      (sorted (more_freed_on per_target) (node_set [] per_target))

unfoldable pub decide_limited :
    Option DecideReason → RequeueDecider → FragmentationSnapshot → Time → Outcome
decide_limited (some why) self snap now = declined why self
decide_limited none self snap now = unblock_head self snap now snap.pending_blocked

unfoldable pub decide : RequeueDecider → FragmentationSnapshot → Time → Outcome
decide self snap now =
    if has_actionable_fragmentation snap
    then (let (why, trimmed) = rate_limited now self in decide_limited why trimmed snap now)
    else declined no_fragmentation self
