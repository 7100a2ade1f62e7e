-- ===== src/Operator/Fragmentation/Ticks.antt =====
-- operator/fragmentation.py, class FragmentationReconciler: what one tick does to the jobs.
use kelpflux.Base.{
  ◌+◌, ◌<◌, ◌≡◌, ◌⊎◌, refl, Bool, true, false, not, Option, none, some, List, [], ◌∷◌, Text,
  text_le_total, text_le_trans, filter, All, All-map, All-map_impl, Mem, IsSorted, sorted-IsSorted,
  sorted-any, any, map, codes, text_eq, text_le, ltb, leb, ◌&&◌, ◌||◌, ap, ◌∙◌, inl, inr,
  Bool-cases, arith,
}
use kelpflux.Operator.Models.{Time}
use kelpflux.Operator.Fragmentation.{JobView, NodeView, RequeueDecision}
use kelpflux.Operator.Fragmentation.Detector.{
  snapshot, blocked_jobs, pending_jobs, to_upper, blocked_before, is_state, running_text,
  pending_text, fits_anywhere,
}
use kelpflux.Operator.Fragmentation.Decider.{decide}
use kelpflux.Operator.Fragmentation.Requeue.{FragmentationReconciler, actuate, act, reconcile}
use kelpflux.Operator.Fragmentation.Decision.{decide-snapshot}

module _ (raises : Text → Bool) where
  actuate_lem :
      (ids : List Text)
      → ((actuate raises ids).calls ≡ ids)
        × ((actuate raises ids).succeeded ≡ filter (λ jid. not (raises jid)) ids)
        × ((actuate raises ids).errors ≡ filter raises ids)
  unfolding actuate
  actuate_lem [] = (refl, refl, refl)
  actuate_lem (jid ∷ ids) = ground (arith, actuate_lem ids)

  -- The ids that a tick is to requeue: none in shadow mode, else those of its decision.
  abbrev pub wanted : Bool → Option RequeueDecision → List Text
  wanted true d = []
  wanted false none = []
  wanted false (some d) = d.target_job_ids

  act_lem :
      (shadow : Bool) (d : Option RequeueDecision)
      → ((act raises shadow d).calls ≡ wanted shadow d)
        × ((act raises shadow d).succeeded ≡ filter (λ jid. not (raises jid)) (wanted shadow d))
        × ((act raises shadow d).errors ≡ filter raises (wanted shadow d))
  unfolding act
  act_lem true none = (refl, refl, refl)
  act_lem true (some d) = (refl, refl, refl)
  act_lem false none = (refl, refl, refl)
  act_lem false (some d) = actuate_lem d.target_job_ids

  module _ (self : FragmentationReconciler) (jobs : List JobView) (nodes : List NodeView)
      (now : Time) where
    -- A tick calls the actuator once for each job of its decision, in order, and in shadow mode for
    -- none. Where a call raises the loop goes on: the result lists the other jobs as requeued, and
    -- those as errors.
    pub reconcile-actuation :
        let (result, after, calls) = reconcile raises self jobs nodes now in
        (calls ≡ wanted self.shadow_mode result.decision)
        × (result.requeued ≡ filter (λ jid. not (raises jid)) calls)
        × (result.actuator_errors ≡ filter raises calls)
    unfolding reconcile
    reconcile-actuation =
        let d = (decide self.decider (snapshot self.detector jobs nodes now) now).decision in
        let (c, s, e) = act_lem self.shadow_mode d in (c, rw c s, rw c e)

    -- A job that may be requeued for a blocked one.
    abbrev pub IsRequeueable : Text → Type 0
    IsRequeueable jid =
        (v : JobView) × (t : JobView) × (v.job_id ≡ jid)
        × Mem v jobs
        × (is_state running_text v ≡ true)
        × Mem t jobs
        × (is_state pending_text t ≡ true)
        × (fits_anywhere t nodes ≡ false)
        × (v.priority + self.detector.priority_gap < t.priority)

    wanted-IsRequeueable :
        (shadow : Bool) (d : Option RequeueDecision)
        → (decide self.decider (snapshot self.detector jobs nodes now) now).decision ≡ d
        → All IsRequeueable (wanted shadow d)
    wanted-IsRequeueable true d e = tt
    wanted-IsRequeueable false none e = tt
    wanted-IsRequeueable false (some d) e =
        let (target, head, (cs, (ids, _, fair, _, _, _, _))) =
          decide-snapshot self.detector jobs nodes self.decider now now d e in
        rw ids (
          All-map IsRequeueable (λ c. c.victim.job_id) cs
            (All-map_impl _ _ cs
              (λ c h.
                (c.victim, c.target, refl, h.0.1.0, h.0.1.1, h.0.4.0, h.0.4.1, h.0.4.2, h.0.2))
              fair))

    -- Every job for which a tick calls the actuator is running at that time, and has a priority
    -- below that of a pending job that fits on no node, by more than the gap.
    pub reconcile-IsRequeueable : All IsRequeueable (reconcile raises self jobs nodes now).2
    unfolding reconcile
    reconcile-IsRequeueable =
        let d = (decide self.decider (snapshot self.detector jobs nodes now) now).decision in
        rw (act_lem self.shadow_mode d).0 (wanted-IsRequeueable self.shadow_mode d refl)

blocked_before-total : (a b : JobView) → (blocked_before a b ≡ true) ⊎ (blocked_before b a ≡ true)
unfolding blocked_before
blocked_before-total a b = ground (arith, text_le_total a.job_id b.job_id)

blocked_before_trans :
    (a b c : JobView)
    → blocked_before a b ≡ true
    → blocked_before b c ≡ true
    → blocked_before a c ≡ true
unfolding blocked_before
blocked_before_trans a b c h k = ground (arith, h, k, text_le_trans a.job_id b.job_id c.job_id)

-- The first job stands before the second in the queue: it has the higher priority, or the same one
-- and was submitted earlier, or both the same and an id that is not greater.
abbrev pub Precedes : JobView → JobView → Type 0
Precedes a b =
    (b.priority < a.priority)
    ⊎ ((a.priority ≡ b.priority)
        × ((a.submit_ts < b.submit_ts)
            ⊎ ((a.submit_ts ≡ b.submit_ts) × (text_le a.job_id b.job_id ≡ true))))

-- Each job precedes all that come after it.
abbrev pub IsInOrder : List JobView → Type 0
IsInOrder [] = Unit
IsInOrder (v ∷ vs) = All (Precedes v) vs × IsInOrder vs

blocked_before→Precedes : (a b : JobView) → blocked_before a b ≡ true → Precedes a b
unfolding blocked_before
blocked_before→Precedes a b h = elim (Bool-cases (ltb b.priority a.priority)) [
  | inl e ↦ inl (ground (arith, e))
  | inr e ↦ inr (
    ground (arith, e, h),
    elim (Bool-cases (ltb a.submit_ts b.submit_ts)) [
      | inl earlier ↦ inl (ground (arith, earlier))
      | inr later ↦ inr (ground (arith, e, h, later), ground (arith, e, h, later))
    ],
  )
]

IsSorted→IsInOrder : (vs : List JobView) → IsSorted blocked_before vs → IsInOrder vs
IsSorted→IsInOrder [] h = tt
IsSorted→IsInOrder (v ∷ vs) h =
    (All-map_impl _ _ vs (λ w. blocked_before→Precedes v w) h.0, IsSorted→IsInOrder vs h.1)

any-filter :
    (test keep : JobView → Bool) (vs : List JobView)
    → any test (filter keep vs) ≡ any (λ v. keep v && test v) vs
any-filter test keep [] = refl
any-filter test keep (v ∷ vs) = elim (Bool-cases (keep v)) [
  | inl e ↦ rw e (ap (λ b. test v || b) (any-filter test keep vs))
  | inr e ↦ rw e (any-filter test keep vs)
]

-- The blocked queue stands in order, by falling priority, among equals by rising submission time,
-- then by id; and a job is found in it exactly if it is found, by the same test, among the given jobs
-- that are PENDING and ask for more slots than any node has free.
pub blocked_jobs-IsInOrder :
    (jobs : List JobView) (nodes : List NodeView) (test : JobView → Bool)
    → IsInOrder (blocked_jobs jobs nodes)
      × (any test (blocked_jobs jobs nodes)
          ≡ any
              (λ v.
                text_eq (map to_upper v.state) (codes "PENDING")
                && (not (any (λ n. leb v.mps_req n.free_mps) nodes) && test v))
              jobs)
unfolding blocked_jobs pending_jobs is_state fits_anywhere
blocked_jobs-IsInOrder jobs nodes test = (
  IsSorted→IsInOrder _ (sorted-IsSorted blocked_before blocked_before-total blocked_before_trans _),
  sorted-any blocked_before test _
      ∙ any-filter test (λ v. not (fits_anywhere v nodes)) (filter (is_state pending_text) jobs)
      ∙ any-filter (λ v. not (fits_anywhere v nodes) && test v) (is_state pending_text) jobs,
)
