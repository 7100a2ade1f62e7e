-- ===== src/Operator/Collector/Demand.antt =====
-- operator/collector.py with operator/policy.py: what a decision on a collected state says of the jobs
-- that were reported.
use kelpflux.Base.{
  ℕ, ◌≤◌, ◌<◌, ◌≡◌, ◌≢◌, refl, ap, sym, subst, inl, inr, Bool, true, ◌&&◌, Option, none, some, List,
  [], ◌∷◌, map, Mem, mem-cons_self, mem-cons_of_mem, Text, text_eq, filter, length, Bool-cases,
  Dict, arith,
}
use mathlib.Core.List.{not-mem-nil, mem-cons}
use mathlib.Core.Logic.Or
use native.Mathlib.Bridge.{le_prop}
use kelpflux.Operator.Models.{Time, PartitionConfig, PartitionState, scale_up, scale_down}
use kelpflux.Operator.Policy.{CheckpointAwareQueuePolicy, safe_floor, evaluate}
use kelpflux.Operator.Policy.Decisions.{evaluate-scale_down_iff}
use kelpflux.Operator.Collector.Buckets.{
  JobDoc, normalize_job, Bucket, bucket_of, jobs_by_pool_and_state_rest,
}
use kelpflux.Operator.Collector.States.{
  NodeDoc, rest_answers, state_of, state_with, jobs_by_pool_and_state, collect_state,
}
use kelpflux.Operator.Collector.Counts.{
  Part, part_scale_pending, part_running, belongs, jobs_by_pool_and_state_rest-part,
}

module _ {A B : Type 0} (f : A → B) (test : A → Bool) where
  some_match :
      (xs : List A) → 0 < length (map f (filter test xs)) → (x : A) × Mem x xs × (test x ≡ true)
  some_match [] h = absurd (omega (arith, h))
  some_match (x ∷ xs) h = elim (Bool-cases (test x)) [
    | inl e ↦ (x, mem-cons_self, e)
    | inr e ↦ let (y, m, passes) = some_match xs (rw e at h) in (y, mem-cons_of_mem x m, passes)
  ]

  match_counts :
      (x : A) (xs : List A) → Mem x xs → test x ≡ true → 0 < length (map f (filter test xs))
  match_counts x [] m e = absurd (not-mem-nil m)
  match_counts x (y ∷ ys) m e =
      Or.elim le_prop (mem-cons.0 m) (λ same. rw (← same, e) (omega arith))
        (λ later. elim (Bool-cases (test y)) [
          | inl first ↦ rw first (omega arith)
          | inr other ↦ rw other (match_counts x ys later e)
        ])

-- What a collected state says of the buckets.
pub record Counts (p : PartitionConfig) (result : Dict Bucket) (s : PartitionState) : Type 0 where
  pub scale_pending :
      s.scale_pending_jobs ≡ length (bucket_of p.worker_statefulset result).scale_pending
  pub running : s.running_jobs ≡ length (bucket_of p.worker_statefulset result).running

state_with-Counts :
    (p : PartitionConfig) (replicas busy : Option ℕ) (buckets : Option (Dict Bucket))
    (s : PartitionState)
    → state_with p replicas busy buckets ≡ some s
    → (result : Dict Bucket) × (buckets ≡ some result) × Counts p result s
unfolding state_with
state_with-Counts p (some r) (some b) (some result) s e =
    let same : state_of p r b (bucket_of p.worker_statefulset result) ≡ s = cc in
    (
      result,
      refl,
      record {
        scale_pending = ap (λ (t : PartitionState). t.scale_pending_jobs) (sym same);
        running = ap (λ (t : PartitionState). t.running_jobs) (sym same);
      },
    )
state_with-Counts p (some r) (some b) none s e = absurd (cc)
state_with-Counts p (some r) none buckets s e = absurd (cc)
state_with-Counts p none busy buckets s e = absurd (cc)

-- A collection over Slurm's REST interface, and the policy on its state of the pool `p`.
module _ (jobs : Text → Option (List JobDoc)) (nodes : Text → Option (List NodeDoc))
    (get_replicas : Text → Option ℕ) (cfgs : List PartitionConfig) (p : PartitionConfig)
    (s : PartitionState) (self : CheckpointAwareQueuePolicy) (age : Option ℕ)
    (missing : Option Time)
    (collected : collect_state (rest_answers jobs nodes) get_replicas cfgs p ≡ some s) where
  -- The job is reported for the pool's partition, and belongs to that part of the pool's bucket.
  abbrev pub IsReported : Part → JobDoc → Type 0
  IsReported part job =
      (docs : List JobDoc) × (jobs p.partition ≡ some docs)
      × Mem job docs
      × ((text_eq job.partition p.partition && belongs cfgs part p.worker_statefulset job) ≡ true)

  from_docs :
      (docs : Option (List JobDoc)) (result : Dict Bucket)
      → jobs p.partition ≡ docs
      → jobs_by_pool_and_state (rest_answers jobs nodes) cfgs p.partition ≡ some result
      → (found : List JobDoc) × (jobs p.partition ≡ some found)
        × (result ≡ jobs_by_pool_and_state_rest cfgs found p.partition)
  unfolding jobs_by_pool_and_state
  from_docs none result e h = absurd (cc (rw e at h))
  from_docs (some docs) result e h = (docs, e, cc (rw e at h))

  reported :
      (docs : List JobDoc) × (jobs p.partition ≡ some docs)
      × Counts p (jobs_by_pool_and_state_rest cfgs docs p.partition) s
  unfolding collect_state
  reported =
      let (result, e, counts) = state_with-Counts p _ _ _ s collected in
      let (docs, at, same) = from_docs (jobs p.partition) result refl e in
      (docs, at, subst (λ r. Counts p r s) same counts)

  up_from_demand :
      safe_floor p s ≤ s.current_replicas
      → (evaluate self p s age missing).action ≡ scale_up
      → 0 < s.scale_pending_jobs
  unfolding evaluate safe_floor
  up_from_demand h e = ground (arith, h, e)

  -- On a state that is collected over Slurm's REST interface, a pool that stands at its floor or above
  -- is scaled up only if the controller has reported a job of its partition in state PENDING, for the
  -- reason `resources`, that is classified to the pool and asks for no more cores and memory than its
  -- nodes are said to have. A limit of 0 counts as none.
  pub collect_state-scale_up :
      safe_floor p s ≤ s.current_replicas
      → (evaluate self p s age missing).action ≡ scale_up
      → (job : JobDoc) × IsReported part_scale_pending job
  collect_state-scale_up h e =
      let (docs, at, counts) = reported in
      let counted =
        jobs_by_pool_and_state_rest-part cfgs docs p.partition part_scale_pending
          p.worker_statefulset in
      let positive : 0
          < length (
              map normalize_job (
                filter
                  (λ j.
                    text_eq j.partition p.partition
                    && belongs cfgs part_scale_pending p.worker_statefulset j)
                  docs)) =
        omega (arith, up_from_demand h e, counts.scale_pending, ap length counted) in
      let (job, m, passes) = some_match normalize_job _ docs positive in
      (job, (docs, at, m, passes))

  -- On a state that is collected over Slurm's REST interface, a pool within its cap is never scaled
  -- down while the controller reports a job of its partition, in state RUNNING or COMPLETING, that is
  -- classified to the pool.
  pub collect_state-running_stays :
      s.current_replicas ≤ p.max_replicas
      → (job : JobDoc) → IsReported part_running job
      → (evaluate self p s age missing).action ≢ scale_down
  collect_state-running_stays h job (docs, at, m, mine) down =
      let (seen, at_seen, counts) = reported in
      let same : docs ≡ seen = cc in
      let present : Mem job seen = subst (Mem job) same m in
      let busy : 0 < s.running_jobs =
        rw
          (
            counts.running,
            jobs_by_pool_and_state_rest-part cfgs seen p.partition part_running
                p.worker_statefulset,
          )
          (match_counts normalize_job _ job seen present mine) in
      elim ((evaluate-scale_down_iff self p s age missing).0 down) [
        | inl (waiting, above) ↦ absurd (omega arith)
        | inr (no_scale, no_pending, idle, above, step) ↦ absurd (omega arith)
      ]
