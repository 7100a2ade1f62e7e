-- ===== src/Sim/Schedulers.antt =====
-- sim/scheduler/: what the runner asks of a scheduler, and three of the schedulers.
use kelpflux.Base.{
  ℕ, ◌+◌, ◌-◌, ◌*◌, ◌^◌, min, max, ◌||◌, ◌&&◌, Bool, true, false, Option, none, some, List, [], ◌∷◌,
  Dict, lookup, Perm, text_le, sorted, sorted-perm, ltb, ◌==◌, if◌then◌else◌,
}
use kelpflux.Sim.Cluster.{Cluster}
use kelpflux.Sim.Latency.{TraceJob}

-- The law of the interface: `order` gives the pending jobs back, each as often as it stands there.
pub record Scheduler : Type 0 where
  pub backfill : Bool
  pub order : List TraceJob → Cluster → ℕ → List TraceJob
  pub order-perm :
      (pending : List TraceJob) (cluster : Cluster) (now : ℕ)
      → Perm (order pending cluster now) pending

-- (j.submit_ts, j.job_id), compared as a tuple
unfoldable pub by_submit : TraceJob → TraceJob → Bool
by_submit i j =
    ltb i.submit_ts j.submit_ts || (i.submit_ts == j.submit_ts && text_le i.job.job_id j.job.job_id)

unfoldable pub fcfs : Scheduler
fcfs = record {
  backfill = false;
  order = λ pending cluster now. sorted by_submit pending;
  order-perm = λ pending cluster now. sorted-perm by_submit pending;
}

-- self.priority.get(j.job_id, 1 << 30)
unfoldable pub priority_or_last : Option ℕ → ℕ
priority_or_last none = 2 ^ 30
priority_or_last (some p) = p

-- A tuple that begins with a number and ends as `by_submit` has it.
unfoldable pub by_number : (TraceJob → ℕ) → TraceJob → TraceJob → Bool
unfolding by_submit
by_number key i j = ltb (key i) (key j) || (key i == key j && by_submit i j)

unfoldable pub priority_of : Dict ℕ → TraceJob → ℕ
unfolding priority_or_last
priority_of priority j = priority_or_last (lookup j.job.job_id priority)

unfoldable pub fixed_priority : Dict ℕ → Scheduler
fixed_priority priority = record {
  backfill = true;
  order = λ pending cluster now. sorted (by_number (priority_of priority)) pending;
  order-perm = λ pending cluster now. sorted-perm (by_number (priority_of priority)) pending;
}

-- The weights and the reference age of the multifactor scheduler, w_qos left out: its factor is 0.
pub record Weights : Type 0 where
  pub w_age : ℕ
  pub w_jobsize : ℕ
  pub age_ref : ℕ

-- max((j.gpu_count for j in pending), default=1)
unfoldable pub most_gpus : List TraceJob → ℕ
most_gpus [] = 0
most_gpus (j ∷ js) = max j.job.gpu_count (most_gpus js)

unfoldable pub max_gpu : List TraceJob → ℕ
unfolding most_gpus
max_gpu [] = 1
max_gpu (j ∷ js) = most_gpus (j ∷ js)

-- The priority times age_ref * max_gpu, or times age_ref where max_gpu is 0. A job's age below 0
-- counts as 0, and above age_ref as age_ref.
unfoldable pub priority : Weights → TraceJob → ℕ → ℕ → ℕ
priority self j now gpus =
    let age = min self.age_ref (now - j.submit_ts) in
    if gpus == 0
    then self.w_age * age
    else self.w_age * age * gpus + self.w_jobsize * j.job.gpu_count * self.age_ref

-- (-priority, j.submit_ts, j.job_id)
unfoldable pub by_priority : (TraceJob → ℕ) → TraceJob → TraceJob → Bool
unfolding by_submit
by_priority key i j = ltb (key j) (key i) || (key i == key j && by_submit i j)

unfoldable pub multifactor : Weights → Scheduler
multifactor self = record {
  backfill = true;
  order = λ pending cluster now.
      sorted (by_priority (λ j. priority self j now (max_gpu pending))) pending;
  order-perm = λ pending cluster now.
      sorted-perm (by_priority (λ j. priority self j now (max_gpu pending))) pending;
}
