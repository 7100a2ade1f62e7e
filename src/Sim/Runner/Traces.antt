-- ===== src/Sim/Runner/Traces.antt =====
-- sim/runner.py, run: what becomes of the jobs of a trace.
use kelpflux.Base.{
  ℕ, ◌+◌, ◌*◌, ◌≤◌, ◌≡◌, refl, ap, inl, inr, Option, none, some, List, [], ◌∷◌, Text, text_eq,
  text_eq_iff, text_eq_self, Dict, lookup, insert, lookup-insert, length, sum_by, sum_by-Perm, All,
  All-map_impl, Bool-cases, sorted, sorted-perm, arith,
}
use kelpflux.Sim.Cluster.{Cluster}
use kelpflux.Sim.Latency.{TraceJob, LatencyModel}
use kelpflux.Sim.Schedulers.{Scheduler}
use kelpflux.Sim.Runner.{
  submit, Event, Run, push, push_submits, jobs_by_id, start_run, run, first_submitted, sample,
}
use kelpflux.Sim.Runner.Weights.{found_weight, held, job_weight}
use kelpflux.Sim.Runner.Ends.{cost, one, weight, ended, run_events-done, run_events-conserves}

-- The entry is a job with that id.
abbrev IsOwn : Text → Option TraceJob → Type 0
IsOwn k none = ⊥
IsOwn k (some j) = j.job.job_id ≡ k

insert-IsOwn :
    (k : Text) (j : TraceJob) (d : Dict TraceJob)
    → IsOwn k (lookup k d)
    → IsOwn k (lookup k (insert j.job.job_id j d))
insert-IsOwn k j d h = elim (Bool-cases (text_eq j.job.job_id k)) [
  | inl e ↦ rw (lookup-insert, e) ((text_eq_iff j.job.job_id k).0 e)
  | inr e ↦ rw (lookup-insert, e) h
]

jobs_by_id-keeps :
    (k : Text) (jobs : List TraceJob) (d : Dict TraceJob)
    → IsOwn k (lookup k d)
    → IsOwn k (lookup k (jobs_by_id jobs d))
unfolding jobs_by_id
jobs_by_id-keeps k [] d h = h
jobs_by_id-keeps k (j ∷ jobs) d h =
    jobs_by_id-keeps k jobs (insert j.job.job_id j d) (insert-IsOwn k j d h)

jobs_by_id-finds :
    (jobs : List TraceJob) (d : Dict TraceJob)
    → All (λ j. IsOwn j.job.job_id (lookup j.job.job_id (jobs_by_id jobs d))) jobs
unfolding jobs_by_id
jobs_by_id-finds [] d = tt
jobs_by_id-finds (j ∷ jobs) d = (
  jobs_by_id-keeps j.job.job_id jobs (insert j.job.job_id j d)
      (rw (lookup-insert, text_eq_self) refl),
  jobs_by_id-finds jobs (insert j.job.job_id j d),
)

found_weight-own :
    (w : Text → ℕ) (k : Text) (o : Option TraceJob) → IsOwn k o → found_weight w o ≡ w k
found_weight-own w k none h = absurd h
found_weight-own w k (some j) h = ap w h

sum_by-All :
    (f g : TraceJob → ℕ) (jobs : List TraceJob)
    → All (λ j. f j ≡ g j) jobs
    → sum_by f jobs ≡ sum_by g jobs
sum_by-All f g [] h = refl
sum_by-All f g (j ∷ jobs) h = omega (arith, h.0, sum_by-All f g jobs h.1)

-- The submit events of a trace weigh what its jobs weigh.
push_submits-held :
    (w : Text → ℕ) (f : Event → ℕ) (g : TraceJob → ℕ)
    → ((j : TraceJob) (seq : ℕ)
        → f (record { t = j.submit_ts; seq = seq; kind = submit; payload = j.job.job_id }) ≡ g j)
    → (jobs : List TraceJob) (self : Run)
    → held w f (push_submits jobs self) ≡ sum_by g jobs + held w f self
unfolding push_submits push
push_submits-held w f g h [] self = omega arith
push_submits-held w f g h (j ∷ jobs) self = omega (
  arith,
  push_submits-held w f g h jobs (push j.submit_ts submit j.job.job_id self),
  h j self.seq,
)

start_run-held :
    (w : Text → ℕ) (f : Event → ℕ) (g : TraceJob → ℕ)
    → ((j : TraceJob) (seq : ℕ)
        → f (record { t = j.submit_ts; seq = seq; kind = submit; payload = j.job.job_id }) ≡ g j)
    → (jobs : List TraceJob) (cluster : Cluster) (latency : LatencyModel)
    → held w f (start_run jobs cluster latency) ≡ sum_by g jobs
unfolding start_run
start_run-held w f g h jobs cluster latency = omega (
  arith,
  push_submits-held w f g h (sorted first_submitted jobs) _,
  sum_by-Perm g (sorted-perm first_submitted jobs),
)

sum_by-two : (jobs : List TraceJob) → sum_by (λ j. 2) jobs ≡ 2 * length jobs
sum_by-two [] = refl
sum_by-two (j ∷ jobs) = omega (arith, sum_by-two jobs)

module _ (scheduler : Scheduler) (jobs : List TraceJob) (cluster : Cluster)
    (latency : LatencyModel) where
  -- The ids of the jobs that end in the run of the trace, in the order in which they end.
  abbrev pub ended_in : ℕ → List Text
  ended_in fuel =
      let started = start_run jobs cluster latency in
      ended scheduler (jobs_by_id jobs []) fuel started.events started

  pub run-done :
      (fuel : ℕ) → 2 * length jobs ≤ fuel → (run fuel scheduler jobs cluster latency).events ≡ []
  unfolding run sample
  run-done fuel h =
      let started = start_run jobs cluster latency in
      run_events-done scheduler (jobs_by_id jobs []) fuel started.events started refl (
        omega (
          arith,
          start_run-held one cost (λ j. 2) (λ j seq. refl) jobs cluster latency,
          sum_by-two jobs,
          h,
        ))

  run-conserves :
      (w : Text → ℕ) (fuel : ℕ)
      → 2 * length jobs ≤ fuel
      → sum_by (job_weight w) (run fuel scheduler jobs cluster latency).pending
          + sum_by w (ended_in fuel)
        ≡ sum_by (job_weight w) jobs
  unfolding run sample
  run-conserves w fuel h =
      let d = jobs_by_id jobs [] in
      let started = start_run jobs cluster latency in
      let found = λ (j : TraceJob). found_weight w (lookup j.job.job_id d) in
      omega (
        arith,
        run_events-conserves scheduler d w fuel started.events started refl,
        start_run-held w (weight scheduler d w) found (λ j seq. omega arith) jobs cluster latency,
        sum_by-All found (job_weight w) jobs (
            All-map_impl _ (λ j. found j ≡ w j.job.job_id) jobs
              (λ j own. found_weight-own w j.job.job_id (lookup j.job.job_id d) own)
              (jobs_by_id-finds jobs [])),
        ap (sum_by (weight scheduler d w)) (run-done fuel h),
      )

  -- The simulator's run of any trace, on any cluster, with any scheduler that gives back the pending
  -- jobs in some order: two turns of the event loop for each job are enough for no event to be left,
  -- and then each job has either ended or is still pending. That is counted by any weight on the
  -- ids of the jobs, so no job is lost, ends twice, or both ends and stays pending.
  pub run-accounts :
      (fuel : ℕ)
      → 2 * length jobs ≤ fuel
      → ((run fuel scheduler jobs cluster latency).events ≡ [])
        × ((w : Text → ℕ)
            → sum_by (job_weight w) (run fuel scheduler jobs cluster latency).pending
                + sum_by w (ended_in fuel)
              ≡ sum_by (job_weight w) jobs)
  run-accounts fuel h = (run-done fuel h, λ w. run-conserves w fuel h)
