-- ===== src/Sim/Runner/Stories.antt =====
-- sim/runner.py, run: what the metrics hold of each job of a trace when the run is over.
use kelpflux.Base.{
  ℕ, zero, suc, ◌+◌, ◌*◌, ◌≤◌, ◌≡◌, ◌⊎◌, refl, sym, ap, ◌∙◌, subst, inl, inr, true, false, none,
  some, List, [], ◌∷◌, Text, text_eq, text_eq_iff, differs_sym, Dict, lookup, insert, lookup-insert,
  get_elem?, length, sum_by, sum_by-Perm, All, All-get_elem?, Bool-cases, sorted, sorted-All,
  sorted-perm, arith,
}
use kelpflux.Sim.Cluster.{Cluster}
use kelpflux.Sim.Latency.{TraceJob, LatencyModel}
use kelpflux.Sim.Schedulers.{Scheduler}
use kelpflux.Sim.Runner.{
  submit, MetricCollector, Run, run_events, push, push_submits, record_submit, record_submits,
  sample_util, jobs_by_id, start_run, run, first_submitted, sample,
}
use kelpflux.Sim.Runner.Traces.{run-done}
use kelpflux.Sim.Runner.Phases.{
  has_id, is_for, timed, Facts, Phase, awaited, waiting, running, over,
}
use kelpflux.Sim.Runner.Timeline.{run_events-Phase}

-- No two jobs of the trace have the same id.
abbrev pub AreDistinct : List TraceJob → Type 0
AreDistinct [] = Unit
AreDistinct (x ∷ xs) = All (λ y. text_eq x.job.job_id y.job.job_id ≡ false) xs × AreDistinct xs

abbrev IsNamed : Dict TraceJob → Type 0
IsNamed d = (p : Text) (x : TraceJob) → lookup p d ≡ some x → x.job.job_id ≡ p

empty-IsNamed : IsNamed []
unfolding lookup
empty-IsNamed p x e = absurd (cc)

insert-IsNamed : (x : TraceJob) (d : Dict TraceJob) → IsNamed d → IsNamed (insert x.job.job_id x d)
insert-IsNamed x d h p y e = elim (Bool-cases (text_eq x.job.job_id p)) [
  | inl same ↦
      let is_x : x ≡ y = cc (rw (lookup-insert, same) at e) in
      ap (λ z. z.job.job_id) (sym is_x) ∙ (text_eq_iff x.job.job_id p).0 same
  | inr other ↦ h p y (rw (lookup-insert, other) at e)
]

jobs_by_id-IsNamed :
    (jobs : List TraceJob) (d : Dict TraceJob) → IsNamed d → IsNamed (jobs_by_id jobs d)
unfolding jobs_by_id
jobs_by_id-IsNamed [] d h = h
jobs_by_id-IsNamed (x ∷ jobs) d h =
    jobs_by_id-IsNamed jobs (insert x.job.job_id x d) (insert-IsNamed x d h)

module _ (k : Text) (j : TraceJob) where
  -- A job with the id is the job.
  abbrev IsOnly : TraceJob → Type 0
  IsOnly x = text_eq x.job.job_id k ≡ true → x ≡ j

  jobs_by_id-own :
      (jobs : List TraceJob) (d : Dict TraceJob)
      → All IsOnly jobs
      → ((lookup k d ≡ some j) ⊎ (1 ≤ sum_by (has_id k j) jobs))
      → lookup k (jobs_by_id jobs d) ≡ some j
  unfolding jobs_by_id
  jobs_by_id-own [] d only (inl h) = h
  jobs_by_id-own [] d only (inr h) = absurd (omega (arith, h))
  jobs_by_id-own (x ∷ jobs) d only h = elim (Bool-cases (text_eq x.job.job_id k)) [
    | inl e ↦ jobs_by_id-own jobs _ only.1 (inl (rw (lookup-insert, e) (ap some (only.0 e))))
    | inr e ↦ jobs_by_id-own jobs _ only.1 (elim h [
      | inl found ↦ inl (rw (lookup-insert, e) found)
      | inr later ↦ inr (omega (arith, (rw e at later)))
    ])
  ]

  record_submits-own :
      (jobs : List TraceJob) (m : MetricCollector)
      → All IsOnly jobs
      → ((lookup k m.records ≡ some (timed k j none none)) ⊎ (1 ≤ sum_by (has_id k j) jobs))
      → lookup k (record_submits jobs m).records ≡ some (timed k j none none)
  unfolding record_submits record_submit
  record_submits-own [] m only (inl h) = h
  record_submits-own [] m only (inr h) = absurd (omega (arith, h))
  record_submits-own (x ∷ jobs) m only h = elim (Bool-cases (text_eq x.job.job_id k)) [
    | inl e ↦
        record_submits-own jobs _ only.1
          (inl (rw (lookup-insert, e) (ap (λ y. some (timed k y none none)) (only.0 e))))
    | inr e ↦ record_submits-own jobs _ only.1 (elim h [
      | inl found ↦ inl (rw (lookup-insert, e) found)
      | inr later ↦ inr (omega (arith, (rw e at later)))
    ])
  ]

  push_submits-Facts :
      (jobs : List TraceJob) (comes : ℕ) (self : Run)
      → All IsOnly jobs
      → self.now ≡ 0
      → Facts k j 0 comes submit j.submit_ts none none self.events self
      → Facts k j 0
          (sum_by (has_id k j) jobs + comes)
          submit
          j.submit_ts
          none
          none
          (push_submits jobs self).events
          (push_submits jobs self)
  unfolding push_submits push
  push_submits-Facts [] comes self only at f =
      subst (λ n. Facts k j 0 n submit j.submit_ts none none self.events self) (omega arith) f
  push_submits-Facts (x ∷ jobs) comes self only at f =
      subst
        (λ n.
          Facts k j 0 n submit j.submit_ts none none (push_submits (x ∷ jobs) self).events
            (push_submits (x ∷ jobs) self))
        (omega arith)
        (push_submits-Facts jobs (has_id k j x + comes) (push x.submit_ts submit x.job.job_id self)
          only.1 at
          (record {
            pending = f.pending;
            same = f.same;
            to_come = omega (arith, f.to_come);
            of_kind = ((λ e. (refl, ap (λ y. y.submit_ts) (only.0 e))), f.of_kind);
            kept = f.kept;
            future = (omega (arith, at), f.future);
          }))

  start_run-Facts :
      (jobs : List TraceJob) (cluster : Cluster) (latency : LatencyModel)
      → All IsOnly jobs
      → sum_by (has_id k j) jobs ≡ 1
      → let started = start_run jobs cluster latency in
        Facts k j 0 1 submit j.submit_ts none none started.events started
  unfolding start_run sample_util
  start_run-Facts jobs cluster latency only once =
      let began : Run = record {
        cluster = cluster;
        pending = [];
        events = [];
        seq = 0;
        now = 0;
        metrics =
            sample_util 0 0 (record_submits jobs (record { records = []; util_samples = [] }));
        latency = latency;
      } in
      let order = sorted first_submitted jobs in
      let started = push_submits order began in
      subst (λ n. Facts k j 0 n submit j.submit_ts none none started.events started)
        (omega (arith, sum_by-Perm (has_id k j) (sorted-perm first_submitted jobs), once))
        (push_submits-Facts order 0 began (sorted-All first_submitted IsOnly jobs only) refl
          (record {
            pending = refl;
            same = tt;
            to_come = refl;
            of_kind = tt;
            kept = record_submits-own jobs _ only (inr (omega (arith, once)));
            future = tt;
          }))

absent :
    (j : TraceJob) (xs : List TraceJob)
    → All (λ y. text_eq j.job.job_id y.job.job_id ≡ false) xs
    → (sum_by (has_id j.job.job_id j) xs ≡ 0) × All (IsOnly j.job.job_id j) xs
absent j [] h = (refl, tt)
absent j (x ∷ xs) h =
    let differs = differs_sym j.job.job_id x.job.job_id h.0 in
    let later = absent j xs h.1 in
    (rw differs (omega (arith, later.0)), ((λ e. absurd (cc)), later.1))

-- A job of the trace is the only one with its id.
no_other :
    (jobs : List TraceJob) (i : ℕ) (j : TraceJob)
    → AreDistinct jobs
    → get_elem? jobs i ≡ some j
    → (sum_by (has_id j.job.job_id j) jobs ≡ 1) × All (IsOnly j.job.job_id j) jobs
no_other [] i j h e = absurd (cc)
no_other (x ∷ jobs) zero j h e =
    let same : x ≡ j = cc in
    let rest =
      absent j jobs
        (subst (λ y. All (λ z. text_eq y.job.job_id z.job.job_id ≡ false) jobs) same h.0) in
    let one : text_eq x.job.job_id j.job.job_id ≡ true =
      (text_eq_iff x.job.job_id j.job.job_id).1 (ap (λ y. y.job.job_id) same) in
    (rw one (omega (arith, rest.0)), ((λ e. same), rest.1))
no_other (x ∷ jobs) (suc i) j h e =
    let differs : text_eq x.job.job_id j.job.job_id ≡ false = All-get_elem? _ jobs i j h.0 e in
    let rest = no_other jobs i j h.1 e in
    (rw differs (omega (arith, rest.0)), ((λ own. absurd (cc)), rest.1))

-- The job ran from a moment on, not before it was submitted, for as long as it takes; or it has
-- never started and is still pending.
abbrev pub IsTold : TraceJob → Run → Type 0
IsTold j after =
    let records = after.metrics.records in
    ((s : ℕ) × (j.submit_ts ≤ s)
      × (lookup j.job.job_id records
          ≡ some (record {
            submit_ts = j.submit_ts;
            start_ts = some s;
            end_ts = some (s + j.runtime);
          })))
    ⊎ ((lookup j.job.job_id records
          ≡ some (record { submit_ts = j.submit_ts; start_ts = none; end_ts = none }))
        × (sum_by (has_id j.job.job_id j) after.pending ≡ 1))

told :
    (j : TraceJob) (after : Run)
    → after.events ≡ []
    → Phase j.job.job_id j after.events after
    → IsTold j after
told j after done (awaited f) =
    absurd (omega (arith, f.to_come, ap (sum_by (is_for j.job.job_id j)) done))
told j after done (waiting w f) = inr (f.kept, f.pending)
told j after done (running s w f) =
    absurd (omega (arith, f.to_come, ap (sum_by (is_for j.job.job_id j)) done))
told j after done (over s w f) = inl (s, w, f.kept)

-- The simulator's run of any trace whose jobs have different ids, on any cluster, with any latency
-- model and any scheduler that gives back the pending jobs in some order, and with two turns of the
-- event loop for each job: in the metrics of the run, each job of the trace has its submission, a
-- start that is not before it, and an end that is exactly the job's runtime after the start; or the
-- job has neither a start nor an end and is still pending.
pub run-IsTold :
    (scheduler : Scheduler) (jobs : List TraceJob) (cluster : Cluster) (latency : LatencyModel)
    (fuel : ℕ) (i : ℕ) (j : TraceJob)
    → AreDistinct jobs
    → 2 * length jobs ≤ fuel
    → get_elem? jobs i ≡ some j
    → IsTold j (run fuel scheduler jobs cluster latency)
unfolding run sample
run-IsTold scheduler jobs cluster latency fuel i j distinct enough at =
    let k = j.job.job_id in
    let d = jobs_by_id jobs [] in
    let started = start_run jobs cluster latency in
    let (once, only) = no_other jobs i j distinct at in
    let named = jobs_by_id-IsNamed jobs [] empty-IsNamed in
    let own = jobs_by_id-own k j jobs [] only (inr (omega (arith, once))) in
    let began = awaited (start_run-Facts k j jobs cluster latency only once) in
    let phase = run_events-Phase scheduler d k j named own fuel started.events started refl began in
    told j (run_events scheduler d fuel started.events started)
      (run-done scheduler jobs cluster latency fuel enough) phase
