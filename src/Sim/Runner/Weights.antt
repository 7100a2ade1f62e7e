-- ===== src/Sim/Runner/Weights.antt =====
-- sim/runner.py: the jobs that wait and the events to come, weighed by any measure, over one event.
use kelpflux.Base.{
  ℕ, ◌+◌, ◌≤◌, ◌≡◌, refl, ap, ◌∙◌, inl, inr, Bool, true, false, Option, none, some, List, [], ◌∷◌,
  Text, text_eq_iff, text_eq_self, Dict, lookup, sum_by, sum_by-append, sum_by-Perm, Bool-cases,
  if◌then◌else◌, arith,
}
use kelpflux.Sim.Cluster.{Cluster}
use kelpflux.Sim.Cluster.Planner.{try_allocate}
use kelpflux.Sim.Latency.{TraceJob, start_latency}
use kelpflux.Sim.Schedulers.{Scheduler}
use kelpflux.Sim.Runner.{
  Kind, submit, end, Event, Run, before, earlier, other, heappop, push, job_eq, remove, start_job,
  dispatch_jobs, try_dispatch, handle, add_pending, sample, handle_event,
}

pub job_eq→≡ : (i j : TraceJob) → job_eq i j ≡ true → i ≡ j
unfolding job_eq
job_eq→≡ i j h = ground (
  arith,
  h,
  text_eq_iff i.job.job_id j.job.job_id,
  text_eq_iff i.gpu_type j.gpu_type,
  text_eq_iff i.latency_class j.latency_class,
)

job_eq_self : (j : TraceJob) → job_eq j j ≡ true
unfolding job_eq
job_eq_self j =
    ground (arith, text_eq_self j.job.job_id, text_eq_self j.gpu_type, text_eq_self j.latency_class)

-- One for each element that is the job.
abbrev pub is_job : TraceJob → TraceJob → ℕ
is_job j x = if job_eq x j then 1 else 0

pub sum_by-remove :
    (f : TraceJob → ℕ) (j : TraceJob) (xs : List TraceJob)
    → 1 ≤ sum_by (is_job j) xs
    → sum_by f xs ≡ f j + sum_by f (remove j xs)
unfolding remove
sum_by-remove f j [] h = absurd (omega (arith, h))
sum_by-remove f j (x ∷ xs) h = elim (Bool-cases (job_eq x j)) [
  | inl e ↦ rw e (ap (λ y. f y + sum_by f xs) (job_eq→≡ x j e))
  | inr e ↦ rw e (omega (arith, sum_by-remove f j xs (omega (arith, (rw e at h)))))
]

earlier-other : (f : Event → ℕ) (d e : Event) → f (earlier d e) + f (other d e) ≡ f d + f e
unfolding earlier other
earlier-other f d e = elim (Bool-cases (before d e)) [
  | inl h ↦ rw h refl
  | inr h ↦ rw h (omega arith)
]

pub heappop-sum :
    (f : Event → ℕ) (best : Event) (es : List Event)
    → f (heappop best es).0 + sum_by f (heappop best es).1 ≡ f best + sum_by f es
unfolding heappop
heappop-sum f best [] = refl
heappop-sum f best (e ∷ es) =
    omega (arith, heappop-sum f (earlier e best) es, earlier-other f e best)

abbrev pub found_weight : (Text → ℕ) → Option TraceJob → ℕ
found_weight w none = 0
found_weight w (some j) = w j.job.job_id

-- What an event adds to the pending jobs.
abbrev pub gain : (Text → ℕ) → Dict TraceJob → Kind → Text → ℕ
gain w by_id submit payload = found_weight w (lookup payload by_id)
gain w by_id end payload = 0

-- What the scheduler's order still holds is pending.
abbrev pub AreCovered : List TraceJob → Run → Type 0
AreCovered js self = (g : TraceJob → ℕ) → sum_by g js ≤ sum_by g self.pending

pub there :
    (j : TraceJob) (js : List TraceJob) (self : Run)
    → AreCovered (j ∷ js) self
    → 1 ≤ sum_by (is_job j) self.pending
there j js self h =
    let one : is_job j j ≡ 1 = rw (job_eq_self j) refl in omega (arith, h (is_job j), one)

pub started-enough :
    (j : TraceJob) (js : List TraceJob) (cluster : Cluster) (self : Run)
    → AreCovered (j ∷ js) self
    → AreCovered js (start_job j cluster self)
unfolding start_job push
started-enough j js cluster self h g =
    omega (arith, h g, sum_by-remove g j self.pending (there j js self h))

abbrev pub job_weight : (Text → ℕ) → TraceJob → ℕ
job_weight w j = w j.job.job_id

abbrev pub held : (Text → ℕ) → (Event → ℕ) → Run → ℕ
held w f self = sum_by (job_weight w) self.pending + sum_by f self.events

module _ (w : Text → ℕ) (f : Event → ℕ)
    (ends : (t seq : ℕ) (payload : Text)
      → f (record { t = t; seq = seq; kind = end; payload = payload }) ≡ w payload) where
  start_job-held :
      (j : TraceJob) (cluster : Cluster) (self : Run)
      → 1 ≤ sum_by (is_job j) self.pending
      → held w f (start_job j cluster self) ≡ held w f self
  unfolding start_job push
  start_job-held j cluster self h = omega (
    arith,
    sum_by-remove (job_weight w) j self.pending h,
    ends (self.now + start_latency self.latency j self.now + j.runtime) self.seq j.job.job_id,
  )

  passed_over :
      (backfill : Bool) (next self : Run)
      → held w f next ≡ held w f self
      → held w f (if backfill then next else self) ≡ held w f self
  passed_over true next self h = h
  passed_over false next self h = refl

  dispatch_jobs-held :
      (backfill : Bool) (js : List TraceJob) (self : Run)
      → AreCovered js self
      → held w f (dispatch_jobs backfill js self) ≡ held w f self
  unfolding dispatch_jobs
  dispatch_jobs-held backfill [] self h = refl
  dispatch_jobs-held backfill (j ∷ js) self h =
      let later = dispatch_jobs-held backfill js self (λ g. omega (arith, h g)) in
      elim (try_allocate self.cluster j.job).0
        as (λ found.
          held w f (elim found [
            | some allocs ↦
                dispatch_jobs backfill js (start_job j (try_allocate self.cluster j.job).1 self)
            | none ↦ if backfill then dispatch_jobs backfill js self else self
          ])
          ≡ held w f self) [
            | some allocs ↦
                dispatch_jobs-held backfill js
                  (start_job j (try_allocate self.cluster j.job).1 self)
                  (started-enough j js (try_allocate self.cluster j.job).1 self h)
                ∙ start_job-held j (try_allocate self.cluster j.job).1 self (there j js self h)
            | none ↦ passed_over backfill (dispatch_jobs backfill js self) self later
          ]

  module _ (scheduler : Scheduler) (by_id : Dict TraceJob) where
    try_dispatch-held : (self : Run) → held w f (try_dispatch scheduler by_id self) ≡ held w f self
    unfolding try_dispatch
    try_dispatch-held self =
        dispatch_jobs-held scheduler.backfill (scheduler.order self.pending self.cluster self.now)
          self
          (λ g.
            omega (arith, sum_by-Perm g (scheduler.order-perm self.pending self.cluster self.now)))

    add_pending-held :
        (found : Option TraceJob) (self : Run)
        → held w f (add_pending scheduler by_id found self) ≡ found_weight w found + held w f self
    unfolding add_pending
    add_pending-held none self = omega arith
    add_pending-held (some j) self =
        omega (arith, sum_by-append (job_weight w) self.pending (j ∷ []))

    handle-held :
        (kind : Kind) (payload : Text) (self : Run)
        → held w f (handle scheduler by_id kind payload self)
          ≡ gain w by_id kind payload + held w f self
    unfolding handle
    handle-held submit payload self = add_pending-held (lookup payload by_id) self
    handle-held end payload self = omega arith

    pub handle_event-held :
        (e : Event) (rest : List Event) (self : Run)
        → held w f (handle_event scheduler by_id e rest self)
          ≡ gain w by_id e.kind e.payload + (sum_by (job_weight w) self.pending + sum_by f rest)
    unfolding handle_event sample
    handle_event-held e rest self =
        let taken = record self { now = e.t; events = rest } in
        try_dispatch-held (handle scheduler by_id e.kind e.payload taken)
        ∙ handle-held e.kind e.payload taken
