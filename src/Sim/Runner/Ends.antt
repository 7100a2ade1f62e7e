-- ===== src/Sim/Runner/Ends.antt =====
-- sim/runner.py, run: the loop ends, and no job is lost on the way.
use kelpflux.Base.{
  ℕ, zero, suc, ◌+◌, ◌≤◌, ◌≡◌, refl, ap, Option, none, some, List, [], ◌∷◌, Text, Dict, lookup,
  sum_by, sum_by-append, ◌++◌, arith,
}
use kelpflux.Sim.Latency.{TraceJob}
use kelpflux.Sim.Schedulers.{Scheduler}
use kelpflux.Sim.Runner.{Kind, submit, end, Event, Run, heappop, handle_event, run_events}
use kelpflux.Sim.Runner.Weights.{
  found_weight, gain, held, job_weight, heappop-sum, handle_event-held,
}

-- Two events for a job that is still to come, one for a job that runs.
abbrev pub cost_of : Kind → ℕ
cost_of submit = 2
cost_of end = 1

abbrev pub cost : Event → ℕ
cost e = cost_of e.kind

abbrev pub one : Text → ℕ
one k = 1

module _ (scheduler : Scheduler) (by_id : Dict TraceJob) where
  gain-cost : (kind : Kind) (payload : Text) → suc (gain one by_id kind payload) ≤ cost_of kind
  gain-cost submit payload = found-le (lookup payload by_id)
    where
      found-le : (o : Option TraceJob) → suc (found_weight one o) ≤ 2
      found-le none = omega arith
      found-le (some j) = omega arith
  gain-cost end payload = omega arith

  -- What one turn leaves costs less than what it began with.
  turn-cost :
      (e : Event) (es : List Event) (self : Run)
      → let (least, rest) = heappop e es in
        suc (held one cost (handle_event scheduler by_id least rest self))
        ≤ sum_by (job_weight one) self.pending + sum_by cost (e ∷ es)
  turn-cost e es self =
      let least = (heappop e es).0 in
      let rest = (heappop e es).1 in
      let held_after =
        handle_event-held one cost (λ t seq payload. refl) scheduler by_id least rest self in
      omega (arith, held_after, heappop-sum cost e es, gain-cost least.kind least.payload)

  -- Fuel for the cost of all that is waiting or to come leaves no event.
  pub run_events-done :
      (fuel : ℕ) (events : List Event) (self : Run)
      → self.events ≡ events
      → sum_by (job_weight one) self.pending + sum_by cost events ≤ fuel
      → (run_events scheduler by_id fuel events self).events ≡ []
  unfolding run_events
  run_events-done zero [] self same h = same
  run_events-done zero (e ∷ es) self same h = absurd (omega (arith, h, turn-cost e es self))
  run_events-done (suc fuel) [] self same h = same
  run_events-done (suc fuel) (e ∷ es) self same h =
      let (least, rest) = heappop e es in
      let after = handle_event scheduler by_id least rest self in
      run_events-done fuel after.events after refl (omega (arith, h, turn-cost e es self))

  abbrev pub ended_of : Kind → Text → List Text
  ended_of submit payload = []
  ended_of end payload = payload ∷ []

  -- The jobs whose end events a run handles, in order.
  unfoldable pub ended : ℕ → List Event → Run → List Text
  ended zero events self = []
  ended (suc fuel) [] self = []
  ended (suc fuel) (e ∷ es) self =
      let (least, rest) = heappop e es in
      let after = handle_event scheduler by_id least rest self in
      ended_of least.kind least.payload ++ ended fuel after.events after

  module _ (w : Text → ℕ) where
    -- An event weighs as much as the job that it brings, or as the job that it ends.
    abbrev pub weight : Event → ℕ
    weight e = gain w by_id e.kind e.payload + sum_by w (ended_of e.kind e.payload)

    pub run_events-conserves :
        (fuel : ℕ) (events : List Event) (self : Run)
        → self.events ≡ events
        → held w weight (run_events scheduler by_id fuel events self)
            + sum_by w (ended fuel events self)
          ≡ sum_by (job_weight w) self.pending + sum_by weight events
    unfolding run_events ended
    run_events-conserves zero events self same = omega (arith, ap (sum_by weight) same)
    run_events-conserves (suc fuel) [] self same = omega (arith, ap (sum_by weight) same)
    run_events-conserves (suc fuel) (e ∷ es) self same =
        let least = (heappop e es).0 in
        let rest = (heappop e es).1 in
        let after = handle_event scheduler by_id least rest self in
        omega (
          arith,
          handle_event-held w weight (λ t seq payload. omega arith) scheduler by_id least rest self,
          heappop-sum weight e es,
          sum_by-append w (ended_of least.kind least.payload) (ended fuel after.events after),
          run_events-conserves fuel after.events after refl,
        )
