-- ===== src/Sim/Runner/Taking.antt =====
-- sim/runner.py, run: the phases of one job when an event is taken from the heap and jobs are dispatched.
use kelpflux.Base.{
  ℕ, suc, ◌≡◌, ◌≢◌, refl, Bool, true, false, Option, none, some, List, [], ◌∷◌, Text, text_eq, Dict,
  sum_by, sum_by-Perm, if◌then◌else◌, arith,
}
use kelpflux.Sim.Cluster.Planner.{try_allocate}
use kelpflux.Sim.Latency.{TraceJob}
use kelpflux.Sim.Schedulers.{Scheduler}
use kelpflux.Sim.Runner.{Kind, Event, Run, heappop, start_job, dispatch_jobs, try_dispatch, sample}
use kelpflux.Sim.Runner.Weights.{heappop-sum, AreCovered, there, started-enough}
use kelpflux.Sim.Runner.Heap.{heappop-All, heappop-first}
use kelpflux.Sim.Runner.Phases.{is_for, Facts, Phase, awaited, waiting, running, over, start-Phase}

module _ (scheduler : Scheduler) (by_id : Dict TraceJob) (k : Text) (j : TraceJob) where
  abbrev pub Now : Run → Type 0
  Now self = Phase k j self.events self

  dispatch-Phase :
      (backfill : Bool) (js : List TraceJob) (self : Run)
      → AreCovered js self
      → Now self
      → Now (dispatch_jobs backfill js self)
  unfolding dispatch_jobs
  dispatch-Phase backfill [] self h phase = phase
  dispatch-Phase backfill (x ∷ js) self h phase =
      let later = dispatch-Phase backfill js self (λ g. omega (arith, h g)) phase in
      let cluster = (try_allocate self.cluster x.job).1 in
      elim (try_allocate self.cluster x.job).0
        as (λ found. Now (elim found [
          | some allocs ↦ dispatch_jobs backfill js (start_job x cluster self)
          | none ↦ if backfill then dispatch_jobs backfill js self else self
        ])) [
          | some allocs ↦
              dispatch-Phase backfill js (start_job x cluster self)
                (started-enough x js cluster self h)
                (start-Phase k j x cluster self (there x js self h) phase)
          | none ↦ passed_over backfill (dispatch_jobs backfill js self) later
        ]
    where
      passed_over : (b : Bool) (next : Run) → Now next → Now (if b then next else self)
      passed_over true next h = h
      passed_over false next h = phase

  pub try_dispatch-Phase : (self : Run) → Now self → Now (try_dispatch scheduler by_id self)
  unfolding try_dispatch
  try_dispatch-Phase self =
      dispatch-Phase scheduler.backfill (scheduler.order self.pending self.cluster self.now) self
        (λ g.
          omega (arith, sum_by-Perm g (scheduler.order-perm self.pending self.cluster self.now)))

  sample-Facts :
      {waits comes : ℕ} {kind : Kind} {t : ℕ} {start_ts end_ts : Option ℕ} (self : Run)
      → Facts k j waits comes kind t start_ts end_ts self.events self
      → Facts k j waits comes kind t start_ts end_ts self.events (sample scheduler by_id self)
  unfolding sample
  sample-Facts self f = record {
    pending = f.pending;
    same = f.same;
    to_come = f.to_come;
    of_kind = f.of_kind;
    kept = f.kept;
    future = f.future;
  }

  pub sample-Phase : (self : Run) → Now self → Now (sample scheduler by_id self)
  unfolding sample
  sample-Phase self (awaited f) = awaited (sample-Facts self f)
  sample-Phase self (waiting w f) = waiting w (sample-Facts self f)
  sample-Phase self (running s w f) = running s w (sample-Facts self f)
  sample-Phase self (over s w f) = over s w (sample-Facts self f)

  -- The state from which an event is handled.
  abbrev pub taken : Event → List Event → Run → Run
  taken e rest self = record self { now = e.t; events = rest }

  -- The event taken is another job's.
  pub take-other :
      {waits comes : ℕ} {kind : Kind} {t : ℕ} {start_ts end_ts : Option ℕ} (e : Event)
      (es : List Event) (self : Run)
      → text_eq (heappop e es).0.payload k ≡ false
      → Facts k j waits comes kind t start_ts end_ts (e ∷ es) self
      → Facts k j waits comes kind t start_ts end_ts
          (heappop e es).1
          (taken (heappop e es).0 (heappop e es).1 self)
  take-other e es self h f =
      let none_left : is_for k j (heappop e es).0 ≡ 0 = rw h refl in
      record {
        pending = f.pending;
        same = f.same;
        to_come = omega (arith, heappop-sum (is_for k j) e es, none_left, f.to_come);
        of_kind = (heappop-All _ e es f.of_kind.0 f.of_kind.1).1;
        kept = f.kept;
        future = (heappop-first e es).1;
      }

  pub nothing_to_come :
      (e : Event) (es : List Event)
      → text_eq (heappop e es).0.payload k ≡ true
      → sum_by (is_for k j) (e ∷ es) ≢ 0
  nothing_to_come e es h none_left =
      let one : is_for k j (heappop e es).0 ≡ 1 = rw h refl in
      omega (arith, heappop-sum (is_for k j) e es, one, none_left)

  -- The event taken is the job's.
  pub take-own :
      {waits comes : ℕ} {kind : Kind} {t : ℕ} {start_ts end_ts : Option ℕ} (e : Event)
      (es : List Event) (self : Run)
      → text_eq (heappop e es).0.payload k ≡ true
      → Facts k j waits (suc comes) kind t start_ts end_ts (e ∷ es) self
      → ((heappop e es).0.kind ≡ kind)
        × ((heappop e es).0.t ≡ t)
        × Facts k j waits comes kind t start_ts end_ts
            (heappop e es).1
            (taken (heappop e es).0 (heappop e es).1 self)
  take-own e es self h f =
      let one : is_for k j (heappop e es).0 ≡ 1 = rw h refl in
      let all = heappop-All _ e es f.of_kind.0 f.of_kind.1 in
      let (is_kind, at) = all.0 h in
      (
        is_kind,
        at,
        record {
          pending = f.pending;
          same = f.same;
          to_come = omega (arith, heappop-sum (is_for k j) e es, one, f.to_come);
          of_kind = all.1;
          kept = f.kept;
          future = (heappop-first e es).1;
        },
      )
