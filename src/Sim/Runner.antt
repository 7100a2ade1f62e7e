-- ===== src/Sim/Runner.antt =====
-- sim/runner.py, run: the event loop of the simulator. Times are natural numbers of one unit. The heap
-- is a list from which the least event is taken, and the endless part of the loop is cut by fuel.
pub mod Weights
pub mod Ends
pub mod Traces
pub mod Heap
pub mod Phases
pub mod Taking
pub mod Timeline
pub mod Stories
mod Examples
use kelpflux.Base.{
  ℕ, zero, suc, ◌+◌, ◌||◌, ◌&&◌, Bool, true, false, not, Option, none, some, List, [], ◌∷◌, ◌++◌,
  map, Text, text_eq, Dict, lookup, insert, sorted, ltb, leb, ◌==◌, if◌then◌else◌,
}
use kelpflux.Sim.Cluster.{Job, Allocation, Cluster, used_mps, release}
use kelpflux.Sim.Cluster.Planner.{try_allocate}
use kelpflux.Sim.Latency.{TraceJob, LatencyModel, start_latency, start_in_pool, end_in_pool}
use kelpflux.Sim.Schedulers.{Scheduler}

pub data Kind : Type 0 where
  submit end : Kind

-- (t, seq, kind, job_id)
pub record Event : Type 0 where
  pub t : ℕ
  pub seq : ℕ
  pub kind : Kind
  pub payload : Text

-- What sim/metrics.py keeps of a job's times.
pub record JobRecord : Type 0 where
  pub submit_ts : ℕ
  pub start_ts : Option ℕ
  pub end_ts : Option ℕ

-- A sample of the utilization is a moment and the slots in use; their total never changes.
pub record MetricCollector : Type 0 where
  pub records : Dict JobRecord
  pub util_samples : List (ℕ × ℕ)

pub record Run : Type 0 where
  pub cluster : Cluster
  pub pending : List TraceJob
  pub events : List Event
  pub seq : ℕ
  pub now : ℕ
  pub metrics : MetricCollector
  pub latency : LatencyModel

-- The field of self.records[job_id] is set; without such a record the source raises.
unfoldable pub set_record :
    (JobRecord → JobRecord) → Text → Option JobRecord → MetricCollector → MetricCollector
set_record f job_id none self = self
set_record f job_id (some r) self = record self { records = insert job_id (f r) self.records }

unfoldable pub record_submit : TraceJob → MetricCollector → MetricCollector
record_submit j self = record self {
  records =
      insert j.job.job_id (record { submit_ts = j.submit_ts; start_ts = none; end_ts = none })
        self.records;
}

unfoldable pub record_start : Text → ℕ → MetricCollector → MetricCollector
unfolding set_record
record_start job_id t self =
    set_record (λ r. record r { start_ts = some t }) job_id (lookup job_id self.records) self

unfoldable pub record_end : Text → ℕ → MetricCollector → MetricCollector
unfolding set_record
record_end job_id t self =
    set_record (λ r. record r { end_ts = some t }) job_id (lookup job_id self.records) self

unfoldable pub sample_util : ℕ → ℕ → MetricCollector → MetricCollector
sample_util t used self = record self { util_samples = self.util_samples ++ (t, used) ∷ [] }

-- The order of the tuples on the heap; no two of them have the same `seq`.
unfoldable pub before : Event → Event → Bool
before d e = ltb d.t e.t || (d.t == e.t && ltb d.seq e.seq)

unfoldable pub earlier : Event → Event → Event
unfolding before
earlier d e = if before d e then d else e

unfoldable pub other : Event → Event → Event
unfolding before
other d e = if before d e then e else d

-- heapq.heappop(events): the least event, and the others.
unfoldable pub heappop : Event → List Event → Event × List Event
unfolding earlier other
heappop best [] = (best, [])
heappop best (e ∷ es) =
    let (least, rest) = heappop (earlier e best) es in (least, other e best ∷ rest)

-- heapq.heappush(events, (t, seq, kind, job_id)); seq += 1
unfoldable pub push : ℕ → Kind → Text → Run → Run
push t kind payload self = record self {
  events = record { t = t; seq = self.seq; kind = kind; payload = payload } ∷ self.events;
  seq = suc self.seq;
}

-- The equality of the data class, on the fields of the model.
unfoldable pub job_eq : TraceJob → TraceJob → Bool
job_eq i j =
    text_eq i.job.job_id j.job.job_id
    && ((i.job.gpu_count == j.job.gpu_count)
        && ((i.job.mps_req == j.job.mps_req)
            && ((i.job.ram_req == j.job.ram_req)
                && (text_eq i.gpu_type j.gpu_type
                    && ((i.submit_ts == j.submit_ts)
                        && ((i.runtime == j.runtime)
                            && text_eq i.latency_class j.latency_class))))))

-- pending.remove(j)
unfoldable pub remove : TraceJob → List TraceJob → List TraceJob
unfolding job_eq
remove j [] = []
remove j (x ∷ xs) = if job_eq x j then xs else x ∷ remove j xs

-- The body of `if cluster.try_allocate(j) is not None`.
unfoldable pub start_job : TraceJob → Cluster → Run → Run
unfolding remove record_start push
start_job j cluster self =
    let start_t = self.now + start_latency self.latency j self.now in
    push (start_t + j.runtime) end j.job.job_id (record self {
      cluster = cluster;
      pending = remove j self.pending;
      metrics = record_start j.job.job_id start_t self.metrics;
      latency = start_in_pool j self.latency;
    })

unfoldable pub dispatch_jobs : Bool → List TraceJob → Run → Run
unfolding start_job
dispatch_jobs backfill [] self = self
dispatch_jobs backfill (j ∷ js) self =
    let (found, cluster) = try_allocate self.cluster j.job in
    elim found [
      | some allocs ↦ dispatch_jobs backfill js (start_job j cluster self)
      | none ↦ if backfill then dispatch_jobs backfill js self else self
    ]

module _ (scheduler : Scheduler) (by_id : Dict TraceJob) where
  unfoldable pub try_dispatch : Run → Run
  unfolding dispatch_jobs
  try_dispatch self =
      dispatch_jobs scheduler.backfill (scheduler.order self.pending self.cluster self.now) self

  unfoldable pub add_pending : Option TraceJob → Run → Run
  add_pending none self = self
  add_pending (some j) self = record self { pending = self.pending ++ j ∷ [] }

  unfoldable pub end_latency : Option TraceJob → ℕ → LatencyModel → LatencyModel
  end_latency none now self = self
  end_latency (some j) now self = end_in_pool j now self

  -- What an event does; each payload is a key of by_id.
  unfoldable pub handle : Kind → Text → Run → Run
  unfolding add_pending end_latency record_end
  handle submit payload self = add_pending (lookup payload by_id) self
  handle end payload self = record self {
    cluster = release payload self.cluster;
    metrics = record_end payload self.now self.metrics;
    latency = end_latency (lookup payload by_id) self.now self.latency;
  }

  unfoldable pub sample : Run → Run
  unfolding sample_util
  sample self = record self { metrics = sample_util self.now (used_mps self.cluster) self.metrics }

  -- One turn of the loop, after the event has been taken from the heap.
  unfoldable pub handle_event : Event → List Event → Run → Run
  unfolding try_dispatch handle sample
  handle_event e rest self =
      sample (try_dispatch (handle e.kind e.payload (record self { now = e.t; events = rest })))

  unfoldable pub run_events : ℕ → List Event → Run → Run
  unfolding handle_event heappop
  run_events zero events self = self
  run_events (suc fuel) [] self = self
  run_events (suc fuel) (e ∷ es) self =
      let (least, rest) = heappop e es in
      let after = handle_event least rest self in run_events fuel after.events after

-- {j.job_id: j for j in jobs}
unfoldable pub jobs_by_id : List TraceJob → Dict TraceJob → Dict TraceJob
jobs_by_id [] d = d
jobs_by_id (j ∷ js) d = jobs_by_id js (insert j.job.job_id j d)

unfoldable pub record_submits : List TraceJob → MetricCollector → MetricCollector
unfolding record_submit
record_submits [] self = self
record_submits (j ∷ js) self = record_submits js (record_submit j self)

unfoldable pub push_submits : List TraceJob → Run → Run
unfolding push
push_submits [] self = self
push_submits (j ∷ js) self = push_submits js (push j.submit_ts submit j.job.job_id self)

unfoldable pub first_submitted : TraceJob → TraceJob → Bool
first_submitted i j = leb i.submit_ts j.submit_ts

unfoldable pub start_run : List TraceJob → Cluster → LatencyModel → Run
unfolding push_submits record_submits first_submitted sample_util
start_run jobs cluster latency = push_submits (sorted first_submitted jobs) (record {
  cluster = cluster;
  pending = [];
  events = [];
  seq = 0;
  now = 0;
  metrics = sample_util 0 0 (record_submits jobs (record { records = []; util_samples = [] }));
  latency = latency;
})

unfoldable pub run : ℕ → Scheduler → List TraceJob → Cluster → LatencyModel → Run
unfolding start_run run_events
run fuel scheduler jobs cluster latency =
    let started = start_run jobs cluster latency in
    sample scheduler (jobs_by_id jobs [])
      (run_events scheduler (jobs_by_id jobs []) fuel started.events started)
