-- ===== src/Sim/Latency.antt =====
-- sim/latency.py: the delay between an allocation in the simulator and the job's start. Times are
-- natural numbers of one unit. The job is the trace's (sim/loader.py), as far as sim/ reads it here.
use kelpflux.Base.{
  ℕ, suc, ◌+◌, ◌-◌, ◌||◌, Bool, true, Option, none, some, map, Text, codes, text_eq, contains, ltb,
  leb, if◌then◌else◌,
}
use kelpflux.Operator.Fragmentation.Adapters.{to_lower}
use kelpflux.Sim.Cluster.{Job}

-- `job` holds what the cluster reads.
pub record TraceJob : Type 0 where
  pub job : Job
  pub gpu_type : Text
  pub submit_ts : ℕ
  pub runtime : ℕ
  pub latency_class : Text

pub data Pool : Type 0 where
  cpu gpu : Pool

-- One value for each pool.
pub record ByPool {ℓ} (A : Type ℓ) : Type ℓ where
  pub of_cpu : A
  pub of_gpu : A

abbrev pub at_pool {ℓ} : {A : Type ℓ} → Pool → ByPool A → A
at_pool cpu d = d.of_cpu
at_pool gpu d = d.of_gpu

abbrev pub set_pool {ℓ} : {A : Type ℓ} → Pool → A → ByPool A → ByPool A
set_pool cpu x d = record d { of_cpu = x }
set_pool gpu x d = record d { of_gpu = x }

-- `is_live` tells mode "live-basic" from mode "none".
pub record LatencyModel : Type 0 where
  pub is_live : Bool
  pub fixed_seconds : ℕ
  pub warm_seconds : ByPool ℕ
  pub cold_seconds : ByPool ℕ
  pub hard_placement_seconds : ℕ
  pub cold_after_seconds : ℕ
  pub active_by_pool : ByPool ℕ
  pub last_end_by_pool : ByPool (Option ℕ)

unfoldable pub pool_for_job : TraceJob → Pool
pool_for_job job =
    if ltb 0 job.job.gpu_count
      || (contains (codes "gpu") (map to_lower job.gpu_type)
          || contains (codes "gpu") (map to_lower job.latency_class))
    then gpu
    else cpu

-- Neither a job of the pool has ended within the last `cold_after_seconds`, nor at all.
unfoldable pub is_cold : LatencyModel → ℕ → Option ℕ → Bool
is_cold self now none = true
is_cold self now (some last_end) = leb (last_end + self.cold_after_seconds) now

unfoldable pub pool_latency : LatencyModel → Pool → ℕ → ℕ
unfolding is_cold
pool_latency self pool now =
    if ltb 0 (at_pool pool self.active_by_pool)
    then at_pool pool self.warm_seconds
    else if is_cold self now (at_pool pool self.last_end_by_pool)
    then at_pool pool self.cold_seconds
    else at_pool pool self.warm_seconds

unfoldable pub live_latency : LatencyModel → Text → TraceJob → ℕ → ℕ
unfolding pool_latency pool_for_job
live_latency self cls job now =
    if text_eq cls (codes "hard_placement")
    then self.hard_placement_seconds
    else if text_eq cls (codes "gpu_warm")
    then at_pool gpu self.warm_seconds
    else if text_eq cls (codes "gpu_cold")
    then at_pool gpu self.cold_seconds
    else if text_eq cls (codes "cpu_warm")
    then at_pool cpu self.warm_seconds
    else if text_eq cls (codes "cpu_cold")
    then at_pool cpu self.cold_seconds
    else pool_latency self (pool_for_job job) now

unfoldable pub start_latency : LatencyModel → TraceJob → ℕ → ℕ
unfolding live_latency
start_latency self job now =
    if self.is_live
    then self.fixed_seconds + live_latency self (map to_lower job.latency_class) job now
    else self.fixed_seconds

unfoldable pub start_in_pool : TraceJob → LatencyModel → LatencyModel
unfolding pool_for_job
start_in_pool job self =
    let pool = pool_for_job job in
    record self {
      active_by_pool = set_pool pool (suc (at_pool pool self.active_by_pool)) self.active_by_pool;
    }

-- max(0, active - 1) is the subtraction of natural numbers.
unfoldable pub end_in_pool : TraceJob → ℕ → LatencyModel → LatencyModel
unfolding pool_for_job
end_in_pool job now self =
    let pool = pool_for_job job in
    record self {
      active_by_pool = set_pool pool (at_pool pool self.active_by_pool - 1) self.active_by_pool;
      last_end_by_pool = set_pool pool (some now) self.last_end_by_pool;
    }
