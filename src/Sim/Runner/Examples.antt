-- ===== src/Sim/Runner/Examples.antt =====
-- sim/runner.py: a run of two jobs on one GPU, the second of which waits for the first.
use kelpflux.Base.{
  ℕ, ◌+◌, ◌≡◌, refl, false, none, some, List, [], ◌∷◌, Text, codes, sum_by, text_eq, text_le,
  lookup, insert, erase, contains, starts_with, sorted, insert_sorted, arith,
}
use kelpflux.Operator.Fragmentation.Adapters.{to_lower}
use kelpflux.Sim.Cluster.{
  Cluster, new_cluster, new_nodes, new_node, ram_fits, ram_ok, free_whole_gpus, update_at,
  change_gpus, change_nodes, hosts, change_ram, reserve_ram, commit, release, release_plan,
  used_mps, total_mps, free_mps_total,
}
use kelpflux.Sim.Cluster.Planner.{
  is_fraction, better, best_gpu, take_best, plan_fraction, plan, carry_out, try_allocate,
}
use kelpflux.Sim.Latency.{
  TraceJob, LatencyModel, pool_for_job, start_latency, start_in_pool, end_in_pool,
}
use kelpflux.Sim.Schedulers.{fcfs, by_submit}
use kelpflux.Sim.Runner.{
  run, run_events, start_run, push_submits, push, record_submits, record_submit, record_start,
  record_end, set_record, sample_util, sample, handle_event, handle, add_pending, end_latency,
  try_dispatch, dispatch_jobs, start_job, remove, job_eq, heappop, earlier, other, before,
  first_submitted, jobs_by_id,
}
use kelpflux.Sim.Runner.Weights.{job_weight}
use kelpflux.Sim.Runner.Traces.{ended_in, run-accounts}
use kelpflux.Sim.Runner.Stories.{IsTold, run-IsTold}

abbrev one_gpu : Cluster
one_gpu = new_cluster 1 100 1 1 ((codes "rtx4070", 62) ∷ [])

abbrev long_job : TraceJob
long_job = record {
  job = record { job_id = codes "a"; gpu_count = 1; mps_req = 100; ram_req = 1 };
  gpu_type = codes "rtx4070";
  submit_ts = 0;
  runtime = 50;
  latency_class = [];
}

abbrev late_job : TraceJob
late_job = record long_job {
  job = record { job_id = codes "b"; gpu_count = 1; mps_req = 30; ram_req = 1 };
  submit_ts = 10;
}

abbrev two_jobs : List TraceJob
two_jobs = long_job ∷ late_job ∷ []

-- LatencyModel.none()
abbrev no_latency : LatencyModel
no_latency = record {
  is_live = false;
  fixed_seconds = 0;
  warm_seconds = record { of_cpu = 0; of_gpu = 0 };
  cold_seconds = record { of_cpu = 0; of_gpu = 0 };
  hard_placement_seconds = 0;
  cold_after_seconds = 300;
  active_by_pool = record { of_cpu = 0; of_gpu = 0 };
  last_end_by_pool = record { of_cpu = none; of_gpu = none };
}

run-accounts_example :
    ((run 4 fcfs two_jobs one_gpu no_latency).events ≡ [])
    × ((w : Text → ℕ)
        → sum_by (job_weight w) (run 4 fcfs two_jobs one_gpu no_latency).pending
            + sum_by w (ended_in fcfs two_jobs one_gpu no_latency 4)
          ≡ sum_by (job_weight w) two_jobs)
run-accounts_example = run-accounts fcfs two_jobs one_gpu no_latency 4 (omega arith)

run-IsTold_example : IsTold late_job (run 4 fcfs two_jobs one_gpu no_latency)
unfolding text_eq
run-IsTold_example =
    run-IsTold fcfs two_jobs one_gpu no_latency 4 1 late_job ((refl, tt), (tt, tt)) (omega arith)
      refl

-- The second job starts when the first has ended.
late_start :
    lookup (codes "b") (run 4 fcfs two_jobs one_gpu no_latency).metrics.records
    ≡ some (record { submit_ts = 10; start_ts = some 50; end_ts = some 100 })
unfolding text_eq text_le lookup insert erase contains starts_with sorted insert_sorted to_lower
    new_cluster new_nodes new_node ram_fits update_at change_gpus change_nodes hosts change_ram
    reserve_ram commit release release_plan used_mps total_mps free_mps_total is_fraction better
    best_gpu take_best plan_fraction plan carry_out try_allocate pool_for_job start_latency
    start_in_pool end_in_pool fcfs by_submit run run_events start_run push_submits push
    record_submits record_submit record_start record_end set_record sample_util sample handle_event
    handle add_pending end_latency try_dispatch dispatch_jobs start_job remove job_eq heappop
    earlier other before first_submitted jobs_by_id ram_ok free_whole_gpus
late_start = refl
