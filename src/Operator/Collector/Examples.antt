-- ===== src/Operator/Collector/Examples.antt =====
-- operator/collector.py: the theorems on a pool with a blocked job and a job that completes.
use kelpflux.Base.{
  ◌≡◌, ◌≢◌, refl, ◌&&◌, Option, none, some, List, [], ◌∷◌, ◌++◌, lines_of, map, Text, codes,
  text_eq, mem_text, starts_with, contains, strip, strip_left, split_on, filter, lookup, insert,
  number_from, mem-cons_self, mem-cons_of_mem, arith,
}
use kelpflux.Operator.Models.{PartitionState, scale_down}
use kelpflux.Operator.Policy.{safe_floor, evaluate}
use kelpflux.Operator.Samples.{pool_name, sample_cfg, sample_policy}
use kelpflux.Operator.Fragmentation.Adapters.{text, to_lower}
use kelpflux.Operator.Fragmentation.Parsers.{int_of, break_at}
use kelpflux.Operator.Collector
use kelpflux.Operator.Collector.Tres
use kelpflux.Operator.Collector.Buckets.{
  JobDoc, normalize_job, bucket_of, jobs_by_pool_and_state_rest, jobs_by_pool_and_state_exec,
  normalized_state, place,
}
use kelpflux.Operator.Collector.States.{NodeDoc, rest_answers, collect_state}
use kelpflux.Operator.Collector.Counts.{
  part_of, part_scale_pending, belongs, jobs_by_pool_and_state_rest-part,
}
use kelpflux.Operator.Collector.Lines.{
  row_fields, row_belongs, rows, jobs_by_pool_and_state_exec-part,
}
use kelpflux.Operator.Collector.Demand.{
  IsReported, collect_state-scale_up, collect_state-running_stays,
}

abbrev blocked_doc : JobDoc
blocked_doc = record {
  partition = codes "gpu";
  job_state = codes "PENDING";
  nodes = none;
  features = text (codes "rtx4070");
  tres_per_node = some (codes "cpu=2,mem=4G");
  state_reason = some (codes "Resources");
  reason = none;
}

abbrev ending_doc : JobDoc
ending_doc = record blocked_doc {
  job_state = codes "COMPLETING";
  nodes = some (codes "worker-gpu-0");
  state_reason = some (codes "None");
}

abbrev sample_docs : List JobDoc
sample_docs = blocked_doc ∷ ending_doc ∷ []

jobs_by_pool_and_state_rest-part_example :
    part_of part_scale_pending (
      bucket_of pool_name (jobs_by_pool_and_state_rest (sample_cfg ∷ []) sample_docs (codes "gpu")))
    ≡ map normalize_job (
        filter
          (λ j.
            text_eq j.partition (codes "gpu")
            && belongs (sample_cfg ∷ []) part_scale_pending pool_name j)
          sample_docs)
jobs_by_pool_and_state_rest-part_example =
    jobs_by_pool_and_state_rest-part (sample_cfg ∷ []) sample_docs (codes "gpu") part_scale_pending
      pool_name

-- What squeue prints of two jobs, one of which has a node, and of which neither asks for a GPU.
abbrev sample_output : Text
sample_output =
    codes "7|PENDING||rtx4070|N/A|(Resources)"
    ++ 10 ∷ codes "8|COMPLETING|worker-gpu-0|(null)|N/A|worker-gpu-0"

jobs_by_pool_and_state_exec-part_example :
    part_of part_scale_pending (
      bucket_of pool_name
        (jobs_by_pool_and_state_exec (sample_cfg ∷ []) sample_output (codes "gpu")))
    ≡ map row_fields (
        filter
          (row_belongs (sample_cfg ∷ []) part_scale_pending pool_name)
          (rows (lines_of sample_output)))
jobs_by_pool_and_state_exec-part_example =
    jobs_by_pool_and_state_exec-part (sample_cfg ∷ []) sample_output (codes "gpu")
      part_scale_pending pool_name

abbrev sample_answers : Text → Option (List JobDoc)
sample_answers partition = some sample_docs

abbrev no_nodes : Text → Option (List NodeDoc)
no_nodes key = some []

abbrev collected_state : PartitionState
collected_state = record {
  partition = codes "gpu";
  worker_statefulset = pool_name;
  current_replicas = 1;
  pending_jobs = 1;
  running_jobs = 1;
  busy_nodes = 0;
  scale_pending_jobs = 1;
}

collected_state_lem :
    collect_state
      (rest_answers sample_answers no_nodes)
      (λ key. some 1)
      (sample_cfg ∷ [])
      sample_cfg
    ≡ some collected_state
unfolding collect_state jobs_by_pool_and_state_rest Collector.classify_job text_eq mem_text
    starts_with contains strip strip_left split_on normalize_job lookup insert number_from to_lower
    int_of break_at Tres.can_scale_for_job place
collected_state_lem = refl

collect_state-scale_up_example :
    (job : JobDoc) × IsReported sample_answers no_nodes
      (λ key. some 1)
      (sample_cfg ∷ [])
      sample_cfg
      collected_state
      sample_policy
      none
      none
      collected_state_lem
      part_scale_pending
      job
unfolding evaluate safe_floor
collect_state-scale_up_example =
    collect_state-scale_up sample_answers no_nodes (λ key. some 1) (sample_cfg ∷ []) sample_cfg
      collected_state sample_policy none none collected_state_lem (omega arith) refl

collect_state-running_stays_example :
    (evaluate sample_policy sample_cfg collected_state none none).action ≢ scale_down
unfolding Collector.classify_job text_eq mem_text starts_with normalize_job lookup normalized_state
collect_state-running_stays_example =
    collect_state-running_stays sample_answers no_nodes (λ key. some 1) (sample_cfg ∷ []) sample_cfg
      collected_state sample_policy none none collected_state_lem (omega arith) ending_doc
      (sample_docs, refl, mem-cons_of_mem blocked_doc mem-cons_self, refl)
