-- ===== src/Operator/Collector/Buckets.antt =====
-- operator/collector.py, _jobs_by_pool_and_state: the jobs of a partition by pool and state, from
-- Slurm's REST documents (operator/slurm.py, list_jobs and _normalize_job) or from squeue's lines.
use kelpflux.Base.{
  ◌&&◌, Option, none, some, List, [], ◌∷◌, ◌++◌, Text, codes, text_eq, mem_text, strip,
  split_at_most, lines_of, filter, Dict, lookup, insert, if◌then◌else◌,
}
use kelpflux.Operator.Models.{PartitionConfig}
use kelpflux.Operator.Fragmentation.Adapters.{TextOrList, joined}
use kelpflux.Operator.Collector.{Fields, null_text, classify_job}
use kelpflux.Operator.Collector.Tres.{can_scale_for_job}

-- The document of a job, as far as the collector reads it; `none` where the key is absent or null.
pub record JobDoc : Type 0 where
  pub partition : Text
  pub job_state : Text
  pub nodes : Option Text
  pub features : TextOrList
  pub tres_per_node : Option Text
  pub state_reason : Option Text
  pub reason : Option Text

-- x or d
abbrev pub nonempty_or : Text → Option Text → Text
nonempty_or d none = d
nonempty_or d (some []) = d
nonempty_or d (some (c ∷ s)) = c ∷ s

unfoldable pub active_states : List Text
active_states = codes "PENDING" ∷ codes "RUNNING" ∷ codes "COMPLETING" ∷ []

-- The list comprehension of SlurmRestClient.list_jobs, on the documents that the controller answers.
unfoldable pub list_jobs : List JobDoc → Text → List JobDoc
unfolding active_states
list_jobs docs partition =
    filter (λ j. text_eq j.partition partition && mem_text j.job_state active_states) docs

unfoldable pub normal_tres : Text → Text
normal_tres tres =
    if mem_text tres (codes "N/A" ∷ codes "none" ∷ codes "None" ∷ []) then [] else tres

abbrev pub fields_of : Text → Text → Text → Text → Fields
fields_of nodelist features tres_per_node reason =
    (codes "NodeList", nodelist)
    ∷ (codes "Features", features)
    ∷ (codes "TresPerNode", tres_per_node)
    ∷ (codes "Reason", reason)
    ∷ []

unfoldable pub normalize_job : JobDoc → Fields
unfolding joined normal_tres
normalize_job job =
    fields_of (nonempty_or null_text job.nodes) (joined job.features)
      (normal_tres (nonempty_or [] job.tres_per_node))
      (nonempty_or (nonempty_or [] job.reason) job.state_reason)

pub record Bucket : Type 0 where
  pub pending : List Fields
  pub scale_pending : List Fields
  pub running : List Fields

abbrev pub no_jobs : Bucket
no_jobs = record { pending = []; scale_pending = []; running = [] }

-- dict.get(key, {}) and setdefault(key, ...): the bucket under a key
abbrev pub bucket_or : Option Bucket → Bucket
bucket_or none = no_jobs
bucket_or (some bucket) = bucket

abbrev pub bucket_of : Text → Dict Bucket → Bucket
bucket_of key result = bucket_or (lookup key result)

pub data BucketState : Type 0 where
  pending_bucket running_bucket : BucketState

-- COMPLETING counts as RUNNING; `none` for a state that the loop skips.
unfoldable pub normalized_state : Text → Option BucketState
normalized_state state =
    if text_eq state (codes "PENDING")
    then some pending_bucket
    else if mem_text state (codes "RUNNING" ∷ codes "COMPLETING" ∷ [])
    then some running_bucket
    else none

unfoldable pub add_job : BucketState → Fields → PartitionConfig → Bucket → Bucket
add_job running_bucket fields pool bucket = record bucket {
  running = bucket.running ++ fields ∷ [];
}
add_job pending_bucket fields pool bucket = record bucket {
  pending = bucket.pending ++ fields ∷ [];
  scale_pending =
      if can_scale_for_job fields pool
      then bucket.scale_pending ++ fields ∷ []
      else bucket.scale_pending;
}

-- The bucket of every pool of the partition, empty.
unfoldable pub initial_buckets : Text → List PartitionConfig → Dict Bucket → Dict Bucket
initial_buckets partition [] result = result
initial_buckets partition (p ∷ ps) result =
    initial_buckets partition ps
      (if text_eq p.partition partition then insert p.worker_statefulset no_jobs result else result)

-- A classified job goes to its pool's bucket; one in another state only makes sure that there is one.
unfoldable pub place :
    Option BucketState → Fields → Option PartitionConfig → Dict Bucket → Dict Bucket
unfolding add_job
place state fields none result = result
place none fields (some pool) result =
    insert pool.worker_statefulset (bucket_of pool.worker_statefulset result) result
place (some state) fields (some pool) result =
    insert pool.worker_statefulset
      (add_job state fields pool (bucket_of pool.worker_statefulset result)) result

module _ (partition_cfgs : List PartitionConfig) where
  abbrev pub place_job : Text → Fields → Dict Bucket → Dict Bucket
  place_job state fields result =
      place (normalized_state state) fields (classify_job partition_cfgs fields) result

  -- The REST loop tests the state before it classifies the job.
  unfoldable pub place_doc : JobDoc → Dict Bucket → Dict Bucket
  unfolding normalize_job active_states normalized_state
  place_doc job result =
      if mem_text job.job_state active_states
      then place_job job.job_state (normalize_job job) result
      else result

  unfoldable pub place_docs : List JobDoc → Dict Bucket → Dict Bucket
  unfolding place_doc
  place_docs [] result = result
  place_docs (job ∷ jobs) result = place_docs jobs (place_doc job result)

  unfoldable pub jobs_by_pool_and_state_rest : List JobDoc → Text → Dict Bucket
  unfolding place_docs initial_buckets list_jobs
  jobs_by_pool_and_state_rest docs partition =
      place_docs (list_jobs docs partition) (initial_buckets partition partition_cfgs [])

  -- The six parts of a line; a shorter one is skipped.
  unfoldable pub place_parts : List Text → Dict Bucket → Dict Bucket
  unfolding normalized_state
  place_parts (jobid ∷ state ∷ nodelist ∷ features ∷ tres ∷ reason ∷ []) result =
      place_job state (fields_of nodelist features tres reason) result
  place_parts parts result = result

  unfoldable pub place_line : Text → Dict Bucket → Dict Bucket
  unfolding place_parts
  place_line [] result = result
  place_line (c ∷ line) result = place_parts (split_at_most b'|' 5 (c ∷ line)) result

  unfoldable pub place_lines : List Text → Dict Bucket → Dict Bucket
  unfolding place_line
  place_lines [] result = result
  place_lines (line ∷ lines) result = place_lines lines (place_line (strip line) result)

  -- `output` is what squeue prints for the partition.
  unfoldable pub jobs_by_pool_and_state_exec : Text → Text → Dict Bucket
  unfolding place_lines initial_buckets
  jobs_by_pool_and_state_exec output partition =
      place_lines (lines_of output) (initial_buckets partition partition_cfgs [])
