-- ===== src/Operator/Collector/States.antt =====
-- operator/collector.py, the busy nodes of a pool and collect_all_partition_states.
-- What the cluster answers is a parameter, `none` where the call raises.
use kelpflux.Base.{
  ℕ, Bool, not, ◌&&◌, Option, none, some, List, [], ◌∷◌, reverse, map, Text, codes, text_eq,
  mem_text, strip, starts_with, lines_of, filter, any, length, Dict, insert, ltb, if◌then◌else◌,
}
use kelpflux.Operator.Models.{PartitionConfig, PartitionState}
use kelpflux.Operator.Fragmentation.Adapters.{TextOrList, text, texts, to_lower}
use kelpflux.Operator.Fragmentation.Parsers.{int_of}
use kelpflux.Operator.Collector.Buckets.{
  JobDoc, Bucket, bucket_of, jobs_by_pool_and_state_rest, jobs_by_pool_and_state_exec,
}

pub record NodeDoc : Type 0 where
  pub name : Text
  pub state : TextOrList

abbrev pub busy_states : List Text
busy_states = codes "allocated" ∷ codes "mixed" ∷ codes "completing" ∷ []

unfoldable pub node_states : TextOrList → List Text
unfolding to_lower
node_states (texts raw) = map (map to_lower) raw
node_states (text []) = []
node_states (text (c ∷ raw)) = map to_lower (c ∷ raw) ∷ []

unfoldable pub is_busy_node : Text → NodeDoc → Bool
unfolding node_states
is_busy_node prefix node =
    starts_with node.name prefix && any (λ s. mem_text s busy_states) (node_states node.state)

unfoldable pub get_busy_nodes_rest : List NodeDoc → PartitionConfig → ℕ
unfolding is_busy_node
get_busy_nodes_rest nodes partition_cfg =
    length (filter (is_busy_node partition_cfg.worker_statefulset) nodes)

-- int() of the last line that is not blank. The count that awk prints has no sign.
unfoldable pub last_count : List Text → Option ℕ
unfolding int_of
last_count [] = some 0
last_count (last ∷ others) = elim (int_of last) [
  | none ↦ none
  | some (sign, n) ↦ some (if sign then 0 else n)
]

-- `output` is what sinfo and awk print.
unfoldable pub get_busy_nodes_exec : Text → Option ℕ
unfolding last_count
get_busy_nodes_exec output =
    last_count (reverse (filter (λ line. not (text_eq (strip line) [])) (lines_of output)))

-- The command's output, `int(output or "-1")`; the outer option is `none` where int() raises.
unfoldable pub get_checkpoint_age_seconds : Text → Text → Option (Option ℕ)
unfolding int_of
get_checkpoint_age_seconds [] output = some none
get_checkpoint_age_seconds (c ∷ checkpoint_path) [] = some none
get_checkpoint_age_seconds (c ∷ checkpoint_path) (d ∷ output) = elim (int_of (d ∷ output)) [
  | none ↦ none
  | some (sign, age) ↦ some (if sign && ltb 0 age then none else some age)
]

-- What the cluster answers in one collection: jobs by partition, nodes and replicas by pool.
pub data Answers : Type 0 where
  rest_answers : (Text → Option (List JobDoc)) → (Text → Option (List NodeDoc)) → Answers
  exec_answers : (Text → Option Text) → (Text → Option Text) → Answers

unfoldable pub jobs_by_pool_and_state : Answers → List PartitionConfig → Text → Option (Dict Bucket)
jobs_by_pool_and_state (rest_answers jobs nodes) cfgs partition = elim (jobs partition) [
  | none ↦ none
  | some docs ↦ some (jobs_by_pool_and_state_rest cfgs docs partition)
]
jobs_by_pool_and_state (exec_answers squeue sinfo) cfgs partition = elim (squeue partition) [
  | none ↦ none
  | some output ↦ some (jobs_by_pool_and_state_exec cfgs output partition)
]

unfoldable pub get_busy_nodes : Answers → PartitionConfig → Option ℕ
unfolding get_busy_nodes_rest get_busy_nodes_exec
get_busy_nodes (rest_answers jobs nodes) p = elim (nodes p.worker_statefulset) [
  | none ↦ none
  | some docs ↦ some (get_busy_nodes_rest docs p)
]
get_busy_nodes (exec_answers squeue sinfo) p = elim (sinfo p.worker_statefulset) [
  | none ↦ none
  | some output ↦ get_busy_nodes_exec output
]

abbrev pub state_of : PartitionConfig → ℕ → ℕ → Bucket → PartitionState
state_of p replicas busy bucket = record {
  partition = p.partition;
  worker_statefulset = p.worker_statefulset;
  current_replicas = replicas;
  pending_jobs = length bucket.pending;
  running_jobs = length bucket.running;
  busy_nodes = busy;
  scale_pending_jobs = length bucket.scale_pending;
}

-- One entry of the dictionary; `none` as soon as a call raises.
unfoldable pub state_with :
    PartitionConfig → Option ℕ → Option ℕ → Option (Dict Bucket) → Option PartitionState
state_with p (some replicas) (some busy) (some buckets) =
    some (state_of p replicas busy (bucket_of p.worker_statefulset buckets))
state_with p _ _ _ = none

module _ (answers : Answers) (get_replicas : Text → Option ℕ)
    (partition_cfgs : List PartitionConfig) where
  unfoldable pub collect_state : PartitionConfig → Option PartitionState
  unfolding state_with jobs_by_pool_and_state get_busy_nodes
  collect_state p =
      state_with p (get_replicas p.worker_statefulset) (get_busy_nodes answers p)
        (jobs_by_pool_and_state answers partition_cfgs p.partition)

  unfoldable pub collect_states :
      List PartitionConfig → Dict PartitionState → Option (Dict PartitionState)
  unfolding collect_state
  collect_states [] states = some states
  collect_states (p ∷ ps) states =
      let later =
        λ (state : PartitionState). collect_states ps (insert p.worker_statefulset state states) in
      elim (collect_state p) [ none ↦ none | some state ↦ later state ]

  unfoldable pub collect_all_partition_states : Option (Dict PartitionState)
  unfolding collect_states
  collect_all_partition_states = collect_states partition_cfgs []
