-- ===== src/Operator/Collector.antt =====
-- operator/collector.py, the classification of jobs: which pool a job of the controller belongs to.
-- The fields of a job are a dictionary of texts, as in the source. Python sets are lists.
pub mod Tres
pub mod Buckets
pub mod States
pub mod Servable
pub mod Counts
pub mod Lines
pub mod Demand
mod Examples
use kelpflux.Base.{
  Bool, false, not, ◌&&◌, ◌||◌, Option, none, some, List, [], ◌∷◌, ◌++◌, Text, codes, text_eq,
  mem_text, starts_with, contains, split_on, filter, any, Dict, lookup, if◌then◌else◌,
}
use kelpflux.Operator.Models.{PartitionConfig}

abbrev pub Fields : Type 0
Fields = Dict Text

abbrev pub text_or : Text → Option Text → Text
text_or d none = d
text_or d (some s) = s

-- fields.get(key, "")
abbrev pub field : Text → Fields → Text
field key fields = text_or [] (lookup key fields)

abbrev pub null_text : Text
null_text = codes "(null)"

unfoldable pub csv_set : Text → List Text
csv_set value =
    if mem_text value ([] ∷ null_text ∷ codes "N/A" ∷ [])
    then []
    else filter (λ part. not (text_eq part []) && not (text_eq part null_text))
        (split_on b',' value)

unfoldable pub gres_match : Text → List Text → Bool
gres_match value needles =
    if mem_text value ([] ∷ null_text ∷ [])
    then false
    else any (λ needle. contains needle value) needles

-- The features of a job, under any of the names that the source looks for.
unfoldable pub features_of : Fields → List Text
unfolding csv_set
features_of fields =
    csv_set (field (codes "Features") fields)
    ++ (csv_set (field (codes "Feature") fields) ++ csv_set (field (codes "Constraints") fields))

unfoldable pub gres_blob : Fields → Text
gres_blob fields =
    field (codes "TresPerNode") fields
    ++ (codes " "
        ++ (field (codes "TresPerJob") fields
            ++ (codes " "
                ++ (field (codes "TresBind") fields
                    ++ (codes " " ++ field (codes "TRES") fields)))))

-- for pool in pools: if test(pool): return pool
unfoldable pub first_pool : (PartitionConfig → Bool) → List PartitionConfig → Option PartitionConfig
first_pool test [] = none
first_pool test (pool ∷ pools) = if test pool then some pool else first_pool test pools

unfoldable pub on_nodes_of : Text → PartitionConfig → Bool
on_nodes_of node_list pool = starts_with node_list pool.worker_statefulset

-- An empty tuple of features, or of GRES names, matches nothing.
unfoldable pub asks_for : List Text → Text → PartitionConfig → Bool
unfolding gres_match
asks_for features blob pool =
    any (λ f. mem_text f features) pool.match_features || gres_match blob pool.match_gres

abbrev pub or_pool : Option PartitionConfig → Option PartitionConfig → Option PartitionConfig
or_pool none other = other
or_pool (some pool) other = some pool

unfoldable pub by_nodes : Text → List PartitionConfig → Option PartitionConfig
unfolding first_pool on_nodes_of
by_nodes node_list pools =
    if mem_text node_list ([] ∷ null_text ∷ [])
    then none
    else first_pool (on_nodes_of node_list) pools

unfoldable pub classify_job : List PartitionConfig → Fields → Option PartitionConfig
unfolding by_nodes first_pool asks_for features_of gres_blob
classify_job pool_order fields = or_pool (by_nodes (field (codes "NodeList") fields) pool_order) (
    or_pool (first_pool (asks_for (features_of fields) (gres_blob fields)) pool_order)
      (first_pool (λ pool. pool.fallback) pool_order))
