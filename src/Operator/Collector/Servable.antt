-- ===== src/Operator/Collector/Servable.antt =====
-- operator/collector.py, _can_scale_for_job: what a job must say for one more node to serve it, written
-- out.
use kelpflux.Base.{
  ℕ, ◌*◌, max, leb, ltb, ◌==◌, ◌||◌, ◌&&◌, not, Bool, true, false, Option, none, some, ◌≡◌, refl,
  map, Text, text_eq, codes, strip, lookup, if◌then◌else◌, arith,
}
use kelpflux.Operator.Models.{PartitionConfig}
use kelpflux.Operator.Fragmentation.Adapters.{to_lower}
use kelpflux.Operator.Fragmentation.Parsers.{Signed}
use kelpflux.Operator.Collector.Tres.{
  MemoryTres, Requested, requested, exceeds, at_least_one, memory_exceeds, tres_per_node_fits,
  strip_parens, waits_for_resources, can_scale_for_job,
}
use kelpflux.Operator.Collector.Buckets.{fields_of}

-- The reason that Slurm gives for a job that waits, without blanks and parentheses, in small letters.
abbrev plain_reason : Text → Text
plain_reason reason = map to_lower (strip_parens (strip reason))

abbrev asks_at_most : Signed → ℕ → Bool
asks_at_most (true, n) limit = true
asks_at_most (false, n) limit = leb n limit

abbrev cores_of : Signed → ℕ
cores_of (true, n) = 1
cores_of (false, n) = max n 1

-- The memory asked for, in megabytes, times the denominators.
abbrev needs_at_most : Signed → Option MemoryTres → ℕ → Bool
needs_at_most cpu none limit = true
needs_at_most cpu (some m) limit =
    leb (m.amount.numerator * m.factor.numerator * (if m.per_cpu then cores_of cpu else 1))
      (limit * (m.amount.denominator * m.factor.denominator))

-- An empty node of the pool has the cores and the memory asked for; 0 stands for no limit.
abbrev has_room : Requested → PartitionConfig → Bool
has_room r pool =
    (pool.cpus_per_node == 0 || asks_at_most r.requested_cpu pool.cpus_per_node)
    && (pool.memory_mb_per_node == 0
        || needs_at_most r.requested_cpu r.memory_tres pool.memory_mb_per_node)

-- The job waits for resources, and asks for no more than an empty node has.
abbrev pub is_servable : Text → Text → PartitionConfig → Bool
is_servable reason tres pool =
    text_eq (plain_reason reason) (codes "resources") && has_room (requested tres) pool

asks_at_most_lem :
    (cpu : Signed) (limit : ℕ)
    → not (ltb 0 limit && exceeds cpu limit) ≡ (limit == 0 || asks_at_most cpu limit)
asks_at_most_lem (true, n) limit = ground arith
asks_at_most_lem (false, n) limit = ground arith

cores_of_lem : (cpu : Signed) → at_least_one cpu ≡ cores_of cpu
cores_of_lem (true, n) = refl
cores_of_lem (false, n) = refl

needs_at_most_lem :
    (cpu : Signed) (m : Option MemoryTres) (limit : ℕ)
    → not (ltb 0 limit && memory_exceeds cpu m limit) ≡ (limit == 0 || needs_at_most cpu m limit)
unfolding memory_exceeds
needs_at_most_lem cpu none limit = ground arith
needs_at_most_lem cpu (some m) limit = rw (cores_of_lem cpu) (ground arith)

pub is_servable_lem :
    (nodes features tres reason : Text) (pool : PartitionConfig)
    → can_scale_for_job (fields_of nodes features tres reason) pool ≡ is_servable reason tres pool
unfolding can_scale_for_job waits_for_resources tres_per_node_fits lookup text_eq
is_servable_lem nodes features tres reason pool =
    let r = requested tres in
    ground (
      arith,
      asks_at_most_lem r.requested_cpu pool.cpus_per_node,
      needs_at_most_lem r.requested_cpu r.memory_tres pool.memory_mb_per_node,
    )
