-- ===== src/Operator/Collector/Counts.antt =====
-- operator/collector.py: the bucket of each pool holds the reported jobs that belong there, in the
-- order of the report, and no others.
use kelpflux.Base.{
  ◌||◌, codes, ◌≡◌, refl, sym, ap, ◌∙◌, inl, inr, Bool, true, false, ◌&&◌, Option, none, some, List,
  [], ◌∷◌, ◌++◌, map, Text, text_eq, text_eq_iff, mem_text, filter, Bool-cases, Option-cases, Dict,
  lookup, insert, lookup-insert, if◌then◌else◌, arith,
}
use mathlib.Core.List.{append_assoc, append-nil}
use kelpflux.Operator.Models.{PartitionConfig}
use kelpflux.Operator.Fragmentation.Adapters.{joined}
use kelpflux.Operator.Collector.{Fields, null_text, classify_job}
use kelpflux.Operator.Collector.Tres.{can_scale_for_job}
use kelpflux.Operator.Collector.Servable.{is_servable, is_servable_lem}
use kelpflux.Operator.Collector.Buckets.{
  nonempty_or, normal_tres, fields_of, JobDoc, active_states, list_jobs, normalize_job, Bucket,
  no_jobs, bucket_of, BucketState, pending_bucket, running_bucket, normalized_state, add_job,
  initial_buckets, place, place_job, place_doc, place_docs, jobs_by_pool_and_state_rest,
}

-- The classified pool passes the test.
abbrev pub goes_to : (PartitionConfig → Bool) → Option PartitionConfig → Bool
goes_to test none = false
goes_to test (some pool) = test pool

abbrev pub is_pool : Text → PartitionConfig → Bool
is_pool key pool = text_eq pool.worker_statefulset key

abbrev pub is_pending_state : Option BucketState → Bool
is_pending_state (some pending_bucket) = true
is_pending_state _ = false

abbrev pub is_running_state : Option BucketState → Bool
is_running_state (some running_bucket) = true
is_running_state _ = false

abbrev pub one_if : Bool → Fields → List Fields
one_if test fields = if test then fields ∷ [] else []

-- The parts of a bucket, with the test that sends a job into each.
pub data Part : Type 0 where
  part_pending part_scale_pending part_running : Part

abbrev pub part_of : Part → Bucket → List Fields
part_of part_pending b = b.pending
part_of part_scale_pending b = b.scale_pending
part_of part_running b = b.running

abbrev pub has_part : Part → Text → Option BucketState → Fields → PartitionConfig → Bool
has_part part_pending key state fields pool = is_pending_state state && is_pool key pool
has_part part_scale_pending key state fields pool =
    is_pending_state state && (is_pool key pool && can_scale_for_job fields pool)
has_part part_running key state fields pool = is_running_state state && is_pool key pool

bucket_of-insert :
    (k key : Text) (b : Bucket) (result : Dict Bucket)
    → bucket_of key (insert k b result) ≡ (if text_eq k key then b else bucket_of key result)
bucket_of-insert k key b result = elim (Bool-cases (text_eq k key)) [
  | inl e ↦ rw (lookup-insert, e) refl
  | inr e ↦ rw (lookup-insert, e) refl
]

add_job-part :
    (part : Part) (key : Text) (state : BucketState) (fields : Fields) (pool : PartitionConfig)
    (bucket : Bucket)
    → is_pool key pool ≡ true
    → part_of part (add_job state fields pool bucket)
      ≡ part_of part bucket ++ one_if (has_part part key (some state) fields pool) fields
unfolding add_job
add_job-part part_pending key pending_bucket fields pool bucket e = rw e refl
add_job-part part_pending key running_bucket fields pool bucket e = sym (append-nil _)
add_job-part part_scale_pending key running_bucket fields pool bucket e = sym (append-nil _)
add_job-part part_scale_pending key pending_bucket fields pool bucket e =
    elim (Bool-cases (can_scale_for_job fields pool)) [
      | inl fits ↦ rw (e, fits) refl
      | inr not_fits ↦ rw (e, not_fits) (sym (append-nil _))
    ]
add_job-part part_running key pending_bucket fields pool bucket e = sym (append-nil _)
add_job-part part_running key running_bucket fields pool bucket e = rw e refl

elsewhere :
    (part : Part) (key : Text) (state : Option BucketState) (fields : Fields)
    (pool : PartitionConfig)
    → is_pool key pool ≡ false
    → has_part part key state fields pool ≡ false
elsewhere part_pending key state fields pool e = ground (arith, e)
elsewhere part_scale_pending key state fields pool e = ground (arith, e)
elsewhere part_running key state fields pool e = ground (arith, e)

no_state :
    (part : Part) (key : Text) (fields : Fields) (pool : PartitionConfig)
    → has_part part key none fields pool ≡ false
no_state part_pending key fields pool = refl
no_state part_scale_pending key fields pool = refl
no_state part_running key fields pool = refl

pub place-part :
    (part : Part) (key : Text) (state : Option BucketState) (fields : Fields)
    (pool : Option PartitionConfig) (result : Dict Bucket)
    → part_of part (bucket_of key (place state fields pool result))
      ≡ part_of part (bucket_of key result)
        ++ one_if (goes_to (has_part part key state fields) pool) fields
unfolding place
place-part part key state fields none result = sym (append-nil _)
place-part part key none fields (some pool) result = elim (Bool-cases (is_pool key pool)) [
  | inl e ↦
      rw (bucket_of-insert, e, no_state part key fields pool, (text_eq_iff _ _).0 e)
        (sym (append-nil _))
  | inr e ↦ rw (bucket_of-insert, e, no_state part key fields pool) (sym (append-nil _))
]
place-part part key (some state) fields (some pool) result = elim (Bool-cases (is_pool key pool)) [
  | inl e ↦
      rw (bucket_of-insert, e)
        (add_job-part part key state fields pool _ e
          ∙ ap
              (λ k.
                part_of part (bucket_of k result)
                ++ one_if (has_part part key (some state) fields pool) fields)
              ((text_eq_iff _ _).0 e))
  | inr e ↦
      rw (bucket_of-insert, e, elsewhere part key (some state) fields pool e) (sym (append-nil _))
]

-- The jobs of one part of the bucket of the pool `key`, picked from the report by the tests of the loop.
module _ (cfgs : List PartitionConfig) (part : Part) (key : Text) where
  abbrev is_placed : JobDoc → Bool
  is_placed job =
      goes_to (has_part part key (normalized_state job.job_state) (normalize_job job))
        (classify_job cfgs (normalize_job job))

  unlisted : (job : JobDoc) → mem_text job.job_state active_states ≡ false → is_placed job ≡ false
  unfolding normalized_state active_states mem_text
  unlisted job h =
      let stateless : normalized_state job.job_state ≡ none = ground (arith, h) in
      elim (Option-cases (classify_job cfgs (normalize_job job))) [
        | inl e ↦ rw e refl
        | inr (pool, e) ↦ rw (e, stateless) (no_state part key (normalize_job job) pool)
      ]

  append_one :
      (test : Bool) (job : JobDoc) (front : List Fields) (rest : List JobDoc)
      → (front ++ one_if test (normalize_job job)) ++ map normalize_job rest
        ≡ front ++ map normalize_job (if test then job ∷ rest else rest)
  append_one true job front rest =
      append_assoc front (normalize_job job ∷ []) (map normalize_job rest)
  append_one false job front rest = ap (λ l. l ++ map normalize_job rest) (append-nil front)

  place_docs-part :
      (docs : List JobDoc) (result : Dict Bucket)
      → part_of part (bucket_of key (place_docs cfgs docs result))
        ≡ part_of part (bucket_of key result) ++ map normalize_job (filter is_placed docs)
  unfolding place_docs place_doc
  place_docs-part [] result = sym (append-nil _)
  place_docs-part (job ∷ jobs) result = elim (Bool-cases (mem_text job.job_state active_states)) [
    | inr idle ↦ rw (idle, unlisted job idle) (place_docs-part jobs result)
    | inl active ↦ rw active (
        place_docs-part jobs (place_job cfgs job.job_state (normalize_job job) result)
        ∙ ap (λ l. l ++ map normalize_job (filter is_placed jobs))
            (place-part part key (normalized_state job.job_state) (normalize_job job)
              (classify_job cfgs (normalize_job job)) result)
        ∙ append_one (is_placed job) job _ (filter is_placed jobs))
  ]

  list_jobs-is_placed :
      (docs : List JobDoc) (partition : Text)
      → filter is_placed (list_jobs docs partition)
        ≡ filter (λ j. text_eq j.partition partition && is_placed j) docs
  unfolding list_jobs
  list_jobs-is_placed [] partition = refl
  list_jobs-is_placed (job ∷ jobs) partition =
      let rest = list_jobs-is_placed jobs partition in
      elim (Bool-cases (text_eq job.partition partition)) [
        | inr other ↦ rw other rest
        | inl same ↦ elim (Bool-cases (mem_text job.job_state active_states)) [
          | inr idle ↦ rw (same, idle, unlisted job idle) rest
          | inl active ↦ elim (Bool-cases (is_placed job)) [
            | inl mine ↦ rw (same, active, mine, rest) refl
            | inr theirs ↦ rw (same, active, theirs) rest
          ]
        ]
      ]

pub part_of-no_jobs : (part : Part) → part_of part no_jobs ≡ []
part_of-no_jobs part_pending = refl
part_of-no_jobs part_scale_pending = refl
part_of-no_jobs part_running = refl

pub initial_buckets-part :
    (part : Part) (key partition : Text) (ps : List PartitionConfig) (result : Dict Bucket)
    → part_of part (bucket_of key result) ≡ []
    → part_of part (bucket_of key (initial_buckets partition ps result)) ≡ []
unfolding initial_buckets
initial_buckets-part part key partition [] result h = h
initial_buckets-part part key partition (p ∷ ps) result h =
    elim (Bool-cases (text_eq p.partition partition)) [
      | inr other ↦ rw other (initial_buckets-part part key partition ps result h)
      | inl same ↦ rw same (
          initial_buckets-part part key partition ps (insert p.worker_statefulset no_jobs result)
            (elim (Bool-cases (is_pool key p)) [
              | inl e ↦ rw (bucket_of-insert, e) (part_of-no_jobs part)
              | inr e ↦ rw (bucket_of-insert, e) h
            ]))
    ]

-- What a part of a bucket is for: the jobs that wait, those of them that one more node could serve,
-- and those that run or complete.
abbrev pub is_for : Part → Text → Text → Text → PartitionConfig → Bool
is_for part_pending state reason tres pool = text_eq state (codes "PENDING")
is_for part_scale_pending state reason tres pool =
    text_eq state (codes "PENDING") && is_servable reason tres pool
is_for part_running state reason tres pool =
    text_eq state (codes "RUNNING") || text_eq state (codes "COMPLETING")

-- The job is classified to the pool `key`, for this part of its bucket.
abbrev pub belongs : List PartitionConfig → Part → Text → JobDoc → Bool
belongs cfgs part key job =
    goes_to
      (λ pool.
        is_pool key pool
        && is_for part job.job_state (nonempty_or (nonempty_or [] job.reason) job.state_reason)
            (normal_tres (nonempty_or [] job.tres_per_node)) pool)
      (classify_job cfgs (normalize_job job))

states_apart :
    (text_eq (codes "PENDING") (codes "RUNNING") ≡ false)
    × (text_eq (codes "PENDING") (codes "COMPLETING") ≡ false)
unfolding text_eq
states_apart = (refl, refl)

pending_only :
    (state : Text)
    → text_eq state (codes "PENDING") ≡ true
    → (text_eq state (codes "RUNNING") ≡ false) × (text_eq state (codes "COMPLETING") ≡ false)
pending_only state e = rw ((text_eq_iff _ _).0 e) states_apart

pub is_for_lem :
    (part : Part) (key state nodes features tres reason : Text) (pool : PartitionConfig)
    → has_part part key (normalized_state state) (fields_of nodes features tres reason) pool
      ≡ (is_pool key pool && is_for part state reason tres pool)
unfolding normalized_state mem_text
is_for_lem part_pending key state nodes features tres reason pool = ground arith
is_for_lem part_scale_pending key state nodes features tres reason pool =
    ground (arith, is_servable_lem nodes features tres reason pool)
is_for_lem part_running key state nodes features tres reason pool =
    elim (Bool-cases (text_eq state (codes "PENDING"))) [
      | inl e ↦ rw e (ground (arith, pending_only state e))
      | inr e ↦ rw e (ground arith)
    ]

belongs_lem :
    (cfgs : List PartitionConfig) (part : Part) (key : Text) (job : JobDoc)
    → is_placed cfgs part key job ≡ belongs cfgs part key job
unfolding normalize_job
belongs_lem cfgs part key job = elim (Option-cases (classify_job cfgs (normalize_job job))) [
  | inl e ↦ rw e refl
  | inr (pool, e) ↦ rw e (
      is_for_lem part key job.job_state (nonempty_or null_text job.nodes) (joined job.features)
        (normal_tres (nonempty_or [] job.tres_per_node))
        (nonempty_or (nonempty_or [] job.reason) job.state_reason) pool)
]

filter-same :
    (p q : JobDoc → Bool) (docs : List JobDoc)
    → ((job : JobDoc) → p job ≡ q job)
    → filter p docs ≡ filter q docs
filter-same p q [] h = refl
filter-same p q (job ∷ docs) h = rw (h job, filter-same p q docs h) refl

-- Each part of a pool's bucket holds, in the order of the report, exactly the reported jobs of the
-- partition that are classified to the pool with the key and that the part is for: those in state
-- PENDING; those in state PENDING for the reason `resources` that ask for no more cores and memory
-- than a node of the pool has, where it names a limit; and those in state RUNNING or COMPLETING.
pub jobs_by_pool_and_state_rest-part :
    (cfgs : List PartitionConfig) (docs : List JobDoc) (partition : Text) (part : Part) (key : Text)
    → part_of part (bucket_of key (jobs_by_pool_and_state_rest cfgs docs partition))
      ≡ map normalize_job
          (filter (λ j. text_eq j.partition partition && belongs cfgs part key j) docs)
unfolding jobs_by_pool_and_state_rest lookup
jobs_by_pool_and_state_rest-part cfgs docs partition part key =
    place_docs-part cfgs part key (list_jobs docs partition) (initial_buckets partition cfgs [])
    ∙ ap (λ l. l ++ map normalize_job (filter (is_placed cfgs part key) (list_jobs docs partition)))
        (initial_buckets-part part key partition cfgs [] (part_of-no_jobs part))
    ∙ ap (map normalize_job) (
        list_jobs-is_placed cfgs part key docs partition
        ∙ filter-same _ _ docs
            (λ j. ap (λ b. text_eq j.partition partition && b) (belongs_lem cfgs part key j)))
