-- ===== src/Operator/Collector/Lines.antt =====
-- operator/collector.py, _jobs_by_pool_and_state_exec: what the buckets hold of squeue's output.
use kelpflux.Base.{
  ◌≡◌, refl, sym, ap, ◌∙◌, inl, inr, Bool, ◌&&◌, Option, none, some, List, [], ◌∷◌, ◌++◌, map, Text,
  strip, split_at_most, lines_of, filter, Bool-cases, Option-cases, Dict, lookup,
}
use mathlib.Core.List.{append_assoc, append-nil}
use kelpflux.Operator.Models.{PartitionConfig}
use kelpflux.Operator.Collector.{Fields, classify_job}
use kelpflux.Operator.Collector.Buckets.{
  fields_of, Bucket, bucket_of, normalized_state, initial_buckets, place_parts, place_line,
  place_lines, jobs_by_pool_and_state_exec,
}
use kelpflux.Operator.Collector.Counts.{
  Part, part_of, one_if, goes_to, is_pool, has_part, is_for, is_for_lem, place-part,
  part_of-no_jobs, initial_buckets-part,
}

-- A line of the report: its six texts, less the job's id.
pub record Row : Type 0 where
  pub state : Text
  pub nodelist : Text
  pub features : Text
  pub tres_per_node : Text
  pub reason : Text

abbrev pub row_fields : Row → Fields
row_fields row = fields_of row.nodelist row.features row.tres_per_node row.reason

-- Six texts make a row, and no other number.
abbrev row_of : List Text → Option Row
row_of (jobid ∷ state ∷ nodelist ∷ features ∷ tres ∷ reason ∷ []) = some (record {
  state = state;
  nodelist = nodelist;
  features = features;
  tres_per_node = tres;
  reason = reason;
})
row_of parts = none

abbrev add_row : Option Row → List Row → List Row
add_row none rows = rows
add_row (some row) rows = row ∷ rows

-- The rows of the report. A line, without blanks at its ends, is cut at its first five bars.
abbrev pub rows : List Text → List Row
rows [] = []
rows (line ∷ lines) = add_row (row_of (split_at_most b'|' 5 (strip line))) (rows lines)

module _ (cfgs : List PartitionConfig) (part : Part) (key : Text) where
  -- The row's job is classified to the pool `key`, for this part of its bucket.
  abbrev pub row_belongs : Row → Bool
  row_belongs row =
      goes_to (λ pool. is_pool key pool && is_for part row.state row.reason row.tres_per_node pool)
        (classify_job cfgs (row_fields row))

  -- What the row of these texts, if any, adds to the part.
  abbrev added : List Text → List Fields
  added parts = map row_fields (filter row_belongs (add_row (row_of parts) []))

  goes_to_lem :
      (row : Row)
      → goes_to
          (has_part part key (normalized_state row.state) (row_fields row))
          (classify_job cfgs (row_fields row))
        ≡ row_belongs row
  goes_to_lem row = elim (Option-cases (classify_job cfgs (row_fields row))) [
    | inl e ↦ rw e refl
    | inr (pool, e) ↦
        rw e (
          is_for_lem part key row.state row.nodelist row.features row.tres_per_node row.reason pool)
  ]

  placed_lem :
      (row : Row)
      → one_if
          (goes_to
            (has_part part key (normalized_state row.state) (row_fields row))
            (classify_job cfgs (row_fields row)))
          (row_fields row)
        ≡ map row_fields (filter row_belongs (row ∷ []))
  placed_lem row =
      ap (λ b. one_if b (row_fields row)) (goes_to_lem row)
      ∙ elim (Bool-cases (row_belongs row)) [ inl e ↦ rw e refl | inr e ↦ rw e refl ]

  place_parts-part :
      (parts : List Text) (result : Dict Bucket)
      → part_of part (bucket_of key (place_parts cfgs parts result))
        ≡ part_of part (bucket_of key result) ++ added parts
  unfolding place_parts
  place_parts-part [] result = sym (append-nil _)
  place_parts-part (a ∷ []) result = sym (append-nil _)
  place_parts-part (a ∷ b ∷ []) result = sym (append-nil _)
  place_parts-part (a ∷ b ∷ c ∷ []) result = sym (append-nil _)
  place_parts-part (a ∷ b ∷ c ∷ d ∷ []) result = sym (append-nil _)
  place_parts-part (a ∷ b ∷ c ∷ d ∷ e ∷ []) result = sym (append-nil _)
  place_parts-part (a ∷ b ∷ c ∷ d ∷ e ∷ f ∷ []) result =
      place-part part key (normalized_state b) (fields_of c d e f)
        (classify_job cfgs (fields_of c d e f)) result
      ∙ ap (λ l. part_of part (bucket_of key result) ++ l)
          (placed_lem
            (record { state = b; nodelist = c; features = d; tres_per_node = e; reason = f }))
  place_parts-part (a ∷ b ∷ c ∷ d ∷ e ∷ f ∷ g ∷ rest) result = sym (append-nil _)

  place_line-part :
      (line : Text) (result : Dict Bucket)
      → part_of part (bucket_of key (place_line cfgs line result))
        ≡ part_of part (bucket_of key result) ++ added (split_at_most b'|' 5 line)
  unfolding place_line split_at_most
  place_line-part [] result = sym (append-nil _)
  place_line-part (c ∷ line) result = place_parts-part (split_at_most b'|' 5 (c ∷ line)) result

  add_row-filter :
      (row : Option Row) (later : List Row)
      → map row_fields (filter row_belongs (add_row row []))
          ++ map row_fields (filter row_belongs later)
        ≡ map row_fields (filter row_belongs (add_row row later))
  add_row-filter none later = refl
  add_row-filter (some row) later = elim (Bool-cases (row_belongs row)) [
    | inl e ↦ rw e refl
    | inr e ↦ rw e refl
  ]

  place_lines-part :
      (lines : List Text) (result : Dict Bucket)
      → part_of part (bucket_of key (place_lines cfgs lines result))
        ≡ part_of part (bucket_of key result) ++ map row_fields (filter row_belongs (rows lines))
  unfolding place_lines
  place_lines-part [] result = sym (append-nil _)
  place_lines-part (line ∷ lines) result =
      place_lines-part lines (place_line cfgs (strip line) result)
      ∙ ap (λ l. l ++ map row_fields (filter row_belongs (rows lines)))
          (place_line-part (strip line) result)
      ∙ append_assoc (part_of part (bucket_of key result))
          (added (split_at_most b'|' 5 (strip line))) _
      ∙ ap (λ l. part_of part (bucket_of key result) ++ l) (add_row-filter _ (rows lines))

-- Whatever squeue prints, each part of a pool's bucket holds, in the order of the lines, exactly the
-- fields of the lines that have six texts, are classified to the pool with the key and that the part
-- is for: those in state PENDING; those in state PENDING for the reason `resources` that ask for no
-- more cores and memory than a node of the pool has, where it names a limit; and those in state
-- RUNNING or COMPLETING.
pub jobs_by_pool_and_state_exec-part :
    (cfgs : List PartitionConfig) (output partition : Text) (part : Part) (key : Text)
    → part_of part (bucket_of key (jobs_by_pool_and_state_exec cfgs output partition))
      ≡ map row_fields (filter (row_belongs cfgs part key) (rows (lines_of output)))
unfolding jobs_by_pool_and_state_exec lookup
jobs_by_pool_and_state_exec-part cfgs output partition part key =
    place_lines-part cfgs part key (lines_of output) (initial_buckets partition cfgs [])
    ∙ ap (λ l. l ++ map row_fields (filter (row_belongs cfgs part key) (rows (lines_of output))))
        (initial_buckets-part part key partition cfgs [] (part_of-no_jobs part))
