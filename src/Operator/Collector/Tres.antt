-- ===== src/Operator/Collector/Tres.antt =====
-- operator/collector.py, _tres_per_node_fits and _can_scale_for_job: whether one more node of the pool
-- could run a blocked job. An amount of memory is an exact fraction, where the source has a float.
use kelpflux.Base.{
  ℕ, ◌*◌, ◌^◌, max, Bool, true, false, not, ◌&&◌, ◌||◌, Option, none, some, List, [], ◌∷◌, map,
  reverse, Text, codes, text_eq, strip, split_on, is_digit, number_from, ltb, ◌==◌, length,
  if◌then◌else◌,
}
use kelpflux.Operator.Models.{PartitionConfig}
use kelpflux.Operator.Fragmentation.Adapters.{to_lower}
use kelpflux.Operator.Fragmentation.Parsers.{Signed, int_of, break_at}
use kelpflux.Operator.Collector.{Fields, field}

pub record Amount : Type 0 where
  pub numerator : ℕ
  pub denominator : ℕ

-- The groups of the regular expression: the number, the unit's factor, and whether the scope is `c`.
pub record MemoryTres : Type 0 where
  pub amount : Amount
  pub factor : Amount
  pub per_cpu : Bool

abbrev whole : ℕ → Amount
whole n = record { numerator = n; denominator = 1 }

-- The factor of a unit, in megabytes; `none` for another letter.
unfoldable pub unit_factor : ℕ → Option Amount
unit_factor c =
    if c == b'k'
    then some (record { numerator = 1; denominator = 1024 })
    else if c == b'm'
    then some (whole 1)
    else if c == b'g'
    then some (whole 1024)
    else if c == b't'
    then some (whole (1024 ^ 2))
    else if c == b'p'
    then some (whole (1024 ^ 3))
    else if c == b'e'
    then some (whole (1024 ^ 4))
    else none

-- ([cn]?) to the end of the text
unfoldable pub scope_of : Text → Option Bool
scope_of [] = some false
scope_of (c ∷ []) =
    if to_lower c == b'c' then some true else if to_lower c == b'n' then some false else none
scope_of (c ∷ d ∷ s) = none

abbrev with_scope : Amount → Amount → Option Bool → Option MemoryTres
with_scope amount factor none = none
with_scope amount factor (some per_cpu) =
    some (record { amount = amount; factor = factor; per_cpu = per_cpu })

abbrev with_unit : Amount → Text → Option Amount → Text → Option MemoryTres
with_unit amount all none rest = with_scope amount (whole 1) (scope_of all)
with_unit amount all (some factor) rest = with_scope amount factor (scope_of rest)

-- ([KMGTPE]?)([cn]?)$, in either case
unfoldable pub unit_and_scope : Amount → Text → Option MemoryTres
unfolding unit_factor scope_of to_lower
unit_and_scope amount [] = with_scope amount (whole 1) (scope_of [])
unit_and_scope amount (c ∷ s) = with_unit amount (c ∷ s) (unit_factor (to_lower c)) s

abbrev no_digit : ℕ → Bool
no_digit c = not (is_digit c)

-- The digits behind the point, at least one.
unfoldable pub with_decimals : ℕ → Text × Text → Option MemoryTres
unfolding unit_and_scope number_from
with_decimals n ([], rest) = none
with_decimals n (d ∷ digits, rest) =
    unit_and_scope
      (record { numerator = number_from n (d ∷ digits); denominator = 10 ^ length (d ∷ digits) })
      rest

unfoldable pub behind_digits : ℕ → Text → Option MemoryTres
unfolding with_decimals break_at unit_and_scope
behind_digits n [] = unit_and_scope (whole n) []
behind_digits n (c ∷ s) =
    if c == b'.' then with_decimals n (break_at no_digit s) else unit_and_scope (whole n) (c ∷ s)

unfoldable pub from_digits : Text × Text → Option MemoryTres
unfolding behind_digits number_from
from_digits ([], rest) = none
from_digits (d ∷ digits, rest) = behind_digits (number_from 0 (d ∷ digits)) rest

-- _MEMORY_TRES.fullmatch(value)
unfoldable pub memory_tres_of : Text → Option MemoryTres
unfolding from_digits break_at
memory_tres_of value = from_digits (break_at no_digit value)

-- The loop's variables requested_cpu and memory_tres.
pub record Requested : Type 0 where
  pub requested_cpu : Signed
  pub memory_tres : Option MemoryTres

abbrev set_cpu : Option Signed → Requested → Requested
set_cpu none r = r
set_cpu (some n) r = record r { requested_cpu = n }

abbrev set_memory : Option MemoryTres → Requested → Requested
set_memory none r = r
set_memory (some m) r = record r { memory_tres = some m }

-- The item, split at its first equals sign.
unfoldable pub read_pair : Text × Text → Requested → Requested
unfolding int_of memory_tres_of
read_pair (key, []) r = r
read_pair (key, sep ∷ value) r =
    if text_eq key (codes "cpu")
    then set_cpu (int_of value) r
    else if text_eq key (codes "mem")
    then set_memory (memory_tres_of value) r
    else r

unfoldable pub read_items : List Text → Requested → Requested
unfolding read_pair break_at
read_items [] r = r
read_items (item ∷ items) r = read_items items (read_pair (break_at (λ c. c == b'=') item) r)

abbrev pub exceeds : Signed → ℕ → Bool
exceeds (true, n) limit = false
exceeds (false, n) limit = ltb limit n

abbrev pub at_least_one : Signed → ℕ
at_least_one (true, n) = 1
at_least_one (false, n) = max n 1

-- requested_memory_mb > limit
unfoldable pub memory_exceeds : Signed → Option MemoryTres → ℕ → Bool
memory_exceeds cpu none limit = false
memory_exceeds cpu (some m) limit =
    ltb (limit * (m.amount.denominator * m.factor.denominator))
      (m.amount.numerator * m.factor.numerator * (if m.per_cpu then at_least_one cpu else 1))

unfoldable pub requested : Text → Requested
unfolding read_items
requested tres =
    read_items (split_on b',' tres) (record { requested_cpu = (false, 0); memory_tres = none })

unfoldable pub tres_per_node_fits : Text → PartitionConfig → Bool
unfolding requested memory_exceeds
tres_per_node_fits tres partition =
    let r = requested tres in
    not (
      (ltb 0 partition.cpus_per_node && exceeds r.requested_cpu partition.cpus_per_node)
      || (ltb 0 partition.memory_mb_per_node
          && memory_exceeds r.requested_cpu r.memory_tres partition.memory_mb_per_node))

abbrev is_paren : ℕ → Bool
is_paren c = c == b'(' || c == b')'

unfoldable pub strip_parens_left : Text → Text
strip_parens_left [] = []
strip_parens_left (c ∷ s) = if is_paren c then strip_parens_left s else c ∷ s

-- s.strip("()")
unfoldable pub strip_parens : Text → Text
unfolding strip_parens_left
strip_parens s = reverse (strip_parens_left (reverse (strip_parens_left s)))

unfoldable pub waits_for_resources : Fields → Bool
unfolding strip_parens to_lower
waits_for_resources fields =
    text_eq (map to_lower (strip_parens (strip (field (codes "Reason") fields))))
      (codes "resources")

unfoldable pub can_scale_for_job : Fields → PartitionConfig → Bool
unfolding waits_for_resources tres_per_node_fits
can_scale_for_job fields partition =
    waits_for_resources fields && tres_per_node_fits (field (codes "TresPerNode") fields) partition
