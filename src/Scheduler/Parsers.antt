-- ===== src/Scheduler/Parsers.antt =====
-- services/rl_scheduler/snapshot_agent.py, the readers of Slurm's resource texts. A regular expression
-- is the function that finds its leftmost match, over ASCII text; `(?:^|,)` stands at the front of a
-- part between commas.
use kelpflux.Base.{
  ℕ, ◌||◌, Bool, not, Option, none, some, List, [], ◌∷◌, ◌++◌, map, Text, codes, text_eq, is_space,
  starts_with, contains, split_on, drop, filter, leading_number, length, Dict, lookup, ◌==◌,
  if◌then◌else◌,
}
use kelpflux.Operator.Fragmentation.Adapters.{TextOrList, text, texts, to_lower, join_commas}
use kelpflux.Operator.Fragmentation.Detector.{to_upper}
use kelpflux.Operator.Fragmentation.Parsers.{break_at, or_else}

-- A field of a node's document: a text, a list of texts, or an object with the values as texts.
pub data TresField : Type 0 where
  plain : Text → TresField
  listed : List Text → TresField
  object : List (Text × Text) → TresField

abbrev to_blank : ℕ → ℕ
to_blank c = if is_space c || c == b',' then b' ' else c

abbrev nonblank : Text → Bool
nonblank s = not (text_eq s [])

unfoldable pub state_tokens : TextOrList → List Text
unfolding to_upper
state_tokens (texts raw) = map (map to_upper) raw
state_tokens (text raw) = map (map to_upper) (filter nonblank (split_on b' ' (map to_blank raw)))

-- prefix(\d+), at the front
unfoldable pub prefixed_number : Text → Text → Option ℕ
prefixed_number prefix s =
    if starts_with s prefix then leading_number (drop (length prefix) s) else none

-- (?:[^,:]+:)?(\d+), at the front of `s`, which break_at has split at its first colon
unfoldable pub typed_count : Text → Text × Text → Option ℕ
typed_count s ([], rest) = leading_number s
typed_count s (c ∷ front, []) = leading_number s
typed_count s (c ∷ front, colon ∷ rest) = or_else (leading_number rest) (leading_number s)

unfoldable pub colon_count : Text → Text → Option ℕ
unfolding typed_count break_at
colon_count prefix s =
    let rest = drop (length prefix) s in
    if starts_with s prefix then typed_count rest (break_at (λ c. c == b':') rest) else none

-- The first part with a match.
unfoldable pub first_count : (Text → Option ℕ) → List Text → Option ℕ
first_count at [] = none
first_count at (part ∷ parts) = or_else (at part) (first_count at parts)

-- The three patterns for one name, in either case.
unfoldable pub tres_count : Text → List Text → Option ℕ
unfolding first_count prefixed_number colon_count
tres_count name parts = or_else (first_count (prefixed_number (name ++ codes "=")) parts) (
    or_else (first_count (colon_count (name ++ codes ":")) parts)
      (first_count (prefixed_number (codes "gres/" ++ (name ++ codes "="))) parts))

unfoldable pub parse_tres_int : Text → Text → Option ℕ
unfolding tres_count to_lower
parse_tres_int tres name = tres_count name (split_on b',' (map to_lower tres))

-- x or d, for numbers
abbrev pub number_else : ℕ → Option ℕ → ℕ
number_else d none = d
number_else d (some n) = if n == 0 then d else n

abbrev pub rtx4070 : Text
rtx4070 = codes "rtx4070"

abbrev pub rtx3080 : Text
rtx3080 = codes "rtx3080"

unfoldable pub gpu_type_from_text : Text → Text
unfolding to_lower
gpu_type_from_text s =
    if contains rtx4070 (map to_lower s)
    then rtx4070
    else if contains rtx3080 (map to_lower s)
    then rtx3080
    else if contains (codes "generic") (map to_lower s)
    then codes "generic"
    else rtx4070

unfoldable pub field_text : TresField → Text
field_text (plain s) = s
field_text (listed parts) = join_commas parts
field_text (object pairs) = join_commas (map (λ p. p.0 ++ b'=' ∷ p.1) pairs)

abbrev keep_text : Option TresField → List Text → List Text
keep_text none rest = rest
keep_text (some f) rest = if nonblank (field_text f) then field_text f ∷ rest else rest

unfoldable pub node_vals : Dict TresField → List Text → List Text
unfolding field_text
node_vals node [] = []
node_vals node (key ∷ keys) = keep_text (lookup key node) (node_vals node keys)

unfoldable pub node_tres_text : Dict TresField → List Text → Text
unfolding node_vals
node_tres_text node keys = join_commas (node_vals node keys)
