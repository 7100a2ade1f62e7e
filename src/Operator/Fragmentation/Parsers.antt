-- ===== src/Operator/Fragmentation/Parsers.antt =====
-- operator/fragmentation.py, the parsers of Slurm's resource texts and node lists. A regular
-- expression is the function that finds its leftmost match, over ASCII text.
use kelpflux.Base.{
  ℕ, ◌+◌, ◌-◌, ◌*◌, Bool, true, false, not, ◌&&◌, ◌||◌, Option, none, some, List, [], ◌∷◌, ◌++◌,
  map, Text, codes, text_eq, mem_text, show_nat, starts_with, strip, strip_left, split_on, drop,
  filter, range, is_digit, leading_number, leb, ◌==◌, if◌then◌else◌,
}

abbrev pub or_else : Option ℕ → Option ℕ → Option ℕ
or_else none b = b
or_else (some a) b = some a

-- re.search: the match at the first position that has one
unfoldable pub search_from : (Text → Option ℕ) → Text → Option ℕ
search_from at [] = at []
search_from at (c ∷ s) = or_else (at (c ∷ s)) (search_from at s)

-- mps[:=](\d+), at the front
unfoldable pub mps_at : Text → Option ℕ
mps_at s =
    if starts_with s (codes "mps:") || starts_with s (codes "mps=")
    then leading_number (drop 4 s)
    else none

abbrev pub number_or : ℕ → Option ℕ → ℕ
number_or d none = d
number_or d (some n) = n

unfoldable pub parse_mps_req : Text → ℕ
unfolding mps_at search_from
parse_mps_req tres_per_node = number_or 0 (search_from mps_at tres_per_node)

abbrev is_type_char : ℕ → Bool
is_type_char c =
    is_digit c || (leb b'A' c && leb c b'Z') || (leb b'a' c && leb c b'z') || c == b'_' || c == b'-'

-- The text behind the longest run of such characters.
unfoldable pub skip : (ℕ → Bool) → Text → Text
skip test [] = []
skip test (c ∷ s) = if test c then skip test s else c ∷ s

-- :(\d+)
unfoldable pub colon_number : Text → Option ℕ
colon_number [] = none
colon_number (c ∷ s) = if c == b':' then leading_number s else none

-- (?::[A-Za-z0-9_-]+)?:(\d+), behind `mps`. No character of the type is a colon, so only the longest
-- run can be followed by one.
unfoldable pub typed_number : Text → Option ℕ
unfolding colon_number skip
typed_number [] = none
typed_number (c ∷ s) =
    if c == b':' && not (text_eq (skip is_type_char s) s)
    then or_else (colon_number (skip is_type_char s)) (colon_number (c ∷ s))
    else colon_number (c ∷ s)

-- \s*mps(?::[A-Za-z0-9_-]+)?:(\d+)
unfoldable pub total_entry : Text → Option ℕ
unfolding typed_number
total_entry s =
    let trimmed = strip_left s in
    if starts_with trimmed (codes "mps") then typed_number (drop 3 trimmed) else none

-- The entries behind the commas.
unfoldable pub total_behind_comma : Text → Option ℕ
unfolding total_entry
total_behind_comma [] = none
total_behind_comma (c ∷ s) =
    let later = total_behind_comma s in if c == b',' then or_else (total_entry s) later else later

unfoldable pub parse_node_total_mps : Text → Option ℕ
unfolding total_entry total_behind_comma
parse_node_total_mps [] = none
parse_node_total_mps (c ∷ gres) = or_else (total_entry (c ∷ gres)) (total_behind_comma (c ∷ gres))

-- gres/mps=(\d+), at the front
unfoldable pub tres_at : Text → Option ℕ
tres_at s = if starts_with s (codes "gres/mps=") then leading_number (drop 9 s) else none

unfoldable pub parse_tres_mps : Text → Option ℕ
unfolding tres_at search_from
parse_tres_mps tres_used = search_from tres_at tres_used

-- The text before the first character that passes the test, and what begins with it.
unfoldable pub break_at : (ℕ → Bool) → Text → Text × Text
break_at test [] = ([], [])
break_at test (c ∷ s) =
    let (front, rest) = break_at test s in if test c then ([], c ∷ s) else (c ∷ front, rest)

-- Digits to the end of the text, with single underscores between them: what int() reads.
unfoldable pub int_digits : ℕ → Text → Option ℕ
int_digits n [] = some n
int_digits n (c ∷ []) = if is_digit c then some (n * 10 + (c - b'0')) else none
int_digits n (c ∷ d ∷ s) =
    let after = int_digits (n * 10 + (c - b'0')) (d ∷ s) in
    let after_underscore = int_digits (n * 10 + (c - b'0')) s in
    if not (is_digit c)
    then none
    else if d == b'_' && not (text_eq s [])
    then after_underscore
    else after

abbrev pub Signed : Type 0
Signed = Bool × ℕ

abbrev with_sign : Bool → Option ℕ → Option Signed
with_sign sign none = none
with_sign sign (some n) = some (sign, n)

unfoldable pub int_unsigned : Text → Option ℕ
unfolding int_digits
int_unsigned [] = none
int_unsigned (c ∷ s) = int_digits 0 (c ∷ s)

-- int(s): the first component says whether a minus sign stands before the number; none for ValueError
unfoldable pub int_of_stripped : Text → Option Signed
unfolding int_unsigned
int_of_stripped [] = none
int_of_stripped (c ∷ s) =
    if c == b'-'
    then with_sign true (int_unsigned s)
    else if c == b'+'
    then with_sign false (int_unsigned s)
    else with_sign false (int_unsigned (c ∷ s))

unfoldable pub int_of : Text → Option Signed
unfolding int_of_stripped
int_of s = int_of_stripped (strip s)

-- range(lo, hi + 1). `lo` has no minus sign: the part is split at its first one.
unfoldable pub int_range : Option Signed → Option Signed → Option (List ℕ)
int_range (some (sign, lo)) (some (false, hi)) = some (range lo (hi + 1))
int_range (some (sign, lo)) (some (true, hi)) = some (range lo (1 - hi))
int_range _ _ = none

abbrev named : Text → Option (List ℕ) → Text → List Text
named prefix none part = (prefix ++ part) ∷ []
named prefix (some is) part = map (λ i. prefix ++ show_nat i) is

abbrev is_dash : ℕ → Bool
is_dash c = c == b'-'

-- part.split("-", 1), where the part has a dash.
unfoldable pub expand_range : Text → Text → Text → Text → List Text
unfolding int_of int_range
expand_range prefix part lo [] = (prefix ++ part) ∷ []
expand_range prefix part lo (dash ∷ hi) = named prefix (int_range (int_of lo) (int_of hi)) part

unfoldable pub expand_part : Text → Text → List Text
unfolding expand_range break_at
expand_part prefix part = let (lo, rest) = break_at is_dash part in expand_range prefix part lo rest

unfoldable pub expand_parts : Text → List Text → List Text
unfolding expand_part
expand_parts prefix [] = []
expand_parts prefix (part ∷ parts) = expand_part prefix part ++ expand_parts prefix parts

-- What stands behind the ranges: the bracket at the end of the text, or before a last line feed.
abbrev is_end : Text → Bool
is_end rest = text_eq rest (codes "]") || text_eq rest (b']' ∷ 10 ∷ [])

-- ([^[]+)\[([^\]]+)\]$, taken apart; the prefix is what stands before the first bracket.
unfoldable pub expand_ranges : Text → Text → Text × Text → List Text
unfolding expand_parts
expand_ranges node_list prefix ([], rest) = node_list ∷ []
expand_ranges node_list prefix (c ∷ ranges, rest) =
    if is_end rest then expand_parts prefix (split_on b',' (c ∷ ranges)) else node_list ∷ []

unfoldable pub bracketed : Text → Text × Text → List Text
unfolding expand_ranges break_at
bracketed node_list ([], rest) = node_list ∷ []
bracketed node_list (c ∷ prefix, []) = node_list ∷ []
bracketed node_list (c ∷ prefix, bracket ∷ rest) =
    expand_ranges node_list (c ∷ prefix) (break_at (λ d. d == b']') rest)

abbrev has_bracket : Text → Bool
has_bracket [] = false
has_bracket (c ∷ s) = c == b'[' || has_bracket s

abbrev nonblank : List Text → List Text
nonblank parts = filter (λ p. not (text_eq p [])) (map strip parts)

unfoldable pub parse_node_list : Text → List Text
unfolding bracketed break_at
parse_node_list node_list =
    if mem_text node_list ([] ∷ codes "(null)" ∷ codes "N/A" ∷ [])
    then []
    else if not (has_bracket node_list)
    then nonblank (split_on b',' node_list)
    else bracketed node_list (break_at (λ c. c == b'[') node_list)
