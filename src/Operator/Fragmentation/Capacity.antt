-- ===== src/Operator/Fragmentation/Capacity.antt =====
-- operator/fragmentation.py, the adapters: what the views say of the reported slots.
use kelpflux.Base.{
  ℕ, ◌+◌, ◌≤◌, ◌≡◌, refl, ap, ◌∙◌, true, false, Option, none, some, [], ◌∷◌, ◌++◌, Text, codes,
  show_nat, starts_with, leading_number-show_nat, starts_with_digit, All, ◌==◌, if◌then◌else◌,
  arith, min,
}
use kelpflux.Operator.Fragmentation.{JobView, used_mps}
use kelpflux.Operator.Fragmentation.Parsers.{
  number_or, search_from, mps_at, tres_at, parse_mps_req, parse_tres_mps,
}
use kelpflux.Operator.Fragmentation.Adapters.{
  RestNode, node_is_available, total_or_default, used_slots, node_view,
}

-- Where the job asks for slots, the node takes jobs and has the slots beside those in use.
abbrev pub HasRoom : ℕ → JobView → RestNode → Type 0
HasRoom mps_per_node job n =
    (node_is_available n ≡ true)
    × (used_slots n + job.mps_req ≤ total_or_default mps_per_node n.gres)

-- The slots in use that a view shows: those reported, cut to the total, and on a node that takes no
-- jobs all of them.
node_view-used :
    (mps_per_node : ℕ) (n : RestNode)
    → used_mps (node_view mps_per_node n) ≡ (
        if node_is_available n
        then min (used_slots n) (total_or_default mps_per_node n.gres)
        else total_or_default mps_per_node n.gres)
unfolding used_mps node_view
node_view-used mps_per_node n = ground arith

search_skip :
    (at : Text → Option ℕ) (before s : Text)
    → All (λ c. (tail : Text) → at (c ∷ tail) ≡ none) before
    → search_from at (before ++ s) ≡ search_from at s
unfolding search_from
search_skip at [] s h = refl
search_skip at (c ∷ before) s h = rw (h.0 (before ++ s)) (search_skip at before s h.1)

search_number :
    (at : Text → Option ℕ) (before s : Text) (c n : ℕ)
    → All (λ c. (tail : Text) → at (c ∷ tail) ≡ none) before
    → at (c ∷ s) ≡ some n
    → search_from at (before ++ c ∷ s) ≡ some n
unfolding search_from
search_number at before s c n h e = search_skip at before (c ∷ s) h ∙ rw e refl

-- No character of the text can begin the word that the pattern begins with.
abbrev Without : ℕ → Text → Type 0
Without d s = All (λ c. (c == d) ≡ false) s

mps_at-none :
    (before : Text)
    → Without b'm' before
    → All (λ c. (tail : Text) → mps_at (c ∷ tail) ≡ none) before
unfolding mps_at starts_with
mps_at-none [] h = tt
mps_at-none (c ∷ before) h = (λ tail. rw h.0 refl, mps_at-none before h.1)

tres_at-none :
    (before : Text)
    → Without b'g' before
    → All (λ c. (tail : Text) → tres_at (c ∷ tail) ≡ none) before
unfolding tres_at starts_with
tres_at-none [] h = tt
tres_at-none (c ∷ before) h = (λ tail. rw h.0 refl, tres_at-none before h.1)

module _ (before after : Text) (n : ℕ) (ends : starts_with_digit after ≡ false) where
  -- A request for n slots, written `mps:n` or `mps=n`, is read as n; before it may stand any text
  -- without an `m`, and behind it any that does not begin with a digit.
  pub parse_mps_req-show_nat :
      Without b'm' before
      → (parse_mps_req (before ++ (codes "mps:" ++ (show_nat n ++ after))) ≡ n)
        × (parse_mps_req (before ++ (codes "mps=" ++ (show_nat n ++ after))) ≡ n)
  unfolding parse_mps_req mps_at starts_with
  parse_mps_req-show_nat clear = (
    ap (number_or 0) (
        search_number mps_at before (codes "ps:" ++ (show_nat n ++ after)) b'm' n
          (mps_at-none before clear) (leading_number-show_nat n after ends)),
    ap (number_or 0) (
        search_number mps_at before (codes "ps=" ++ (show_nat n ++ after)) b'm' n
          (mps_at-none before clear) (leading_number-show_nat n after ends)),
  )

  -- An allocation of n slots, written `gres/mps=n`, is read as n; before it may stand any text
  -- without a `g`, and behind it any that does not begin with a digit.
  parse_tres_mps-show_nat :
      Without b'g' before
      → parse_tres_mps (before ++ (codes "gres/mps=" ++ (show_nat n ++ after))) ≡ some n
  unfolding parse_tres_mps tres_at starts_with
  parse_tres_mps-show_nat clear =
      search_number tres_at before (codes "res/mps=" ++ (show_nat n ++ after)) b'g' n
        (tres_at-none before clear) (leading_number-show_nat n after ends)
