-- ===== src/Operator/Fragmentation/Choice.antt =====
-- operator/fragmentation.py, RequeueDecider.decide: the loop that picks victims on the chosen node.
use kelpflux.Base.{
  ℕ, ◌+◌, ◌≤◌, ◌<◌, ◌≡◌, ◌≢◌, refl, ◌⊎◌, inl, inr, Bool, false, ◌||◌, List, [], ◌∷◌, ◌++◌, Text,
  text_eq, text_eq_iff, mem_text, length, leb, All, All-append, All-of_All, sum_by, sum_by-append,
  length-append, Bool-cases, arith, max,
}
use kelpflux.Operator.Fragmentation.{RequeueCandidate}
use kelpflux.Operator.Fragmentation.Decider.{choose, victim_ids}

-- No text stands twice.
abbrev pub IsDistinct : List Text → Type 0
IsDistinct [] = Unit
IsDistinct (x ∷ xs) = (mem_text x xs ≡ false) × IsDistinct xs

mem_text-append_one :
    (k x : Text) (xs : List Text)
    → mem_text k xs ≡ false
    → text_eq k x ≡ false
    → mem_text k (xs ++ x ∷ []) ≡ false
unfolding mem_text
mem_text-append_one k x [] h e = ground (arith, e)
mem_text-append_one k x (y ∷ ys) h e = ground (arith, mem_text-append_one k x ys)

mem_text-ne : (k x : Text) (xs : List Text) → mem_text k (x ∷ xs) ≡ false → text_eq x k ≡ false
unfolding mem_text
mem_text-ne k x xs h = ground (arith, text_eq_iff k x, text_eq_iff x k)

mem_text-tail : (k x : Text) (xs : List Text) → mem_text k (x ∷ xs) ≡ false → mem_text k xs ≡ false
unfolding mem_text
mem_text-tail k x xs h = ground arith

IsDistinct-append_one :
    (x : Text) (xs : List Text) → mem_text x xs ≡ false → IsDistinct xs → IsDistinct (xs ++ x ∷ [])
unfolding mem_text
IsDistinct-append_one x [] h d = (refl, tt)
IsDistinct-append_one x (y ∷ ys) h d = (
  mem_text-append_one y x ys d.0 (mem_text-ne x y ys h),
  IsDistinct-append_one x ys (mem_text-tail x y ys h) d.1,
)

map-append_one :
    (xs : List RequeueCandidate) (c : RequeueCandidate)
    → victim_ids (xs ++ c ∷ []) ≡ victim_ids xs ++ c.victim.job_id ∷ []
map-append_one [] c = refl
map-append_one (x ∷ xs) c = rw (map-append_one xs c) refl

abbrev pub slots : List RequeueCandidate → ℕ
slots cs = sum_by (λ c. c.slots_freed) cs

-- Without its last member, a choice frees less than what is needed.
abbrev pub IsNeeded : ℕ → List RequeueCandidate → Type 0
IsNeeded needed cs =
    (init : List RequeueCandidate) × (last : RequeueCandidate) × (cs ≡ init ++ last ∷ [])
    × ((init ≡ []) ⊎ (slots init < needed))

abbrev is_enough : ℕ → ℕ → List RequeueCandidate → ℕ → Bool
is_enough needed max_targets chosen freed = leb needed freed || leb max_targets (length chosen)

-- Invariants of the loop: `Inv` holds of what is chosen while it runs, `Done` at its end.
module _ {κ} (needed max_targets : ℕ) (P : RequeueCandidate → Type κ)
    (Inv Done : List RequeueCandidate → ℕ → Type κ)
    (stop : (chosen : List RequeueCandidate) (freed : ℕ) → Inv chosen freed → Done chosen freed)
    (last : (c : RequeueCandidate) (chosen : List RequeueCandidate) (freed : ℕ)
      → P c
      → mem_text c.victim.job_id (victim_ids chosen) ≡ false
      → Inv chosen freed
      → Done (chosen ++ c ∷ []) (freed + c.slots_freed))
    (more : (c : RequeueCandidate) (chosen : List RequeueCandidate) (freed : ℕ)
      → P c
      → mem_text c.victim.job_id (victim_ids chosen) ≡ false
      → is_enough needed max_targets (chosen ++ c ∷ []) (freed + c.slots_freed) ≡ false
      → Inv chosen freed
      → Inv (chosen ++ c ∷ []) (freed + c.slots_freed)) where
  choose-loop :
      (cs chosen : List RequeueCandidate) (freed : ℕ)
      → All P cs
      → Inv chosen freed
      → Done
          (choose needed max_targets cs chosen freed).0
          (choose needed max_targets cs chosen freed).1
  unfolding choose
  choose-loop [] chosen freed h k = stop chosen freed k
  choose-loop (c ∷ cs) chosen freed h k =
      elim (Bool-cases (mem_text c.victim.job_id (victim_ids chosen))) [
        | inl e ↦ rw (choose, e) (choose-loop cs chosen freed h.1 k)
        | inr e ↦
            elim (Bool-cases
              (is_enough needed max_targets (chosen ++ c ∷ []) (freed + c.slots_freed))) [
                | inl f ↦ rw (choose, e, f) (last c chosen freed h.0 e k)
                | inr f ↦ rw (choose, e, f) (choose-loop cs _ _ h.1 (more c chosen freed h.0 e f k))
              ]
      ]

module _ {κ} (needed max_targets : ℕ) (P : RequeueCandidate → Type κ) where
  -- What is chosen: each is one of the given, none twice, with the slots that they free added up.
  abbrev Chosen : List RequeueCandidate → ℕ → Type κ
  Chosen cs freed = All P cs × IsDistinct (victim_ids cs) × (freed ≡ slots cs)

  abbrev IsOpen : List RequeueCandidate → ℕ → Type κ
  IsOpen cs freed =
      Chosen cs freed
      × ((cs ≡ []) ⊎ (IsNeeded needed cs × (freed < needed) × (length cs < max_targets)))

  abbrev pub IsChoice : List RequeueCandidate → ℕ → Type κ
  IsChoice cs freed =
      Chosen cs freed × ((cs ≡ []) ⊎ (IsNeeded needed cs × (length cs ≤ max 1 max_targets)))

  IsOpen-IsChoice : (cs : List RequeueCandidate) (freed : ℕ) → IsOpen cs freed → IsChoice cs freed
  IsOpen-IsChoice cs freed (h, inl e) = (h, inl e)
  IsOpen-IsChoice cs freed (h, inr (n, f, l)) = (h, inr (n, omega (arith, l)))

  Chosen-append_one :
      (c : RequeueCandidate) (cs : List RequeueCandidate) (freed : ℕ)
      → P c
      → mem_text c.victim.job_id (victim_ids cs) ≡ false
      → Chosen cs freed
      → Chosen (cs ++ c ∷ []) (freed + c.slots_freed)
  Chosen-append_one c cs freed p fresh (h, d, e) = (
    All-append P cs (c ∷ []) h (p, tt),
    rw (map-append_one cs c) (IsDistinct-append_one c.victim.job_id (victim_ids cs) fresh d),
    omega (arith, e, sum_by-append (λ c. c.slots_freed) cs (c ∷ [])),
  )

  IsNeeded-append_one :
      (c : RequeueCandidate) (cs : List RequeueCandidate) (freed : ℕ)
      → IsOpen cs freed
      → IsNeeded needed (cs ++ c ∷ [])
  IsNeeded-append_one c cs freed (h, inl e) = (cs, c, refl, inl e)
  IsNeeded-append_one c cs freed (h, inr (n, f, l)) = (cs, c, refl, inr (omega (arith, h.2, f)))

  IsOpen-last :
      (c : RequeueCandidate) (cs : List RequeueCandidate) (freed : ℕ)
      → P c
      → mem_text c.victim.job_id (victim_ids cs) ≡ false
      → IsOpen cs freed
      → IsChoice (cs ++ c ∷ []) (freed + c.slots_freed)
  IsOpen-last c cs freed p fresh (h, o) =
      (Chosen-append_one c cs freed p fresh h, inr (IsNeeded-append_one c cs freed (h, o), short o))
    where
      short :
          (cs ≡ []) ⊎ (IsNeeded needed cs × (freed < needed) × (length cs < max_targets))
          → length (cs ++ c ∷ []) ≤ max 1 max_targets
      short (inl e) = rw e (omega arith)
      short (inr (n, f, l)) = omega (arith, l, length-append cs (c ∷ []))

  IsOpen-more :
      (c : RequeueCandidate) (cs : List RequeueCandidate) (freed : ℕ)
      → P c
      → mem_text c.victim.job_id (victim_ids cs) ≡ false
      → is_enough needed max_targets (cs ++ c ∷ []) (freed + c.slots_freed) ≡ false
      → IsOpen cs freed
      → IsOpen (cs ++ c ∷ []) (freed + c.slots_freed)
  IsOpen-more c cs freed p fresh open_yet (h, o) = (
    Chosen-append_one c cs freed p fresh h,
    inr (IsNeeded-append_one c cs freed (h, o), ground (arith, open_yet), ground (arith, open_yet)),
  )

  pub choose-IsChoice :
      (cs : List RequeueCandidate)
      → All P cs
      → IsChoice (choose needed max_targets cs [] 0).0 (choose needed max_targets cs [] 0).1
  choose-IsChoice cs h =
      choose-loop needed max_targets P IsOpen IsChoice IsOpen-IsChoice IsOpen-last IsOpen-more cs []
        0 h ((tt, tt, refl), inl refl)

append_one-nonempty : (cs : List RequeueCandidate) (c : RequeueCandidate) → cs ++ c ∷ [] ≢ []
append_one-nonempty [] c e = ground (arith, e)
append_one-nonempty (d ∷ cs) c e = ground (arith, e)

module _ (needed max_targets : ℕ) where
  choose-nonempty_from :
      (cs chosen : List RequeueCandidate) (freed : ℕ)
      → chosen ≢ []
      → (choose needed max_targets cs chosen freed).0 ≢ []
  choose-nonempty_from cs chosen freed h =
      choose-loop needed max_targets (λ c. Unit) (λ cs f. cs ≢ []) (λ cs f. cs ≢ []) (λ cs f k. k)
        (λ c cs f p fresh k. append_one-nonempty cs c)
        (λ c cs f p fresh e k. append_one-nonempty cs c) cs chosen freed
        (All-of_All (λ c. Unit) (λ c. tt) cs) h

  -- From a non-empty list something is chosen.
  pub choose-nonempty :
      (c : RequeueCandidate) (cs : List RequeueCandidate)
      → (choose needed max_targets (c ∷ cs) [] 0).0 ≢ []
  unfolding choose mem_text
  choose-nonempty c cs =
      elim (Bool-cases (is_enough needed max_targets (c ∷ []) (0 + c.slots_freed))) [
        | inl e ↦ rw (choose, e) (append_one-nonempty [] c)
        | inr e ↦ rw (choose, e) (choose-nonempty_from cs (c ∷ []) _ (append_one-nonempty [] c))
      ]
