-- ===== src/Base/Dicts.antt =====
-- A dictionary with text keys, as an association list in insertion order.
use kelpflux.Base.Tests.{if◌then◌else◌, Bool-cases}
use kelpflux.Base.Lists.{All, All-map_impl, sum_by}
use kelpflux.Base.Texts.{Text, text_eq, text_eq_iff, text_eq_self}
use mathlib.Core.Path.{◌≡◌, refl, sym, ap, ◌∙◌, subst}
use Prim.Native.Nat.{ℕ, ◌+◌}
use mathlib.Core.Logic.{inl, inr}
use mathlib.Core.Bool.{Bool, true, false}
use mathlib.Core.List.{List, [], ◌∷◌}
use mathlib.Core.Option.{Option, none, some}
use native.Mathlib.Omega.{arith}

abbrev pub Dict {ℓ} : Type ℓ → Type ℓ
Dict V = List (Text × V)

abbrev no_entry {ℓ} : {V : Type ℓ} → Option V → Bool
no_entry none = true
no_entry (some v) = false

pub differs_sym : (s t : Text) → text_eq s t ≡ false → text_eq t s ≡ false
differs_sym s t h = ground (arith, h, text_eq_iff s t, text_eq_iff t s)

module _ {ℓ} {V : Type ℓ} where
  -- d.get(k)
  unfoldable pub lookup : Text → Dict V → Option V
  lookup k [] = none
  lookup k ((j, v) ∷ d) = if text_eq j k then some v else lookup k d

  -- d[k] = v
  unfoldable pub insert : Text → V → Dict V → Dict V
  insert k v [] = (k, v) ∷ []
  insert k v ((j, w) ∷ d) = if text_eq j k then (k, v) ∷ d else (j, w) ∷ insert k v d

  -- d.pop(k, None), the dictionary that is left
  unfoldable pub erase : Text → Dict V → Dict V
  erase k [] = []
  erase k ((j, w) ∷ d) = if text_eq j k then erase k d else (j, w) ∷ erase k d

  pub lookup-insert :
      (k j : Text) (v : V) (d : Dict V)
      → lookup j (insert k v d) ≡ (if text_eq k j then some v else lookup j d)
  unfolding lookup insert
  lookup-insert k j v [] = refl
  lookup-insert k j v ((i, w) ∷ d) =
      ground (arith, text_eq_iff k j, text_eq_iff i k, text_eq_iff i j, lookup-insert k j v d)

  pub lookup-erase :
      (k j : Text) (d : Dict V) → lookup j (erase k d) ≡ (if text_eq k j then none else lookup j d)
  unfolding lookup erase
  lookup-erase k j [] = ground arith
  lookup-erase k j ((i, w) ∷ d) =
      ground (arith, text_eq_iff k j, text_eq_iff i k, text_eq_iff i j, lookup-erase k j d)

  pub lookup-insert_self : (k : Text) (v : V) (d : Dict V) → lookup k (insert k v d) ≡ some v
  lookup-insert_self k v d = simp (lookup-insert, text_eq_self)

  pub lookup-erase_self : (k : Text) (d : Dict V) → lookup k (erase k d) ≡ none
  lookup-erase_self k d = simp (lookup-erase, text_eq_self)

  -- list(d)
  abbrev pub keys : Dict V → List Text
  keys [] = []
  keys ((j, w) ∷ d) = j ∷ keys d

  -- No key stands twice.
  abbrev pub IsDistinct : Dict V → Type 0
  IsDistinct [] = Unit
  IsDistinct ((k, v) ∷ d) = (no_entry (lookup k d) ≡ true) × IsDistinct d

  no_entry→none : (o : Option V) → no_entry o ≡ true → o ≡ none
  no_entry→none none h = refl
  no_entry→none (some v) h = ground (arith, h)

  -- The first entry's key stands nowhere else.
  pub IsDistinct-first :
      (j k : Text) (v : V) (d : Dict V)
      → IsDistinct ((j, v) ∷ d)
      → text_eq j k ≡ true
      → lookup k d ≡ none
  IsDistinct-first j k v d h same =
      no_entry→none (lookup k d)
        (subst (λ i. no_entry (lookup i d) ≡ true) ((text_eq_iff j k).0 same) h.0)

  pub insert-IsDistinct : (k : Text) (v : V) (d : Dict V) → IsDistinct d → IsDistinct (insert k v d)
  unfolding insert
  insert-IsDistinct k v [] h = ((unfold lookup in refl), tt)
  insert-IsDistinct k v ((j, w) ∷ d) h = elim (Bool-cases (text_eq j k)) [
    | inl e ↦ rw e (subst (λ i. no_entry (lookup i d) ≡ true) ((text_eq_iff j k).0 e) h.0, h.1)
    | inr e ↦ rw e (rw (lookup-insert, differs_sym j k e) h.0, insert-IsDistinct k v d h.1)
  ]

  entry_found :
      (j k : Text) (v w : V) (d : Dict V)
      → no_entry (lookup j d) ≡ true
      → lookup k d ≡ some w
      → lookup k ((j, v) ∷ d) ≡ some w
  unfolding lookup
  entry_found j k v w d h e = elim (Bool-cases (text_eq j k)) [
    | inl same ↦
        let gone : no_entry (lookup k d) ≡ true =
          subst (λ i. no_entry (lookup i d) ≡ true) ((text_eq_iff j k).0 same) h in
        absurd (cc (rw e at gone))
    | inr other ↦ rw other e
  ]

  first_found : (j : Text) (v : V) (d : Dict V) → lookup j ((j, v) ∷ d) ≡ some v
  unfolding lookup
  first_found j v d = rw (text_eq_self j) refl

  -- Every entry is what its key looks up.
  pub entries-lookup : (d : Dict V) → IsDistinct d → All (λ e. lookup e.0 d ≡ some e.1) d
  entries-lookup [] h = tt
  entries-lookup ((j, v) ∷ d) h = (
    first_found j v d,
    All-map_impl _ (λ e. lookup e.0 ((j, v) ∷ d) ≡ some e.1) d
        (λ e found. entry_found j e.0 v e.1 d h.0 found) (entries-lookup d h.1),
  )

  pub insert-All {κ} :
      (P : V → Type κ) (k : Text) (v : V) (d : Dict V)
      → P v
      → All (λ e. P e.1) d
      → All (λ e. P e.1) (insert k v d)
  unfolding insert
  insert-All P k v [] p h = (p, tt)
  insert-All P k v ((j, w) ∷ d) p h = elim (Bool-cases (text_eq j k)) [
    | inl e ↦ rw e (p, h.1)
    | inr e ↦ rw e (h.0, insert-All P k v d p h.1)
  ]

  pub erase-All {κ} :
      (P : V → Type κ) (k : Text) (d : Dict V) → All (λ e. P e.1) d → All (λ e. P e.1) (erase k d)
  unfolding erase
  erase-All P k [] h = tt
  erase-All P k ((j, w) ∷ d) h = elim (Bool-cases (text_eq j k)) [
    | inl e ↦ rw e (erase-All P k d h.1)
    | inr e ↦ rw e (h.0, erase-All P k d h.1)
  ]

  pub lookup-All {κ} :
      (P : V → Type κ) (k : Text) (v : V) (d : Dict V)
      → lookup k d ≡ some v
      → All (λ e. P e.1) d
      → P v
  unfolding lookup
  lookup-All P k v [] e h = absurd (cc)
  lookup-All P k v ((j, w) ∷ d) e h = elim (Bool-cases (text_eq j k)) [
    | inl same ↦ let is_w : w ≡ v = cc (rw same at e) in subst P is_w h.0
    | inr other ↦ lookup-All P k v d (rw other at e) h.1
  ]

  erased_elsewhere :
      (j k : Text) (d : Dict V)
      → text_eq j k ≡ false
      → (if text_eq k j then none else lookup j d) ≡ lookup j d
  erased_elsewhere j k d e = rw (differs_sym j k e) refl

  pub erase-IsDistinct : (k : Text) (d : Dict V) → IsDistinct d → IsDistinct (erase k d)
  unfolding erase
  erase-IsDistinct k [] h = tt
  erase-IsDistinct k ((j, w) ∷ d) h = elim (Bool-cases (text_eq j k)) [
    | inl e ↦ rw e (erase-IsDistinct k d h.1)
    | inr e ↦ rw e (
      subst (λ o. no_entry o ≡ true) (sym (lookup-erase k j d ∙ erased_elsewhere j k d e)) h.0,
      erase-IsDistinct k d h.1,
    )
  ]

  pub erase_missing : (k : Text) (d : Dict V) → lookup k d ≡ none → erase k d ≡ d
  unfolding lookup erase
  erase_missing k [] h = refl
  erase_missing k ((j, w) ∷ d) h = elim (Bool-cases (text_eq j k)) [
    | inl e ↦ absurd (cc (rw e at h))
    | inr e ↦ rw e (ap (λ rest. (j, w) ∷ rest) (erase_missing k d (rw e at h)))
  ]

  pub insert-sum :
      (f : V → ℕ) (k : Text) (v : V) (d : Dict V)
      → lookup k d ≡ none
      → sum_by (λ e. f e.1) (insert k v d) ≡ f v + sum_by (λ e. f e.1) d
  unfolding lookup insert
  insert-sum f k v [] h = refl
  insert-sum f k v ((j, w) ∷ d) h = elim (Bool-cases (text_eq j k)) [
    | inl e ↦ absurd (cc (rw e at h))
    | inr e ↦ rw e (omega (arith, insert-sum f k v d (rw e at h)))
  ]

  pub erase-sum :
      (f : V → ℕ) (k : Text) (v : V) (d : Dict V)
      → IsDistinct d
      → lookup k d ≡ some v
      → sum_by (λ e. f e.1) d ≡ f v + sum_by (λ e. f e.1) (erase k d)
  unfolding lookup erase
  erase-sum f k v [] h e = absurd (cc)
  erase-sum f k v ((j, w) ∷ d) h e = elim (Bool-cases (text_eq j k)) [
    | inl same ↦
        let is_w : w ≡ v = cc (rw same at e) in
        let rest = erase_missing k d (IsDistinct-first j k w d h same) in
        rw (same, rest) (ap (λ x. f x + sum_by (λ e. f e.1) d) is_w)
    | inr other ↦ rw other (omega (arith, erase-sum f k v d h.1 (rw other at e)))
  ]
