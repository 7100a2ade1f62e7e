-- ===== src/Base/Sort.antt =====
-- Python's `sorted`: the stable sort by a key order. Insertion sort is that function, executable.
use kelpflux.Base.Tests.{if◌then◌else◌, Bool-cases}
use kelpflux.Base.Lists.{All, any}
use mathlib.Core.Path.{◌≡◌, refl, ap, ◌∙◌}
use mathlib.Core.Logic.{◌⊎◌, inl, inr}
use mathlib.Core.Bool.{Bool, true, false, ◌||◌}
use native.Mathlib.Omega.{arith}
use mathlib.Core.List.{List, [], ◌∷◌, Perm}
use mathlib.Core.List.Perm

-- Every element is `le` all that stand behind it.
abbrev pub IsSorted {ℓ} : {A : Type ℓ} → (A → A → Bool) → List A → Type 0
IsSorted le [] = Unit
IsSorted le (x ∷ xs) = All (λ y. le x y ≡ true) xs × IsSorted le xs

module _ {ℓ} {A : Type ℓ} (le : A → A → Bool) where
  unfoldable pub insert_sorted : A → List A → List A
  insert_sorted x [] = x ∷ []
  insert_sorted x (y ∷ ys) = if le x y then x ∷ y ∷ ys else y ∷ insert_sorted x ys

  unfoldable pub sorted : List A → List A
  unfolding insert_sorted
  sorted [] = []
  sorted (x ∷ xs) = insert_sorted x (sorted xs)

  insert_sorted-perm : (x : A) (ys : List A) → Perm (insert_sorted x ys) (x ∷ ys)
  unfolding insert_sorted
  insert_sorted-perm x [] = Perm.refl (x ∷ [])
  insert_sorted-perm x (y ∷ ys) = elim (Bool-cases (le x y)) [
    | inl e ↦ rw e (Perm.refl (x ∷ y ∷ ys))
    | inr e ↦ rw e (Perm.trans (Perm.cons y (insert_sorted-perm x ys)) (Perm.swap x y ys))
  ]

  pub sorted-perm : (xs : List A) → Perm (sorted xs) xs
  unfolding sorted
  sorted-perm [] = Perm.refl []
  sorted-perm (x ∷ xs) =
      Perm.trans (insert_sorted-perm x (sorted xs)) (Perm.cons x (sorted-perm xs))

  insert_sorted-All {κ} :
      (P : A → Type κ) (x : A) (ys : List A) → P x → All P ys → All P (insert_sorted x ys)
  unfolding insert_sorted
  insert_sorted-All P x [] px h = (px, tt)
  insert_sorted-All P x (y ∷ ys) px h = elim (Bool-cases (le x y)) [
    | inl e ↦ rw e (px, h)
    | inr e ↦ rw e (h.0, insert_sorted-All P x ys px h.1)
  ]

  pub sorted-All {κ} : (P : A → Type κ) (xs : List A) → All P xs → All P (sorted xs)
  unfolding sorted
  sorted-All P [] h = tt
  sorted-All P (x ∷ xs) h = insert_sorted-All P x (sorted xs) h.0 (sorted-All P xs h.1)

  insert_sorted-any :
      (test : A → Bool) (x : A) (ys : List A)
      → any test (insert_sorted x ys) ≡ (test x || any test ys)
  unfolding insert_sorted
  insert_sorted-any test x [] = refl
  insert_sorted-any test x (y ∷ ys) = ground (arith, insert_sorted-any test x ys)

  pub sorted-any : (test : A → Bool) (xs : List A) → any test (sorted xs) ≡ any test xs
  unfolding sorted
  sorted-any test [] = refl
  sorted-any test (x ∷ xs) =
      insert_sorted-any test x (sorted xs) ∙ ap (λ b. test x || b) (sorted-any test xs)

-- Over a total preorder the result is sorted.
module _ {ℓ} {A : Type ℓ} (le : A → A → Bool)
    (total : (x y : A) → (le x y ≡ true) ⊎ (le y x ≡ true))
    (trans : (x y z : A) → le x y ≡ true → le y z ≡ true → le x z ≡ true) where
  below-All :
      (x y : A) (ys : List A)
      → le x y ≡ true
      → All (λ z. le y z ≡ true) ys
      → All (λ z. le x z ≡ true) ys
  below-All x y [] h k = tt
  below-All x y (z ∷ zs) h k = (trans x y z h k.0, below-All x y zs h k.1)

  flip_false : (x y : A) → le x y ≡ false → le y x ≡ true
  flip_false x y h = elim (total x y) [ inl e ↦ cc | inr e ↦ e ]

  insert_sorted-IsSorted :
      (x : A) (ys : List A) → IsSorted le ys → IsSorted le (insert_sorted le x ys)
  unfolding insert_sorted
  insert_sorted-IsSorted x [] h = (tt, tt)
  insert_sorted-IsSorted x (y ∷ ys) h = elim (Bool-cases (le x y)) [
    | inl e ↦ rw e ((e, below-All x y ys e h.0), h)
    | inr e ↦ rw e (
      insert_sorted-All le (λ z. le y z ≡ true) x ys (flip_false x y e) h.0,
      insert_sorted-IsSorted x ys h.1,
    )
  ]

  pub sorted-IsSorted : (xs : List A) → IsSorted le (sorted le xs)
  unfolding sorted
  sorted-IsSorted [] = tt
  sorted-IsSorted (x ∷ xs) = insert_sorted-IsSorted x (sorted le xs) (sorted-IsSorted xs)
