-- ===== src/Base/Lists.antt =====
-- Lists measured by native numbers, predicates by recursion, and the list facts the components share.
use kelpflux.Base.Tests.{if◌then◌else◌, Bool-cases}
use Prim.Native.Nat.{ℕ, zero, suc, ◌+◌, ◌-◌, ◌≤◌}
use mathlib.Core.Path.{◌≡◌, refl, ap, ◌∙◌, subst}
use mathlib.Core.Logic.{inl, inr, ∥∥₁_elim}
use native.Mathlib.Nat.{ℕ_set}
use mathlib.Core.Bool.{Bool, true, false, ◌||◌, ◌&&◌}
use mathlib.Core.List.{List, [], ◌∷◌, ◌++◌, map, Mem, Perm, Permᴰ, mem-cons_self, mem-cons_of_mem}
use mathlib.Core.Option.{Option, none, some}
use native.Mathlib.Omega.{arith}

module _ {ℓ} {A : Type ℓ} where
  abbrev pub length : List A → ℕ
  length [] = 0
  length (x ∷ xs) = suc (length xs)

  abbrev pub get_elem? : List A → ℕ → Option A
  get_elem? [] i = none
  get_elem? (x ∷ xs) zero = some x
  get_elem? (x ∷ xs) (suc i) = get_elem? xs i

  abbrev pub set : List A → ℕ → A → List A
  set [] i v = []
  set (x ∷ xs) zero v = v ∷ xs
  set (x ∷ xs) (suc i) v = x ∷ set xs i v

  abbrev pub take : ℕ → List A → List A
  take zero xs = []
  take (suc n) [] = []
  take (suc n) (x ∷ xs) = x ∷ take n xs

  abbrev pub replicate : ℕ → A → List A
  replicate zero a = []
  replicate (suc n) a = a ∷ replicate n a

  pub length-append : (xs ys : List A) → length (xs ++ ys) ≡ length xs + length ys
  length-append [] ys = omega arith
  length-append (x ∷ xs) ys = omega (arith, length-append xs ys)

-- range(lo, lo + n)
abbrev pub range_from : ℕ → ℕ → List ℕ
range_from lo zero = []
range_from lo (suc n) = lo ∷ range_from (suc lo) n

-- range(lo, hi)
abbrev pub range : ℕ → ℕ → List ℕ
range lo hi = range_from lo (hi - lo)

module _ {ℓ} {A : Type ℓ} where
  -- [x for x in xs if test(x)]
  abbrev pub filter : (A → Bool) → List A → List A
  filter test [] = []
  filter test (x ∷ xs) = if test x then x ∷ filter test xs else filter test xs

  abbrev pub any : (A → Bool) → List A → Bool
  any test [] = false
  any test (x ∷ xs) = test x || any test xs

  abbrev pub all : (A → Bool) → List A → Bool
  all test [] = true
  all test (x ∷ xs) = test x && all test xs

  abbrev pub sum_by : (A → ℕ) → List A → ℕ
  sum_by f [] = 0
  sum_by f (x ∷ xs) = f x + sum_by f xs

  pub sum_by-append : (f : A → ℕ) (xs ys : List A) → sum_by f (xs ++ ys) ≡ sum_by f xs + sum_by f ys
  sum_by-append f [] ys = omega arith
  sum_by-append f (x ∷ xs) ys = omega (arith, sum_by-append f xs ys)

abbrev pub All {ℓ κ} : {A : Type ℓ} → (A → Type κ) → List A → Type κ
All P [] = Unit
All P (x ∷ xs) = P x × All P xs

module _ {ℓ κ} {A : Type ℓ} (P : A → Type κ) where
  pub All-append : (front rest : List A) → All P front → All P rest → All P (front ++ rest)
  All-append [] rest h k = k
  All-append (x ∷ front) rest (here, h) k = (here, All-append front rest h k)

  pub All-split : (xs ys : List A) → All P (xs ++ ys) → All P xs × All P ys
  All-split [] ys h = (tt, h)
  All-split (x ∷ xs) ys h = let (hx, hy) = All-split xs ys h.1 in ((h.0, hx), hy)

  pub All-of_All : ((x : A) → P x) → (xs : List A) → All P xs
  All-of_All h [] = tt
  All-of_All h (x ∷ xs) = (h x, All-of_All h xs)

  pub All-filter : (test : A → Bool) (xs : List A) → All P xs → All P (filter test xs)
  All-filter test [] h = tt
  All-filter test (x ∷ xs) h = elim (Bool-cases (test x)) [
    | inl e ↦ rw e (h.0, All-filter test xs h.1)
    | inr e ↦ rw e (All-filter test xs h.1)
  ]

-- What passes the test does so in the filtered list.
pub filter-All {ℓ} :
    {A : Type ℓ} (test : A → Bool) (xs : List A) → All (λ x. test x ≡ true) (filter test xs)
filter-All test [] = tt
filter-All test (x ∷ xs) = elim (Bool-cases (test x)) [
  | inl e ↦ rw e (e, filter-All test xs)
  | inr e ↦ rw e (filter-All test xs)
]

pub All-map_impl {ℓ κ μ} :
    {A : Type ℓ} (P : A → Type κ) (Q : A → Type μ) (xs : List A)
    → ((x : A) → P x → Q x)
    → All P xs
    → All Q xs
All-map_impl P Q [] f h = tt
All-map_impl P Q (x ∷ xs) f h = (f x h.0, All-map_impl P Q xs f h.1)

pub All-both {ℓ κ μ} :
    {A : Type ℓ} (P : A → Type κ) (Q : A → Type μ) (xs : List A)
    → All P xs
    → All Q xs
    → All (λ x. P x × Q x) xs
All-both P Q [] h k = tt
All-both P Q (x ∷ xs) h k = ((h.0, k.0), All-both P Q xs h.1 k.1)

pub length-filter-le {ℓ} :
    {A : Type ℓ} (test : A → Bool) (xs : List A) → length (filter test xs) ≤ length xs
length-filter-le test [] = omega arith
length-filter-le test (x ∷ xs) = ground (arith, length-filter-le test xs)

pub All-map {ℓ μ κ} :
    {A : Type ℓ} {B : Type μ} (P : B → Type κ) (f : A → B) (xs : List A)
    → All (λ x. P (f x)) xs
    → All P (map f xs)
All-map P f [] h = tt
All-map P f (x ∷ xs) h = (h.0, All-map P f xs h.1)

pub All-Mem {ℓ} : {A : Type ℓ} (xs : List A) → All (λ x. Mem x xs) xs
All-Mem [] = tt
All-Mem (x ∷ xs) = (
  mem-cons_self,
  All-map_impl _ (λ y. Mem y (x ∷ xs)) xs (λ y m. mem-cons_of_mem x m) (All-Mem xs),
)

pub All-take {ℓ κ} :
    {A : Type ℓ} (P : A → Type κ) (n : ℕ) (xs : List A) → All P xs → All P (take n xs)
All-take P zero xs h = tt
All-take P (suc n) [] h = tt
All-take P (suc n) (x ∷ xs) h = (h.0, All-take P n xs h.1)

-- What holds of all elements holds of the one at an index.
pub All-get_elem? {ℓ κ} :
    {A : Type ℓ} (P : A → Type κ) (xs : List A) (i : ℕ) (a : A)
    → All P xs
    → get_elem? xs i ≡ some a
    → P a
All-get_elem? P [] i a h e = absurd (cc)
All-get_elem? P (x ∷ xs) zero a h e = let same : x ≡ a = cc in subst P same h.0
All-get_elem? P (x ∷ xs) (suc i) a h e = All-get_elem? P xs i a h.1 e

-- A sum does not depend on the order.
sum_by-Permᴰ {ℓ} :
    {A : Type ℓ} (f : A → ℕ) {xs ys : List A} → Permᴰ xs ys → sum_by f xs ≡ sum_by f ys
sum_by-Permᴰ f Permᴰ.nil = refl
sum_by-Permᴰ f (Permᴰ.cons e d) = omega (arith, ap f e, sum_by-Permᴰ f d)
sum_by-Permᴰ f (Permᴰ.swap d e) = omega (arith, ap f d, ap f e)
sum_by-Permᴰ f (Permᴰ.trans d e) = sum_by-Permᴰ f d ∙ sum_by-Permᴰ f e

pub sum_by-Perm {ℓ} :
    {A : Type ℓ} (f : A → ℕ) {xs ys : List A} → Perm xs ys → sum_by f xs ≡ sum_by f ys
sum_by-Perm f p = ∥∥₁_elim p (ℕ_set _ _) (sum_by-Permᴰ f)
