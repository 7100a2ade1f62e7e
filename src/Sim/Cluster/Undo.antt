-- ===== src/Sim/Cluster/Undo.antt =====
-- sim/cluster.py: release gives back exactly what an allocation has taken.
use kelpflux.Base.{
  ℕ, zero, suc, ◌+◌, ◌-◌, ◌≤◌, ◌≡◌, ◌≢◌, refl, sym, ap, ◌∙◌, ◌⊎◌, inl, inr, false, some, List, [],
  ◌∷◌, get_elem?, All, arith,
}
use kelpflux.Sim.Cluster.{Allocation, Node, update_at, change_gpus, change_nodes, mem_nat}
use kelpflux.Sim.Cluster.Plans.{HasSlots}

module _ {A : Type 0} where
  -- Updates of two elements, and updates by functions that commute, may be exchanged.
  pub update_at-update_at :
      (f g : A → A) (i j : ℕ) (xs : List A)
      → (i ≢ j) ⊎ ((x : A) → f (g x) ≡ g (f x))
      → update_at f i (update_at g j xs) ≡ update_at g j (update_at f i xs)
  unfolding update_at
  update_at-update_at f g i j [] h = refl
  update_at-update_at f g zero zero (x ∷ xs) (inl ne) = absurd (ne refl)
  update_at-update_at f g zero zero (x ∷ xs) (inr c) = ap (λ y. y ∷ xs) (c x)
  update_at-update_at f g zero (suc j) (x ∷ xs) h = refl
  update_at-update_at f g (suc i) zero (x ∷ xs) h = refl
  update_at-update_at f g (suc i) (suc j) (x ∷ xs) (inl ne) =
      ap (λ ys. x ∷ ys) (update_at-update_at f g i j xs (inl (λ e. ne (ap suc e))))
  update_at-update_at f g (suc i) (suc j) (x ∷ xs) (inr c) =
      ap (λ ys. x ∷ ys) (update_at-update_at f g i j xs (inr c))

  -- An update that is undone by another.
  update_at_undone :
      (f g : A → A) (i : ℕ) (x : A) (xs : List A)
      → get_elem? xs i ≡ some x
      → f (g x) ≡ x
      → update_at f i (update_at g i xs) ≡ xs
  unfolding update_at
  update_at_undone f g i x [] e h = ground (arith, e)
  update_at_undone f g zero x (y ∷ xs) e h =
      let same : y ≡ x = ground (arith, e) in
      ap (λ z. z ∷ xs) (ap (λ z. f (g z)) same ∙ h ∙ sym same)
  update_at_undone f g (suc i) x (y ∷ xs) e h = ap (λ ys. y ∷ ys) (update_at_undone f g i x xs e h)

-- No index stands twice.
abbrev pub IsSpread : List ℕ → Type 0
IsSpread [] = Unit
IsSpread (i ∷ is) = (mem_nat i is ≡ false) × IsSpread is

pub mem_nat-ne : (i k : ℕ) (is : List ℕ) → mem_nat i (k ∷ is) ≡ false → i ≢ k
mem_nat-ne i k is h e = ground (arith, h, e)

pub mem_nat-later : (i k : ℕ) (is : List ℕ) → mem_nat i (k ∷ is) ≡ false → mem_nat i is ≡ false
mem_nat-later i k is h = ground (arith, h)

update_at-change_gpus :
    (f g : ℕ → ℕ) (i : ℕ) (is xs : List ℕ)
    → mem_nat i is ≡ false
    → update_at f i (change_gpus g is xs) ≡ change_gpus g is (update_at f i xs)
unfolding change_gpus
update_at-change_gpus f g i [] xs h = refl
update_at-change_gpus f g i (k ∷ is) xs h =
    update_at-change_gpus f g i is (update_at g k xs) (mem_nat-later i k is h)
    ∙ ap (change_gpus g is) (update_at-update_at f g i k xs (inl (mem_nat-ne i k is h)))

add_back : (mps free : ℕ) → mps ≤ free → free - mps + mps ≡ free
add_back mps free h = omega (arith, h)

change_gpus_undone :
    (mps : ℕ) (is gpus : List ℕ)
    → IsSpread is
    → All (HasSlots mps gpus) is
    → change_gpus (λ free. free + mps) is (change_gpus (λ free. free - mps) is gpus) ≡ gpus
unfolding change_gpus
change_gpus_undone mps [] gpus spread slots = refl
change_gpus_undone mps (i ∷ is) gpus spread ((free, e, enough), slots) =
    ap (change_gpus (λ free. free + mps) is) (
      update_at-change_gpus (λ free. free + mps) (λ free. free - mps) i is _ spread.0
      ∙ ap (change_gpus (λ free. free - mps) is) (
          update_at_undone (λ free. free + mps) (λ free. free - mps) i free gpus e
            (add_back mps free enough)))
    ∙ change_gpus_undone mps is gpus spread.1 slots

-- The change of one node by an allocation.
abbrev pub change_node : (ℕ → ℕ → ℕ) → Allocation → Node → Node
change_node f a n = record n { gpus = change_gpus (f a.mps_per_gpu) a.gpu_indices n.gpus }

abbrev pub host_ids : List Allocation → List ℕ
host_ids [] = []
host_ids (a ∷ plan) = a.node_id ∷ host_ids plan

update_at-change_nodes :
    (f : Node → Node) (g : ℕ → ℕ → ℕ) (i : ℕ) (plan : List Allocation) (xs : List Node)
    → mem_nat i (host_ids plan) ≡ false
    → update_at f i (change_nodes g plan xs) ≡ change_nodes g plan (update_at f i xs)
unfolding change_nodes
update_at-change_nodes f g i [] xs h = refl
update_at-change_nodes f g i (a ∷ plan) xs h =
    update_at-change_nodes f g i plan (update_at (change_node g a) a.node_id xs)
      (mem_nat-later i a.node_id (host_ids plan) h)
    ∙ ap (change_nodes g plan) (
        update_at-update_at f (change_node g a) i a.node_id xs
          (inl (mem_nat-ne i a.node_id (host_ids plan) h)))

abbrev pub takes : ℕ → ℕ → ℕ
takes mps free = free - mps

abbrev pub gives : ℕ → ℕ → ℕ
gives mps free = free + mps

-- The allocation's node has the slots, on GPUs that are listed once each.
abbrev pub IsHeld : List Node → Allocation → Type 0
IsHeld nodes a =
    (n : Node) × (get_elem? nodes a.node_id ≡ some n)
    × All (HasSlots a.mps_per_gpu n.gpus) a.gpu_indices
    × IsSpread a.gpu_indices

pub change_nodes_undone :
    (plan : List Allocation) (nodes : List Node)
    → IsSpread (host_ids plan)
    → All (IsHeld nodes) plan
    → change_nodes gives plan (change_nodes takes plan nodes) ≡ nodes
unfolding change_nodes
change_nodes_undone [] nodes spread held = refl
change_nodes_undone (a ∷ plan) nodes spread ((n, e, slots, once), held) =
    ap (change_nodes gives plan) (
      update_at-change_nodes (change_node gives a) takes a.node_id plan _ spread.0
      ∙ ap (change_nodes takes plan) (
          update_at_undone (change_node gives a) (change_node takes a) a.node_id n nodes e (
            ap (λ g. record n { gpus = g })
              (change_gpus_undone a.mps_per_gpu a.gpu_indices n.gpus once slots))))
    ∙ change_nodes_undone plan nodes spread.1 held
