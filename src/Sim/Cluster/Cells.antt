-- ===== src/Sim/Cluster/Cells.antt =====
-- sim/cluster.py: the free slots of one GPU, before and after a plan is carried out or undone.
use kelpflux.Base.{
  ℕ, zero, suc, ◌+◌, ◌-◌, ◌≤◌, ◌≡◌, refl, sym, ap, ◌∙◌, subst, inl, inr, true, false, ◌&&◌, Option,
  none, some, List, [], ◌∷◌, get_elem?, sum_by, All, Bool-cases, ◌==◌, ==_iff, if◌then◌else◌, arith,
}
use kelpflux.Sim.Cluster.{
  Allocation, Node, update_at, change_gpus, change_nodes, change_ram, mem_nat,
}
use kelpflux.Sim.Cluster.Undo.{IsSpread, host_ids, IsHeld, mem_nat-later, takes, gives}

abbrev pub changed {ℓ} : {A : Type ℓ} → (A → A) → Option A → Option A
changed f none = none
changed f (some x) = some (f x)

get_elem?-update_at {ℓ} :
    {A : Type ℓ} (f : A → A) (i k : ℕ) (xs : List A)
    → get_elem? (update_at f i xs) k
      ≡ (if k == i then changed f (get_elem? xs k) else get_elem? xs k)
unfolding update_at
get_elem?-update_at f i k [] = ground arith
get_elem?-update_at f zero zero (x ∷ xs) = refl
get_elem?-update_at f zero (suc k) (x ∷ xs) = ground arith
get_elem?-update_at f (suc i) zero (x ∷ xs) = ground arith
get_elem?-update_at f (suc i) (suc k) (x ∷ xs) = ground (arith, get_elem?-update_at f i k xs)

-- The free slots of GPU `g` of node `i`.
abbrev gpu_of : ℕ → Option Node → Option ℕ
gpu_of g none = none
gpu_of g (some n) = get_elem? n.gpus g

abbrev pub cell : ℕ → ℕ → List Node → Option ℕ
cell i g nodes = gpu_of g (get_elem? nodes i)

-- The slots that an allocation holds of that GPU.
abbrev pub part : ℕ → ℕ → Allocation → ℕ
part i g a = if i == a.node_id && mem_nat g a.gpu_indices then a.mps_per_gpu else 0

change_gpus-at :
    (f : ℕ → ℕ) (g : ℕ) (is : List ℕ) (gpus : List ℕ)
    → IsSpread is
    → get_elem? (change_gpus f is gpus) g
      ≡ (if mem_nat g is then changed f (get_elem? gpus g) else get_elem? gpus g)
unfolding change_gpus
change_gpus-at f g [] gpus h = refl
change_gpus-at f g (i ∷ is) gpus h = elim (Bool-cases (g == i)) [
  | inl e ↦
      let none_later : mem_nat g is ≡ false =
        subst (λ m. mem_nat m is ≡ false) (sym ((==_iff g i).0 e)) h.0 in
      rw e (
        change_gpus-at f g is (update_at f i gpus) h.1
        ∙ rw (none_later, get_elem?-update_at, e) refl)
  | inr e ↦ rw e (change_gpus-at f g is (update_at f i gpus) h.1 ∙ rw (get_elem?-update_at, e) refl)
]

minus_none : (x : Option ℕ) → x ≡ changed (λ free. free - 0) x
minus_none none = refl
minus_none (some free) = ap some (omega arith)

plus_none : (x : Option ℕ) → x ≡ changed (λ free. free + 0) x
plus_none none = refl
plus_none (some free) = ap some (omega arith)

pub All-mem_nat : (P : ℕ → Type 0) (g : ℕ) (is : List ℕ) → mem_nat g is ≡ true → All P is → P g
All-mem_nat P g [] h all = absurd (cc)
All-mem_nat P g (i ∷ is) h all = elim (Bool-cases (g == i)) [
  | inl e ↦ subst P (sym ((==_iff g i).0 e)) all.0
  | inr e ↦ All-mem_nat P g is (rw e at h) all.1
]

module _ (i g : ℕ) where
  -- One allocation is carried out or undone.
  abbrev on_node : (ℕ → ℕ) → Allocation → Node → Node
  on_node f a n = record n { gpus = change_gpus f a.gpu_indices n.gpus }

  cell-on_node :
      (f : ℕ → ℕ) (a : Allocation) (nodes : List Node)
      → IsSpread a.gpu_indices
      → cell i g (update_at (on_node f a) a.node_id nodes) ≡ (
          if i == a.node_id && mem_nat g a.gpu_indices
          then changed f (cell i g nodes)
          else cell i g nodes)
  cell-on_node f a nodes spread = rw get_elem?-update_at (of (get_elem? nodes i))
    where
      of :
          (o : Option Node)
          → gpu_of g (if i == a.node_id then changed (on_node f a) o else o) ≡ (
              if i == a.node_id && mem_nat g a.gpu_indices
              then changed f (gpu_of g o)
              else gpu_of g o)
      of none = ground arith
      of (some n) = elim (Bool-cases (i == a.node_id)) [
        | inl e ↦ rw e (change_gpus-at f g a.gpu_indices n.gpus spread)
        | inr e ↦ rw e refl
      ]

  -- The slots that a plan holds of the GPU.
  abbrev pub held_by : List Allocation → ℕ
  held_by plan = sum_by (part i g) plan

  takes-then :
      (a : Allocation) (x : Option ℕ) (n : ℕ)
      → changed
          (λ free. free - n)
          (if i == a.node_id && mem_nat g a.gpu_indices then changed (takes a.mps_per_gpu) x else x)
        ≡ changed (λ free. free - (part i g a + n)) x
  takes-then a none n = ground arith
  takes-then a (some free) n = ground arith

  gives-then :
      (a : Allocation) (x : Option ℕ) (n : ℕ)
      → changed
          (λ free. free + n)
          (if i == a.node_id && mem_nat g a.gpu_indices then changed (gives a.mps_per_gpu) x else x)
        ≡ changed (λ free. free + (part i g a + n)) x
  gives-then a none n = ground arith
  gives-then a (some free) n = ground arith

  pub cell-takes :
      (plan : List Allocation) (nodes : List Node)
      → All (λ a. IsSpread a.gpu_indices) plan
      → cell i g (change_nodes takes plan nodes)
        ≡ changed (λ free. free - held_by plan) (cell i g nodes)
  unfolding change_nodes
  cell-takes [] nodes h = minus_none (cell i g nodes)
  cell-takes (a ∷ plan) nodes h =
      cell-takes plan (update_at (on_node (takes a.mps_per_gpu) a) a.node_id nodes) h.1
      ∙ ap (changed (λ free. free - held_by plan)) (cell-on_node (takes a.mps_per_gpu) a nodes h.0)
      ∙ takes-then a (cell i g nodes) (held_by plan)

  pub cell-gives :
      (plan : List Allocation) (nodes : List Node)
      → All (λ a. IsSpread a.gpu_indices) plan
      → cell i g (change_nodes gives plan nodes)
        ≡ changed (λ free. free + held_by plan) (cell i g nodes)
  unfolding change_nodes
  cell-gives [] nodes h = plus_none (cell i g nodes)
  cell-gives (a ∷ plan) nodes h =
      cell-gives plan (update_at (on_node (gives a.mps_per_gpu) a) a.node_id nodes) h.1
      ∙ ap (changed (λ free. free + held_by plan)) (cell-on_node (gives a.mps_per_gpu) a nodes h.0)
      ∙ gives-then a (cell i g nodes) (held_by plan)

  pub cell-change_ram :
      (f : ℕ → ℕ) (is : List ℕ) (nodes : List Node)
      → cell i g (change_ram f is nodes) ≡ cell i g nodes
  unfolding change_ram
  cell-change_ram f [] nodes = refl
  cell-change_ram f (k ∷ is) nodes =
      cell-change_ram f is (update_at (λ n. record n { used_ram_gb = f n.used_ram_gb }) k nodes)
      ∙ rw get_elem?-update_at (of (get_elem? nodes i))
    where
      of :
          (o : Option Node)
          → gpu_of g
              (if i == k then changed (λ n. record n { used_ram_gb = f n.used_ram_gb }) o else o)
            ≡ gpu_of g o
      of none = ground arith
      of (some n) = ground arith

  not_held : (plan : List Allocation) → mem_nat i (host_ids plan) ≡ false → held_by plan ≡ 0
  not_held [] h = refl
  not_held (a ∷ plan) h =
      ground (arith, h, not_held plan (mem_nat-later i a.node_id (host_ids plan) h))

  -- A plan that can be carried out holds no more of a GPU than is free there.
  pub held_by-le :
      (plan : List Allocation) (nodes : List Node) (x : ℕ)
      → IsSpread (host_ids plan)
      → All (IsHeld nodes) plan
      → cell i g nodes ≡ some x
      → held_by plan ≤ x
  held_by-le [] nodes x spread held at = omega arith
  held_by-le (a ∷ plan) nodes x spread ((n, e, slots, once), held) at =
      let later = held_by-le plan nodes x spread.1 held at in
      elim (Bool-cases (i == a.node_id)) [
        | inr other ↦ rw other (omega (arith, later))
        | inl same ↦ elim (Bool-cases (mem_nat g a.gpu_indices)) [
          | inr other ↦ rw (same, other) (omega (arith, later))
          | inl among ↦
              let is_node : i ≡ a.node_id = (==_iff i a.node_id).0 same in
              let (free, has, enough) = All-mem_nat _ g a.gpu_indices among slots in
              let is_x : free ≡ x = cc (rw (is_node, e, has) at at) in
              let none_later =
                not_held plan
                  (subst (λ m. mem_nat m (host_ids plan) ≡ false) (sym is_node) spread.0) in
              rw (same, among) (omega (arith, none_later, enough, is_x))
        ]
      ]
