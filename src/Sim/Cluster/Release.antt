-- ===== src/Sim/Cluster/Release.antt =====
-- sim/cluster.py: release after an allocation.
use kelpflux.Base.{
  ℕ, zero, suc, map, ◌≡◌, refl, ap, ◌∙◌, inr, none, List, [], ◌∷◌, Text, Dict, text_eq_iff, lookup,
  insert, erase, lookup-insert, lookup-insert_self, lookup-erase, All, arith,
}
use kelpflux.Sim.Cluster.{
  Job, Allocation, Node, Cluster, update_at, change_nodes, hosts, change_ram, reserve_ram, commit,
  release_plan, release,
}
use kelpflux.Sim.Cluster.Undo.{
  update_at-update_at, IsSpread, change_node, host_ids, takes, gives, IsHeld, change_nodes_undone,
}

abbrev change_used : (ℕ → ℕ) → Node → Node
change_used f n = record n { used_ram_gb = f n.used_ram_gb }

-- The free slots of each GPU, node by node.
abbrev pub slots_of : List Node → List (List ℕ)
slots_of nodes = map (λ n. n.gpus) nodes

slots_of-update_at :
    (f : ℕ → ℕ) (i : ℕ) (xs : List Node) → slots_of (update_at (change_used f) i xs) ≡ slots_of xs
unfolding update_at
slots_of-update_at f i [] = refl
slots_of-update_at f zero (x ∷ xs) = refl
slots_of-update_at f (suc i) (x ∷ xs) = ap (λ l. x.gpus ∷ l) (slots_of-update_at f i xs)

-- Whatever is done to the used memory, the slots stay.
slots_of-change_ram :
    (f : ℕ → ℕ) (is : List ℕ) (xs : List Node) → slots_of (change_ram f is xs) ≡ slots_of xs
unfolding change_ram
slots_of-change_ram f [] xs = refl
slots_of-change_ram f (i ∷ is) xs = slots_of-change_ram f is _ ∙ slots_of-update_at f i xs

-- The slots and the memory of a node are changed independently.
change_node-change_ram :
    (f : ℕ → ℕ → ℕ) (g : ℕ → ℕ) (a : Allocation) (is : List ℕ) (xs : List Node)
    → update_at (change_node f a) a.node_id (change_ram g is xs)
      ≡ change_ram g is (update_at (change_node f a) a.node_id xs)
unfolding change_ram
change_node-change_ram f g a [] xs = refl
change_node-change_ram f g a (k ∷ is) xs =
    change_node-change_ram f g a is (update_at (change_used g) k xs)
    ∙ ap (change_ram g is)
        (update_at-update_at (change_node f a) (change_used g) a.node_id k xs (inr (λ n. refl)))

change_nodes-change_ram :
    (f : ℕ → ℕ → ℕ) (g : ℕ → ℕ) (plan : List Allocation) (is : List ℕ) (xs : List Node)
    → change_nodes f plan (change_ram g is xs) ≡ change_ram g is (change_nodes f plan xs)
unfolding change_nodes
change_nodes-change_ram f g [] is xs = refl
change_nodes-change_ram f g (a ∷ plan) is xs =
    ap (change_nodes f plan) (change_node-change_ram f g a is xs)
    ∙ change_nodes-change_ram f g plan is (update_at (change_node f a) a.node_id xs)

slots_restored :
    (f g : ℕ → ℕ) (is js : List ℕ) (plan : List Allocation) (nodes : List Node)
    → IsSpread (host_ids plan)
    → All (IsHeld nodes) plan
    → slots_of (
        change_ram f is (change_nodes gives plan (change_ram g js (change_nodes takes plan nodes))))
      ≡ slots_of nodes
slots_restored f g is js plan nodes spread held =
    slots_of-change_ram f is _
    ∙ ap slots_of (change_nodes-change_ram gives g plan js (change_nodes takes plan nodes))
    ∙ slots_of-change_ram g js _
    ∙ ap slots_of (change_nodes_undone plan nodes spread held)

erased :
    (k j : Text) (v : List Allocation) (d : Dict (List Allocation))
    → lookup k d ≡ none
    → lookup j (erase k (insert k v d)) ≡ lookup j d
erased k j v d fresh =
    lookup-erase k j (insert k v d)
    ∙ ground (arith, lookup-insert k j v d, fresh, text_eq_iff k j, ap (λ i. lookup i d))

-- A plan whose allocations are on different nodes, each on GPUs listed once that have the slots free,
-- is carried out and released: the GPUs have the free slots that they had, and the job, which was not
-- active before, is not active.
pub commit-release :
    (job : Job) (plan : List Allocation) (self : Cluster) (other : Text)
    → IsSpread (host_ids plan)
    → All (IsHeld self.nodes) plan
    → lookup job.job_id self.active ≡ none
    → let after = release job.job_id (commit job plan self) in
      (slots_of after.nodes ≡ slots_of self.nodes)
      × (lookup other after.active ≡ lookup other self.active)
unfolding release release_plan commit reserve_ram
commit-release job plan self other spread held fresh = (
  rw (lookup-insert_self job.job_id plan self.active)
      (slots_restored _ _ (hosts plan) (hosts plan) plan self.nodes spread held),
  rw (lookup-insert_self job.job_id plan self.active)
      (erased job.job_id other plan self.active fresh),
)
