-- ===== src/Scheduler/Placement/Usable.antt =====
-- services/rl_scheduler/placement_controller.py: the nodes that the policy
-- is asked about.
use kelpflux.Base.{
  All-take, All-both, All-filter, filter-All, filter, ◌⊎◌, ◌||◌, mem_text, starts_with, text_eq_iff,
  ◌≡◌, refl, subst, inl, inr, Bool, true, false, Option, none, some, ℤ, pos, negsuc, List, [], ◌∷◌,
  Mem, Text, text_eq, leb, All, All-Mem, All-map_impl, Bool-cases, Option-cases, Dict, lookup,
  insert, lookup-insert, arith,
}
use kelpflux.Scheduler.Snapshot.{NodeItem}
use kelpflux.Scheduler.Placement.{SlurmNode, parse_nodes}
use kelpflux.Scheduler.Placement.Payload.{trim_nodes_to_model_topology}
use kelpflux.Scheduler.Placement.Choose.{
  Options, Answers, if_given, no_names, usable_nodes, nodes_by_name, node_or, resolve,
  effective_nodes,
}

module _ (o : Options) where
  -- Slurm reports the node among these, as one that takes jobs, and the options allow it: they name
  -- it, or no node, and its name has their prefix, if any.
  pub record IsUsable (items : List NodeItem) (node : SlurmNode) : Type 0 where
    pub reported : Mem node (parse_nodes o.mps_per_gpu items)
    pub takes_jobs : node.available ≡ true
    pub has_name : text_eq node.name [] ≡ false
    pub is_listed : (o.node_names ≡ []) ⊎ (mem_text node.name o.node_names ≡ true)
    pub has_prefix : (o.node_name_prefix ≡ []) ⊎ (starts_with node.name o.node_name_prefix ≡ true)

  given : (s : Text) (test : Bool) → if_given s test ≡ true → (s ≡ []) ⊎ (test ≡ true)
  given s test h = elim (Bool-cases (text_eq s [])) [
    | inl e ↦ inl ((text_eq_iff _ _).0 e)
    | inr e ↦ inr (ground (arith, e, h))
  ]

  listed :
      (name : Text) (names : List Text)
      → (no_names names || mem_text name names) ≡ true
      → (names ≡ []) ⊎ (mem_text name names ≡ true)
  listed name [] h = inl refl
  listed name (n ∷ ns) h = inr h

  pub usable_nodes-All :
      (items : List NodeItem)
      → All (IsUsable items) (usable_nodes o (parse_nodes o.mps_per_gpu items))
  unfolding usable_nodes
  usable_nodes-All items =
      All-map_impl _ _ _
        (λ node (((m, usable), named), prefix). record {
          reported = m;
          takes_jobs = ground (arith, usable);
          has_name = ground (arith, usable);
          is_listed = listed node.name o.node_names named;
          has_prefix = given o.node_name_prefix _ prefix;
        })
        (kept_by _ _ _ (kept_by _ _ _ (kept_by _ _ _ (All-Mem (parse_nodes o.mps_per_gpu items)))))
    where
      kept_by :
          (P : SlurmNode → Type 0) (keep : SlurmNode → Bool) (xs : List SlurmNode)
          → All P xs
          → All (λ x. P x × (keep x ≡ true)) (filter keep xs)
      kept_by P keep xs h = All-both _ _ _ (All-filter P keep xs h) (filter-All keep xs)

module _ (P : SlurmNode → Type 0) where
  -- Every value of the dictionary satisfies the predicate.
  AllIn : Dict SlurmNode → Type 0
  AllIn d = (name : Text) (n : SlurmNode) → lookup name d ≡ some n → P n

  nodes_by_name-AllIn :
      (nodes : List SlurmNode) (d : Dict SlurmNode)
      → All P nodes
      → AllIn d
      → AllIn (nodes_by_name nodes d)
  unfolding nodes_by_name AllIn
  nodes_by_name-AllIn [] d h k = k
  nodes_by_name-AllIn (n ∷ ns) d h k = nodes_by_name-AllIn ns (insert n.name n d) h.1 (λ name m e.
      elim (Bool-cases (text_eq n.name name)) [
        | inl same ↦ let here : n ≡ m = cc (rw (lookup-insert, same) at e) in subst P here h.0
        | inr other ↦ k name m (rw (lookup-insert, other) at e)
      ])

  node_or_lem :
      (n : SlurmNode) (found : Option SlurmNode)
      → P n
      → ((m : SlurmNode) → found ≡ some m → P m)
      → P (node_or n found)
  node_or_lem n none h k = h
  node_or_lem n (some m) h k = k m refl

  resolve-All :
      (d : Dict SlurmNode) (nodes : List SlurmNode)
      → AllIn d
      → All P nodes
      → All P (resolve d nodes)
  unfolding resolve AllIn
  resolve-All d [] k h = tt
  resolve-All d (n ∷ ns) k h =
      (node_or_lem n (lookup n.name d) h.0 (k n.name), resolve-All d ns k h.1)

trim-All :
    (P : SlurmNode → Type 0) (n_actions : Option ℤ) (nodes : List SlurmNode)
    → All P nodes
    → All P (trim_nodes_to_model_topology n_actions nodes)
unfolding trim_nodes_to_model_topology
trim-All P none nodes h = h
trim-All P (some (negsuc n)) nodes h = h
trim-All P (some (pos n)) nodes h = elim (Bool-cases (leb n 1)) [
  | inl few ↦ rw few h
  | inr more ↦ rw more (All-take P _ nodes h)
]

module _ (o : Options) (answers : Answers) where
  pub effective_nodes-All :
      (P : SlurmNode → Type 0) (available ns : List SlurmNode)
      → All P available
      → effective_nodes o answers available ≡ some ns
      → All P ns
  unfolding effective_nodes AllIn lookup
  effective_nodes-All P available ns h e =
      let known = nodes_by_name-AllIn P available [] h (λ name n gone. absurd (cc)) in
      elim (Bool-cases o.auto_trim_model_topology) [
        | inr untrimmed ↦ subst (All P) (cc (rw untrimmed at e)) (resolve-All P _ available known h)
        | inl trimmed ↦ elim (Option-cases answers.health) [
          | inl fails ↦ absurd (cc (rw (trimmed, fails) at e))
          | inr (n_actions, at) ↦
              subst (All P) (cc (rw (trimmed, at) at e))
                (resolve-All P _ _ known (trim-All P n_actions available h))
        ]
      ]
