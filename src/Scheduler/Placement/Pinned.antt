-- ===== src/Scheduler/Placement/Pinned.antt =====
-- services/rl_scheduler/placement_controller.py: which job updates a cycle of the controller sends.
use kelpflux.Base.{
  ℕ, zero, suc, ◌≤◌, max, ◌≡◌, refl, inl, inr, Bool, true, false, Option, none, some, ℤ, pos,
  negsuc, List, [], ◌∷◌, ◌++◌, Text, get_elem?, All, length, length-append, All-append,
  All-map_impl, Bool-cases, if◌then◌else◌, arith,
}
use kelpflux.Scheduler.Snapshot.{JobItem, NodeItem}
use kelpflux.Scheduler.Placement.{SlurmJob, SlurmNode, parse_jobs}
use kelpflux.Scheduler.Placement.Payload.{Act, build_act_payload}
use kelpflux.Scheduler.Placement.Choose.{
  Options, Answers, matching_jobs, JobUpdate, PlacementDecision, Placed, effective_nodes, apply,
  apply_at, carry_out, obey, ask_policy, on_nodes, read_nodes, for_jobs, read_items,
  choose_and_apply, Drained, prepend, stop_or, drain_rounds, drain_and_apply,
}
use kelpflux.Scheduler.Placement.Usable.{IsUsable, usable_nodes-All, effective_nodes-All}

module _ (o : Options) where
  -- What the policy has answered in this round, asked with the matching jobs that Slurm has reported
  -- and these nodes, all of them usable.
  pub record IsAsked (answers : Answers) (kept : List SlurmNode) (act : Act) : Type 0 where
    pub jobs : List SlurmJob
    pub from_jobs :
        (items : List JobItem) × (answers.jobs ≡ some items)
        × (matching_jobs o (parse_jobs o.default_runtime o.default_mps answers.now items) ≡ jobs)
    pub from_nodes :
        (items : List NodeItem) × (answers.nodes ≡ some items) × All (IsUsable o items) kept
    pub answered : answers.act (build_act_payload o.mps_per_gpu answers.now jobs kept) ≡ some act

  -- The update is sent outside shadow mode only, for the job that the policy has named, and pins it to
  -- the node at the index that the policy has given, among those that it was asked with.
  pub record IsPinned (answers : Answers) (update : JobUpdate) : Type 0 where
    pub live : o.shadow ≡ false
    pub as_configured : update.release ≡ o.release
    pub kept : List SlurmNode
    pub act : Act
    pub asked : IsAsked answers kept act
    pub named : act.selected_job_id ≡ some update.job_id
    pub chosen :
        (index : ℕ) × (node : SlurmNode) × (act.node_j ≡ some (pos index))
        × (get_elem? kept index ≡ some node)
        × (node.name ≡ update.required_node)

module _ (o : Options) (answers : Answers) where
  -- At most one update, and that one pinned.
  abbrev Pins : List JobUpdate → Type 0
  Pins sent = All (IsPinned o answers) sent × (length sent ≤ 1)

  none_sent : Pins []
  none_sent = (tt, omega arith)

  if-Pins :
      (test : Bool) (p q : Placed)
      → Pins p.1
      → (test ≡ false → Pins q.1)
      → Pins (if test then p else q).1
  if-Pins true p q h k = h
  if-Pins false p q h k = k refl

  module _ (kept : List SlurmNode) (act : Act) (asked : IsAsked o answers kept act) where
    apply-Pins :
        (selected : Text) (index : ℕ) (node : SlurmNode) (gpu : ℤ)
        → act.selected_job_id ≡ some selected
        → act.node_j ≡ some (pos index)
        → get_elem? kept index ≡ some node
        → Pins (apply o answers selected node gpu).1
    unfolding apply
    apply-Pins selected index node gpu named at found = if-Pins o.shadow _ _ none_sent λ live. (
      (
        record {
          live = live;
          as_configured = refl;
          kept = kept;
          act = act;
          asked = asked;
          named = named;
          chosen = (index, node, at, found, refl);
        },
        tt,
      ),
      omega arith,
    )

    apply_at-Pins :
        (selected : Text) (i : ℕ) (gpu : ℤ) (found : Option SlurmNode)
        → act.selected_job_id ≡ some selected
        → act.node_j ≡ some (pos i)
        → get_elem? kept i ≡ found
        → Pins (apply_at o answers selected i gpu found).1
    unfolding apply_at
    apply_at-Pins selected i gpu none named at e = none_sent
    apply_at-Pins selected i gpu (some node) named at e = apply-Pins selected i node gpu named at e

    carry_out-Pins :
        (selected : Option Text) (index gpu : Option ℤ)
        → act.selected_job_id ≡ selected
        → act.node_j ≡ index
        → Pins (carry_out o answers kept selected index gpu).1
    unfolding carry_out
    carry_out-Pins (some jid) (some (pos i)) (some gpu) named at =
        apply_at-Pins jid i gpu (get_elem? kept i) named at refl
    carry_out-Pins (some jid) (some (negsuc i)) (some gpu) named at = none_sent
    carry_out-Pins (some jid) (some (pos i)) none named at = none_sent
    carry_out-Pins (some jid) (some (negsuc i)) none named at = none_sent
    carry_out-Pins (some jid) none gpu named at = none_sent
    carry_out-Pins none index gpu named at = none_sent

  module _ (jobs : List SlurmJob) (job_items : List JobItem)
      (jobs_at : answers.jobs ≡ some job_items)
      (matching : matching_jobs o (parse_jobs o.default_runtime o.default_mps answers.now job_items)
        ≡ jobs) where
    module _ (items : List NodeItem) (nodes_at : answers.nodes ≡ some items) where
      obey-Pins :
          (kept : List SlurmNode) (act : Option Act)
          → answers.act (build_act_payload o.mps_per_gpu answers.now jobs kept) ≡ act
          → All (IsUsable o items) kept
          → Pins (obey o answers kept act).1
      unfolding obey
      obey-Pins kept none e usable = none_sent
      obey-Pins kept (some act) e usable =
          carry_out-Pins kept act
            (record {
              jobs = jobs;
              from_jobs = (job_items, jobs_at, matching);
              from_nodes = (items, nodes_at, usable);
              answered = e;
            })
            act.selected_job_id act.node_j act.gpu_k refl refl

      ask_policy-Pins :
          (kept : Option (List SlurmNode))
          → ((ns : List SlurmNode) → kept ≡ some ns → All (IsUsable o items) ns)
          → Pins (ask_policy o answers jobs kept).1
      unfolding ask_policy
      ask_policy-Pins none usable = none_sent
      ask_policy-Pins (some kept) usable = obey-Pins kept _ refl (usable kept refl)

      on_nodes-Pins :
          (available : List SlurmNode)
          → All (IsUsable o items) available
          → Pins (on_nodes o answers jobs available).1
      unfolding on_nodes
      on_nodes-Pins [] usable = none_sent
      on_nodes-Pins (n ∷ ns) usable =
          ask_policy-Pins (effective_nodes o answers (n ∷ ns))
            (λ kept k. effective_nodes-All o answers (IsUsable o items) (n ∷ ns) kept usable k)

    read_nodes-Pins :
        (found : Option (List NodeItem))
        → answers.nodes ≡ found
        → Pins (read_nodes o answers jobs found).1
    unfolding read_nodes
    read_nodes-Pins none e = none_sent
    read_nodes-Pins (some items) e = on_nodes-Pins items e _ (usable_nodes-All o items)

  for_jobs-Pins :
      (jobs : List SlurmJob) (items : List JobItem)
      → answers.jobs ≡ some items
      → matching_jobs o (parse_jobs o.default_runtime o.default_mps answers.now items) ≡ jobs
      → Pins (for_jobs o answers jobs).1
  unfolding for_jobs
  for_jobs-Pins [] items at matching = none_sent
  for_jobs-Pins (job ∷ jobs) items at matching =
      read_nodes-Pins (job ∷ jobs) items at matching answers.nodes refl

  read_items-Pins :
      (items : Option (List JobItem)) → answers.jobs ≡ items → Pins (read_items o answers items).1
  unfolding read_items
  read_items-Pins none at = none_sent
  read_items-Pins (some items) at = for_jobs-Pins _ items at refl

  choose_and_apply-Pins : Pins (choose_and_apply o answers).1
  unfolding choose_and_apply
  choose_and_apply-Pins = read_items-Pins answers.jobs refl

module _ (o : Options) where
  -- Some of the rounds has sent the update.
  abbrev pub IsSent : (ℕ → Answers) → JobUpdate → Type 0
  IsSent answers update = (round : ℕ) × IsPinned o (answers round) update

  abbrev Sends : (ℕ → Answers) → ℕ → List JobUpdate → Type 0
  Sends answers n sent = All (IsSent answers) sent × (length sent ≤ n)

  both_sent :
      (answers : ℕ → Answers) (n : ℕ) (sent later : List JobUpdate)
      → Pins o (answers 0) sent
      → Sends (λ k. answers (suc k)) n later
      → Sends answers (suc n) (sent ++ later)
  both_sent answers n sent later h k = (
    All-append _ sent later (All-map_impl _ _ sent (λ u p. (0, p)) h.0)
        (All-map_impl _ _ later (λ u (r, p). (suc r, p)) k.0),
    omega (arith, length-append sent later, h.1, k.1),
  )

  one_sent :
      (answers : ℕ → Answers) (n : ℕ) (sent : List JobUpdate)
      → Pins o (answers 0) sent
      → Sends answers (suc n) sent
  one_sent answers n sent h = (All-map_impl _ _ sent (λ u p. (0, p)) h.0, omega (arith, h.1))

  prepend-Sends :
      (answers : ℕ → Answers) (n : ℕ) (d : PlacementDecision) (sent : List JobUpdate)
      (rest : Drained)
      → Pins o (answers 0) sent
      → Sends (λ k. answers (suc k)) n rest.1
      → Sends answers (suc n) (prepend d sent rest).1
  prepend-Sends answers n d sent (none, later) h k = both_sent answers n sent later h k
  prepend-Sends answers n d sent (some ds, later) h k = both_sent answers n sent later h k

  stop_or-Sends :
      (answers : ℕ → Answers) (n : ℕ) (decision : Option PlacementDecision) (sent : List JobUpdate)
      (rest : Drained)
      → Pins o (answers 0) sent
      → Sends (λ k. answers (suc k)) n rest.1
      → Sends answers (suc n) (stop_or decision sent rest).1
  stop_or-Sends answers n none sent rest h k = one_sent answers n sent h
  stop_or-Sends answers n (some d) sent rest h k = elim (Bool-cases d.applied) [
    | inl goes_on ↦ simp goes_on (prepend-Sends answers n d sent rest h k)
    | inr ends ↦ simp ends (one_sent answers n sent h)
  ]

  drain_rounds-Sends :
      (n : ℕ) (answers : ℕ → Answers) → Sends answers n (drain_rounds o answers n).1
  unfolding drain_rounds
  drain_rounds-Sends zero answers = (tt, omega arith)
  drain_rounds-Sends (suc n) answers =
      stop_or-Sends answers n _ _ _ (choose_and_apply-Pins o (answers 0))
        (drain_rounds-Sends n (λ k. answers (suc k)))

  -- A cycle sends at most `max_placements` updates (one, where that is 0). Each is sent outside shadow
  -- mode, with the configured release, for the job that the policy has named in its round, asked with
  -- the matching jobs that Slurm has reported; and it pins that job to the node that the policy has
  -- chosen by its index among those that it was asked with, all of which Slurm has reported in that
  -- round, take jobs and are allowed by the options.
  pub drain_and_apply-Sends :
      (answers : ℕ → Answers) (max_placements : ℕ)
      → All (IsSent answers) (drain_and_apply o answers max_placements).1
        × (length (drain_and_apply o answers max_placements).1 ≤ max 1 max_placements)
  unfolding drain_and_apply
  drain_and_apply-Sends answers max_placements = drain_rounds-Sends (max 1 max_placements) answers
