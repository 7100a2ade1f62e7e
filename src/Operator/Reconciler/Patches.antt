-- ===== src/Operator/Reconciler/Patches.antt =====
-- operator/reconciler.py and scale_actions.py: which replica counts a pass may set.
use kelpflux.Base.{
  ℕ, ◌≤◌, max, ◌≡◌, refl, sym, ap, ◌∙◌, ◌⊎◌, inl, inr, false, Option, some, List, [], ◌∷◌, lookup,
  Dict,
}
use kelpflux.Operator.Models.{PartitionConfig, Config, PartitionState}
use kelpflux.Operator.Policy.{CheckpointAwareQueuePolicy, evaluate}
use kelpflux.Operator.Policy.Decisions.{evaluate_bounds}
use kelpflux.Operator.Effects.{
  Provisioning, Effect, is_patch, patch_replicas, World, App, Result, ok, raised, after_effect, log,
  error,
}
use kelpflux.Operator.Effects.Keeps.{
  Since, Leads, Keeps, Leads-bind, Leads-weaken, Keeps-bind, Keeps-note, Keeps-ask,
}
use kelpflux.Operator.Effects.Answers.{Leads-get-bind}
use kelpflux.Operator.Reconciler.{check_provisioning, decide_and_act, reconcile, process_pool}
use kelpflux.Operator.Reconciler.Quiet.{detect_ghosts-quiet}
use kelpflux.Operator.Reconciler.Stages.{
  decide_and_act-Respects, check_begun-Respects, dispatch-Respects, Leads-require-bind,
}

-- A pass may set only its own pool's count: to the count that the scale-up under way began from, or
-- to a target within the configured bounds, or the number of busy nodes if that is larger.
abbrev pub IsExpected :
    PartitionConfig → Option Provisioning → Option PartitionState → Effect → Type 0
IsExpected cfg begun state (patch_replicas key n) =
    (key ≡ cfg.worker_statefulset)
    × (((p : Provisioning) × (begun ≡ some p) × (n ≡ p.from_replicas))
        ⊎ ((s : PartitionState) × (state ≡ some s)
            × (cfg.min_replicas ≤ n)
            × (n ≤ max cfg.max_replicas s.busy_nodes)))
IsExpected cfg begun state _ = Unit

module _ (world : World) (config : Config) (policy : CheckpointAwareQueuePolicy)
    (cfg : PartitionConfig) (begun : Option Provisioning) (state : Option PartitionState)
    (old : List Effect) where
  quiet : (e : Effect) → is_patch e ≡ false → IsExpected cfg begun state e
  quiet (patch_replicas k n) h = absurd (cc)
  quiet _ h = tt

  abbrev Before : App → Type 0
  Before =
      Since old (IsExpected cfg begun state)
        (λ b. lookup cfg.worker_statefulset b.provisioning ≡ begun)

  abbrev After : App → Type 0
  After = Since old (IsExpected cfg begun state) (λ b. Unit)

  forget : (app : App) → Before app → After app
  forget app h = record { added = h.added; split = h.split; allowed = h.allowed; fact = tt }

  check_provisioning-Leads :
      (ready : ℕ)
      → Leads Before After (check_provisioning world config cfg.worker_statefulset ready)
  unfolding check_provisioning
  check_provisioning-Leads ready = Leads-get-bind _ λ b marked.
      Leads-weaken _ forget (λ app h. h)
        (check_begun-Respects old quiet world config cfg.worker_statefulset ready
          (lookup cfg.worker_statefulset b.provisioning)
          λ p e. (refl, inl (p, sym marked ∙ e, refl)))

  decide_and_act-Keeps :
      cfg.min_replicas ≤ cfg.max_replicas
      → (s : PartitionState) → state ≡ some s
      → Keeps After (decide_and_act world config policy cfg s cfg.worker_statefulset)
  decide_and_act-Keeps ordered s e =
      decide_and_act-Respects old (λ p r. Unit) quiet world config policy cfg s
        cfg.worker_statefulset
        λ age missing last tick.
          dispatch-Respects old quiet world config (evaluate policy cfg s age missing).action cfg s
            (evaluate policy cfg s age missing) cfg.worker_statefulset last (world.clock tick)
            λ changes. (
              refl,
              inr (
                s,
                e,
                (evaluate_bounds policy cfg s age missing ordered changes).0,
                (evaluate_bounds policy cfg s age missing ordered changes).1,
              ),
            )

  reconcile-Leads :
      cfg.min_replicas ≤ cfg.max_replicas
      → (all_states : Dict PartitionState) → state ≡ lookup cfg.worker_statefulset all_states
      → Leads Before After (reconcile world config policy cfg all_states)
  unfolding reconcile
  reconcile-Leads ordered all_states e = Leads-require-bind _ _ forget λ s found.
      Leads-bind _ _ forget (Keeps-note _ tt) λ _.
        Leads-bind _ _ forget (Keeps-ask world _ _ tt) λ ready.
          Leads-bind _ _ forget (Keeps-note _ tt) λ _.
            Leads-bind _ _ (λ app h. h) (check_provisioning-Leads ready)
              λ _.
                Keeps-bind _ _ (detect_ghosts-quiet old (λ p r. Unit) quiet world config s ready)
                  λ _. decide_and_act-Keeps ordered s (e ∙ found)

ends-IsExpected :
    (cfg : PartitionConfig) (begun : Option Provisioning) (state : Option PartitionState)
    (old : List Effect) (r : Result (Unit {0})) (app : App)
    → Since old (IsExpected cfg begun state) (λ b. Unit) app
    → Since old
        (IsExpected cfg begun state)
        (λ b. Unit)
        (elim r [ ok _ ↦ app | raised ↦ after_effect (log error) app ])
ends-IsExpected cfg begun state old (ok u) app h = h
ends-IsExpected cfg begun state old raised app h = record {
  added = log error ∷ h.added;
  split = ap (λ t. log error ∷ t) h.split;
  allowed = (tt, h.allowed);
  fact = tt;
}

-- With the configured bounds in order, whatever the clients answer and wherever an exception ends
-- the pass: it only adds to the trace, and each `patch_replicas` that it adds names the pass's own
-- pool and either takes a scale-up back to the count recorded in its marker, or sets a count of at
-- least `min_replicas` and at most `max_replicas` or the number of busy nodes.
pub process_pool-patches :
    (world : World) (config : Config) (policy : CheckpointAwareQueuePolicy) (cfg : PartitionConfig)
    (all_states : Dict PartitionState) (app : App)
    → cfg.min_replicas ≤ cfg.max_replicas
    → Since app.trace
        (IsExpected cfg
          (lookup cfg.worker_statefulset app.books.provisioning)
          (lookup cfg.worker_statefulset all_states))
        (λ b. Unit)
        (process_pool world config policy cfg all_states app)
unfolding process_pool
process_pool-patches world config policy cfg all_states app ordered =
    let begun = lookup cfg.worker_statefulset app.books.provisioning in
    let state = lookup cfg.worker_statefulset all_states in
    ends-IsExpected cfg begun state app.trace (reconcile world config policy cfg all_states app).0
      (reconcile world config policy cfg all_states app).1
      ((reconcile-Leads world config policy cfg begun state app.trace ordered all_states refl).at
        app (record { added = []; split = refl; allowed = tt; fact = refl }))
