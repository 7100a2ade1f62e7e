-- ===== src/Operator/Reconciler/Gate.antt =====
-- operator/reconciler.py: the gate that holds scale-ups back while one is under way and for a while
-- after one that failed.
use kelpflux.Base.{
  ℕ, ◌<◌, ◌≡◌, refl, sym, ap, ◌∙◌, ◌⊎◌, inl, inr, true, false, Option, some, List, [], ◌∷◌, lookup,
  Dict, ltb, lt→ltb,
}
use kelpflux.Operator.Models.{
  Time, PartitionConfig, Config, PartitionState, ScalingDecision, ScalingAction, scale_up,
  scale_down, keep,
}
use kelpflux.Operator.Policy.{CheckpointAwareQueuePolicy, evaluate}
use kelpflux.Operator.Policy.Decisions.{FollowsAction, evaluate_direction}
use kelpflux.Operator.Effects.{
  Provisioning, Effect, is_patch, patch_replicas, World, Books, App, Result, ok, raised,
  after_effect, log, error,
}
use kelpflux.Operator.Effects.Keeps.{Since, Keeps-bind, Keeps-if, Keeps-note}
use kelpflux.Operator.Effects.Answers.{Leads-get-bind, Keeps-ask-bind}
use kelpflux.Operator.ScaleActions.{get_or}
use kelpflux.Operator.Reconciler.{
  is_some, check_provisioning, gate_scale_up, dispatch, reconcile, process_pool,
}
use kelpflux.Operator.Reconciler.Quiet.{Respects, detect_ghosts-quiet, do_keep-quiet}
use kelpflux.Operator.Reconciler.Stages.{
  decide_and_act-Respects, do_scale_down-Respects, Keeps-require-bind,
}

-- Only the pool's own count may be patched, and only to a lower one.
abbrev pub IsShrink : PartitionConfig → Option PartitionState → Effect → Type 0
IsShrink cfg state (patch_replicas key n) =
    (key ≡ cfg.worker_statefulset)
    × ((s : PartitionState) × (state ≡ some s) × (n < s.current_replicas))
IsShrink cfg state _ = Unit

module _ (world : World) (config : Config) (policy : CheckpointAwareQueuePolicy)
    (cfg : PartitionConfig) (state : Option PartitionState) (old : List Effect)
    (G : Dict Provisioning → Dict Time → Type 0) where
  quiet : (e : Effect) → is_patch e ≡ false → IsShrink cfg state e
  quiet (patch_replicas k n) h = absurd (cc)
  quiet _ h = tt

  -- At every reading of the clock one of the gate's two tests holds.
  abbrev pub Holds : Type 0
  Holds =
      (b : Books) (tick : ℕ)
      → G b.provisioning b.provisioning_retry_at
      → (world.clock tick < get_or 0 (lookup cfg.worker_statefulset b.provisioning_retry_at))
        ⊎ (is_some (lookup cfg.worker_statefulset b.provisioning) ≡ true)

  gate_refuses :
      Holds
      → (b : Books) (tick : ℕ) → G b.provisioning b.provisioning_retry_at
      → ltb (world.clock tick) (get_or 0 (lookup cfg.worker_statefulset b.provisioning_retry_at))
        ≡ false
      → is_some (lookup cfg.worker_statefulset b.provisioning) ≡ false
      → ⊥
  gate_refuses holds b tick fact late free = elim (holds b tick fact) [
    | inl early ↦ cc (lt→ltb _ _ early)
    | inr taken ↦ cc
  ]

  gate-held :
      Holds
      → (s : PartitionState) (d : ScalingDecision) (tick : ℕ)
      → Respects old
          (IsShrink cfg state)
          G
          (gate_scale_up world config cfg s d cfg.worker_statefulset (world.clock tick))
  unfolding gate_scale_up
  gate-held holds s d tick = Leads-get-bind _ λ b fact.
      Keeps-if _ _ _ (λ _. do_keep-quiet old G quiet world _)
        λ late.
          Keeps-if _ _ _
            (λ _. Keeps-bind _ _ (Keeps-note _ tt) λ _. do_keep-quiet old G quiet world _)
            λ free. absurd (gate_refuses holds b tick fact late free)

  dispatch-held :
      Holds
      → (a : ScalingAction) (s : PartitionState) (d : ScalingDecision) (last : Time) (tick : ℕ)
      → state ≡ some s
      → FollowsAction s.current_replicas a d.target_replicas
      → Respects old
          (IsShrink cfg state)
          G
          (dispatch world config a cfg s d cfg.worker_statefulset last (world.clock tick))
  unfolding dispatch
  dispatch-held holds scale_up s d last tick e follows = gate-held holds s d tick
  dispatch-held holds scale_down s d last tick e follows =
      do_scale_down-Respects old G quiet world cfg s d cfg.worker_statefulset last
        (world.clock tick) (refl, (s, e, follows))
  dispatch-held holds keep s d last tick e follows = do_keep-quiet old G quiet world d

  reconcile-held :
      Holds
      → ((tick : ℕ)
          → Respects old (IsShrink cfg state) G (
              check_provisioning world config cfg.worker_statefulset
                (world.ready_replicas tick cfg.worker_statefulset)))
      → (all_states : Dict PartitionState) → state ≡ lookup cfg.worker_statefulset all_states
      → Respects old (IsShrink cfg state) G (reconcile world config policy cfg all_states)
  unfolding reconcile
  reconcile-held holds undisturbed all_states e = Keeps-require-bind _ _ λ s found.
      Keeps-bind _ _ (Keeps-note _ tt) λ _. Keeps-ask-bind _ _ _ _ tt λ tick.
        Keeps-bind _ _ (Keeps-note _ tt) λ _. Keeps-bind _ _ (undisturbed tick) λ _.
          Keeps-bind _ _ (detect_ghosts-quiet old G quiet world config s _) λ _.
            decide_and_act-Respects old G quiet world config policy cfg s cfg.worker_statefulset
              λ age missing last tick'.
                dispatch-held holds (evaluate policy cfg s age missing).action s
                  (evaluate policy cfg s age missing) last tick' (e ∙ found)
                  (evaluate_direction policy cfg s age missing)

  ends_held :
      (r : Result (Unit {0})) (app : App)
      → Since old (IsShrink cfg state) (λ b. G b.provisioning b.provisioning_retry_at) app
      → Since old
          (IsShrink cfg state)
          (λ b. G b.provisioning b.provisioning_retry_at)
          (elim r [ ok _ ↦ app | raised ↦ after_effect (log error) app ])
  ends_held (ok u) app h = h
  ends_held raised app h = record {
    added = log error ∷ h.added;
    split = ap (λ t. log error ∷ t) h.split;
    allowed = (tt, h.allowed);
    fact = h.fact;
  }

  pub process_pool-held :
      Holds
      → ((tick : ℕ)
          → Respects old (IsShrink cfg state) G (
              check_provisioning world config cfg.worker_statefulset
                (world.ready_replicas tick cfg.worker_statefulset)))
      → (all_states : Dict PartitionState) (app : App)
      → state ≡ lookup cfg.worker_statefulset all_states
      → old ≡ app.trace
      → G app.books.provisioning app.books.provisioning_retry_at
      → Since old
          (IsShrink cfg state)
          (λ b. G b.provisioning b.provisioning_retry_at)
          (process_pool world config policy cfg all_states app)
  unfolding process_pool
  process_pool-held holds undisturbed all_states app e start fact =
      ends_held (reconcile world config policy cfg all_states app).0
        (reconcile world config policy cfg all_states app).1
        ((reconcile-held holds undisturbed all_states e).at app
          (record { added = []; split = sym start; allowed = tt; fact = fact }))
