-- ===== src/Operator/Reconciler/Waiting.antt =====
-- operator/reconciler.py: passes during a scale-up that is under way, and after one that failed.
use kelpflux.Base.{
  ℕ, ◌+◌, ◌<◌, ◌≡◌, refl, ◌∙◌, ◌⊎◌, inl, inr, true, false, none, some, List, Text, lookup, Dict,
  ltb, leb, arith, leb→le,
}
use kelpflux.Operator.Models.{Time, seconds, PartitionConfig, Config, PartitionState}
use kelpflux.Operator.Policy.{CheckpointAwareQueuePolicy}
use kelpflux.Operator.Effects.{Provisioning, World, App, Effect, ◌>>=◌}
use kelpflux.Operator.Effects.Keeps.{Since, Keeps-pure, Keeps-if}
use kelpflux.Operator.Effects.Answers.{Leads-get-bind}
use kelpflux.Operator.Reconciler.{
  is_some, is_overdue, read_overdue, check_deadline, check_begun, check_provisioning, process_pool,
}
use kelpflux.Operator.Reconciler.Quiet.{Respects}
use kelpflux.Operator.Reconciler.Gate.{IsShrink, process_pool-held}

module _ (world : World) (config : Config) (key : Text) (begun : Provisioning)
    (timely : (config.provisioning_timeout_seconds ≡ 0)
      ⊎ ((tick : ℕ)
          → world.clock tick
            < begun.started_at + seconds config.provisioning_timeout_seconds)) where
  not_overdue :
      (tick : ℕ)
      → ltb 0 config.provisioning_timeout_seconds ≡ true
      → is_overdue world config begun (world.clock tick) ≡ false
  unfolding is_overdue
  not_overdue tick some_timeout = elim timely [
    | inl off ↦ ground arith
    | inr early ↦ ground (arith, early tick)
  ]

  deadline_passes :
      (app : App)
      → ((check_deadline world config key begun app).1.trace ≡ app.trace)
        × ((check_deadline world config key begun app).1.books ≡ app.books)
  unfolding check_deadline read_overdue ◌>>=◌
  deadline_passes app = ground (arith, not_overdue app.ticks)

  waits :
      (old : List Effect) (Allowed : Effect → Type 0) (G : Dict Provisioning → Dict Time → Type 0)
      (ready : ℕ)
      → ready < begun.target_replicas
      → Respects old Allowed G (check_begun world config key ready (some begun))
  unfolding check_begun
  waits old Allowed G ready short =
      Keeps-if (leb begun.target_replicas ready) _ _
        (λ enough. absurd (omega (arith, leb→le begun.target_replicas ready enough)))
        λ _. record {
          at = λ app h.
              let (same_trace, same_books) = deadline_passes app in
              record {
                added = h.added;
                split = same_trace ∙ h.split;
                allowed = h.allowed;
                fact = rw same_books h.fact;
              };
        }

module _ (world : World) (config : Config) (policy : CheckpointAwareQueuePolicy)
    (cfg : PartitionConfig) (all_states : Dict PartitionState) (app : App) where
  -- While a scale-up is under way (its marker is in the books, too few pods are ready, and it is not
  -- overdue) a pass keeps the marker as it is, and adds no `patch_replicas` but such as lower the
  -- pool's own count.
  pub process_pool-in_flight :
      (begun : Provisioning)
      → lookup cfg.worker_statefulset app.books.provisioning ≡ some begun
      → ((tick : ℕ) → world.ready_replicas tick cfg.worker_statefulset < begun.target_replicas)
      → (config.provisioning_timeout_seconds ≡ 0)
        ⊎ ((tick : ℕ)
            → world.clock tick < begun.started_at + seconds config.provisioning_timeout_seconds)
      → Since app.trace
          (IsShrink cfg (lookup cfg.worker_statefulset all_states))
          (λ b. lookup cfg.worker_statefulset b.provisioning ≡ some begun)
          (process_pool world config policy cfg all_states app)
  unfolding is_some
  process_pool-in_flight begun marked short timely =
      process_pool-held world config policy cfg (lookup cfg.worker_statefulset all_states) app.trace
        (λ p r. lookup cfg.worker_statefulset p ≡ some begun) (λ b tick e. inr (rw e refl))
        (λ tick.
          unfold check_provisioning in
          Leads-get-bind _ λ b e. rw e (
            waits world config cfg.worker_statefulset begun timely app.trace
              (IsShrink cfg (lookup cfg.worker_statefulset all_states))
              (λ p r. lookup cfg.worker_statefulset p ≡ some begun) _ (short tick)))
        all_states app refl refl marked

  -- After a scale-up that failed, until its retry time has come, a pass keeps that time as it is,
  -- starts no provisioning, and adds no `patch_replicas` but such as lower the pool's own count.
  pub process_pool-backoff :
      (retry_at : Time)
      → lookup cfg.worker_statefulset app.books.provisioning ≡ none
      → lookup cfg.worker_statefulset app.books.provisioning_retry_at ≡ some retry_at
      → ((tick : ℕ) → world.clock tick < retry_at)
      → Since app.trace
          (IsShrink cfg (lookup cfg.worker_statefulset all_states))
          (λ b.
            (lookup cfg.worker_statefulset b.provisioning ≡ none)
            × (lookup cfg.worker_statefulset b.provisioning_retry_at ≡ some retry_at))
          (process_pool world config policy cfg all_states app)
  process_pool-backoff retry_at unmarked waiting early =
      process_pool-held world config policy cfg (lookup cfg.worker_statefulset all_states) app.trace
        (λ p r.
          (lookup cfg.worker_statefulset p ≡ none)
          × (lookup cfg.worker_statefulset r ≡ some retry_at))
        (λ b tick e. inl (rw e.1 (early tick)))
        (λ tick.
          unfold check_provisioning in
          Leads-get-bind _ λ b e. rw e.0 (unfold check_begun in Keeps-pure tt))
        all_states app refl refl (unmarked, waiting)
