-- ===== src/Operator/ScaleActions/Drains.antt =====
-- operator/scale_actions.py, _do_scale_down: when the replicas are patched, every node that drains or
-- goes has been seen idle in this pass, or has outstayed the drain timeout.
use kelpflux.Base.{
  ℕ, ◌+◌, ◌≡◌, refl, subst, ◌⊎◌, inl, inr, Bool, true, false, some, List, [], ◌∷◌, Text, text_eq,
  All, All-map_impl, lookup, insert, lookup-insert, lookup-insert_self, Dict, ltb, if◌then◌else◌,
  arith,
}
use kelpflux.Operator.Models.{Time, seconds, PartitionConfig, PartitionState, ScalingDecision}
use kelpflux.Operator.Effects.{
  Effect, is_patch, patch_replicas, World, Books, App, Action, ◌>>◌, inc, emit, Metric, LogEvent,
  scale_skipped_total, draining_label, scale_skipped_draining, running_jobs_label, cooldown_label,
  scale_skipped_running, scale_skipped_cooldown,
}
use kelpflux.Operator.Effects.Keeps.{Since, Leads, Keeps, Keeps-pure, Leads-weaken, keeps_rules}
use kelpflux.Operator.Effects.Answers.{
  Gives, Leads-time-bind, Leads-get-bind, Leads-bind-value, Gives-bind, Gives-get-bind, Gives-under,
  Gives-pure, Leads-if,
}
use kelpflux.Operator.ScaleActions.Reads.{kill_overdue-quiet, all_idle-quiet}
use kelpflux.Operator.ScaleActions.{
  node_names, get_or, difference, union, drain_new, announce_drains, start_drains, all_idle, shrink,
  drain_then_scale, do_scale_down,
}
use kelpflux.Operator.ScaleActions.Safety.{
  MayGo, KilledOrIdle, idle_seen, Overdue, kill_overdue-Overdue, anything, member_All, union-All,
}

-- A scale-down of the pool `key` from the state `before`.
module _ (world : World) (cfg : PartitionConfig) (s : PartitionState) (d : ScalingDecision)
    (key : Text) (before : App) where
  abbrev drained : List Text
  drained = get_or [] (lookup key before.books.draining_nodes)

  abbrev started : Dict Time
  started = get_or [] (lookup key before.books.draining_started)

  abbrev removed : List Text
  removed = node_names cfg.worker_statefulset d.target_replicas s.current_replicas

  -- What has to hold when the replicas are patched: every node that was draining, and every node
  -- that the patch removes, may go.
  abbrev pub AllMayGo : Type 0
  AllMayGo = All (MayGo world cfg started) drained × All (MayGo world cfg started) removed

  abbrev Allowed : Effect → Type 0
  Allowed e = is_patch e ≡ true → AllMayGo

  quiet : (e : Effect) → is_patch e ≡ false → Allowed e
  quiet e h p = absurd (cc)

  -- A start on record is an old one, or that of this pass.
  abbrev Stamped : Time → Books → Type 0
  Stamped now b =
      (n : Text) (t : Time)
      → lookup n (get_or [] (lookup key b.draining_started)) ≡ some t
      → (lookup n started ≡ some t) ⊎ (t ≡ now)

  insert-Stamped :
      (now : Time) (node : Text) (b : Books) (n : Text) (t : Time)
      → Stamped now b
      → (if text_eq node n then some now else lookup n (get_or [] (lookup key b.draining_started)))
        ≡ some t
      → (lookup n started ≡ some t) ⊎ (t ≡ now)
  insert-Stamped now node b n t h e = ground (arith, h n t)

  stamp-Stamped :
      (now : Time) (node : Text) (b : Books)
      → Stamped now b
      → Stamped now (record b {
        draining_started =
            insert key
              (insert node now (get_or [] (lookup key b.draining_started)))
              b.draining_started;
      })
  stamp-Stamped now node b h n t e =
      insert-Stamped now node b n t h (rw (lookup-insert_self, lookup-insert) at e)

  drain_new-Keeps :
      (old : List Effect) (now : Time) (nodes : List Text)
      → Keeps (Since old Allowed (Stamped now)) (drain_new world key now nodes)
  unfolding drain_new
  drain_new-Keeps old now nodes = search (keeps_rules, quiet, stamp-Stamped) depth 12

  announce_drains-Keeps :
      (old : List Effect) (now : Time) (draining nodes : List Text)
      → Keeps (Since old Allowed (Stamped now)) (announce_drains world key draining nodes)
  unfolding announce_drains
  announce_drains-Keeps old now draining [] = Keeps-pure tt
  announce_drains-Keeps old now draining (node ∷ rest) = search (keeps_rules, quiet) depth 12

  open_started-Stamped :
      (now : Time) (b : Books)
      → Stamped now b
      → Stamped now (record b {
        draining_started =
            insert key (get_or [] (lookup key b.draining_started)) b.draining_started;
      })
  open_started-Stamped now b h n t e = h n t (rw lookup-insert_self at e)

  start_drains-Keeps :
      (old : List Effect) (now : Time) (nodes : List Text)
      → Keeps (Since old Allowed (Stamped now)) (start_drains world key nodes now)
  unfolding start_drains
  start_drains-Keeps old now nodes =
      search (keeps_rules, quiet, open_started-Stamped, drain_new-Keeps, announce_drains-Keeps)
        depth 12

  nothing : {A : Type 0} (m : Action A) → Gives (λ app. Unit) (λ a. Unit) m
  nothing m = record { at = λ app h a e. tt }

  start_drains-Gives :
      (now : Time) (nodes : List Text)
      → Gives
          (λ app. app.books ≡ before.books)
          (λ all. all ≡ union drained (difference nodes drained))
          (start_drains world key nodes now)
  unfolding start_drains
  start_drains-Gives now nodes = Gives-get-bind _ λ b (app, same, e).
      Gives-bind _ _ (λ u. Unit) (nothing _) (anything world _)
        λ u v.
          Gives-bind _ _ (λ u. Unit) (nothing _) (anything world _)
            λ u v.
              Gives-bind _ _ (λ u. Unit) (nothing _) (anything world _)
                λ u v. Gives-pure _ (rw (← e, same))

  abbrev Start : List Effect → App → Type 0
  Start old = Since old Allowed (λ b. b ≡ before.books)

  abbrev Middle : List Effect → Time → App → Type 0
  Middle old now = Since old Allowed (Stamped now)

  abbrev End : List Effect → App → Type 0
  End old = Since old Allowed (λ b. Unit)

  started-Stamped : (now : Time) (b : Books) → b ≡ before.books → Stamped now b
  started-Stamped now b e n t h = inl (rw e at h)

  start_drains-Leads :
      (old : List Effect) (now : Time)
      → Leads (Start old) (Middle old now) (start_drains world key removed now)
  start_drains-Leads old now =
      Leads-weaken _
        (λ app h. record {
          added = h.added;
          split = h.split;
          allowed = h.allowed;
          fact = started-Stamped now app.books h.fact;
        })
        (λ app h. h) (start_drains-Keeps old now removed)

  KilledOrIdle-MayGo :
      (tick : ℕ) (b : Books) (killed : List Text) (n : Text)
      → Stamped (world.clock tick) b
      → All
          (Overdue world cfg (world.clock tick) (get_or [] (lookup key b.draining_started)))
          killed
      → KilledOrIdle world killed n
      → MayGo world cfg started n
  KilledOrIdle-MayGo tick b killed n stamped overdue (inr idle) = inl idle
  KilledOrIdle-MayGo tick b killed n stamped overdue (inl gone) =
      let (on, recorded) = member_All _ n killed overdue gone in
      let (t, at_t, late) = recorded in
      elim (stamped n t at_t) [
        | inl old ↦ inr (tick, t, on, old, late)
        | inr fresh ↦ absurd (omega arith)
      ]

  may_go_all :
      (tick : ℕ) (b : Books) (killed : List Text)
      → Stamped (world.clock tick) b
      → All
          (Overdue world cfg (world.clock tick) (get_or [] (lookup key b.draining_started)))
          killed
      → All (KilledOrIdle world killed) (union drained (difference removed drained))
      → AllMayGo
  may_go_all tick b killed stamped overdue idle =
      union-All _ drained removed
        (All-map_impl _ _ _ (λ n. KilledOrIdle-MayGo tick b killed n stamped overdue) idle)

  loosen : (old : List Effect) (now : Time) (app : App) → Middle old now app → End old app
  loosen old now app h = record { added = h.added; split = h.split; allowed = h.allowed; fact = tt }

  shrink-Keeps :
      (old : List Effect) (now : Time)
      → AllMayGo
      → Keeps (End old) (shrink world cfg s d key removed now)
  unfolding shrink
  shrink-Keeps old now go =
      let permitted : Allowed (patch_replicas cfg.worker_statefulset d.target_replicas) = λ _. go in
      search (keeps_rules, quiet, permitted) depth 14

  skips-Keeps : (old : List Effect) (m : Metric) (e : LogEvent) → Keeps (End old) (inc m >> emit e)
  skips-Keeps old m e = search (keeps_rules, quiet)

  finish-Leads :
      (old : List Effect) (now : Time) (idle : Bool)
      → (idle ≡ true → AllMayGo)
      → Leads (Middle old now) (End old) (
          if idle
          then shrink world cfg s d key removed now
          else (inc (scale_skipped_total draining_label) >> emit scale_skipped_draining))
  finish-Leads old now true go =
      Leads-weaken _ (loosen old now) (λ app h. h) (shrink-Keeps old now (go refl))
  finish-Leads old now false go = Leads-weaken _ (loosen old now) (λ app h. h) (skips-Keeps old _ _)

  idle-Gives :
      (P : App → Type 0) (killed nodes : List Text)
      → Gives P
          (λ idle. idle ≡ true → All (KilledOrIdle world killed) nodes)
          (all_idle world killed nodes)
  idle-Gives P killed nodes = record {
    at = λ app h idle e yes_idle. idle_seen world killed nodes app (rw yes_idle at e);
  }

  drain_then_scale-Leads :
      (old : List Effect) → Leads (Start old) (End old) (drain_then_scale world cfg s d key)
  unfolding drain_then_scale
  drain_then_scale-Leads old = Leads-time-bind world _ λ tick.
      Leads-bind-value _ _ (λ all. all ≡ union drained (difference removed drained))
        (Gives-under (λ app h. h.fact) (start_drains-Gives (world.clock tick) removed))
        (loosen old (world.clock tick)) (start_drains-Leads old (world.clock tick))
        λ draining at_draining. Leads-get-bind _ λ b stamped.
          Leads-bind-value _ _
            (All (Overdue world cfg (world.clock tick) (get_or [] (lookup key b.draining_started))))
            (Gives-under (λ app h. tt)
              (kill_overdue-Overdue world cfg (world.clock tick)
                (get_or [] (lookup key b.draining_started)) draining))
            (loosen old (world.clock tick))
            (kill_overdue-quiet old (Stamped (world.clock tick)) quiet world
              cfg.drain_timeout_seconds (world.clock tick)
              (get_or [] (lookup key b.draining_started)) draining)
            λ killed overdue.
              Leads-bind-value _ _ (λ idle. idle ≡ true → All (KilledOrIdle world killed) draining)
                (idle-Gives (Middle old (world.clock tick)) killed draining)
                (loosen old (world.clock tick))
                (all_idle-quiet old (Stamped (world.clock tick)) quiet world killed draining)
                λ idle seen. finish-Leads old (world.clock tick) idle λ yes_idle.
                  may_go_all tick b killed stamped overdue
                    (subst (All (KilledOrIdle world killed)) at_draining (seen yes_idle))

  forget : (old : List Effect) (app : App) → Start old app → End old app
  forget old app h = record { added = h.added; split = h.split; allowed = h.allowed; fact = tt }

  skips :
      (old : List Effect) (m : Metric) (e : LogEvent)
      → Leads (Start old) (End old) (inc m >> emit e)
  skips old m e = Leads-weaken _ (forget old) (λ app h. h) (skips-Keeps old m e)

  pub do_scale_down-Leads :
      (old : List Effect) (last now : Time)
      → Leads (Start old) (End old) (do_scale_down world cfg s d key last now)
  unfolding do_scale_down
  do_scale_down-Leads old last now =
      Leads-if (ltb 0 s.running_jobs) _ _
        (skips old (scale_skipped_total running_jobs_label) scale_skipped_running)
        (Leads-if (ltb now (last + seconds cfg.scale_down_cooldown)) _ _
          (skips old (scale_skipped_total cooldown_label) scale_skipped_cooldown)
          (drain_then_scale-Leads old))

-- Whatever the clients answer and wherever a call raises, a scale-down adds a `patch_replicas` only
-- if for every node that was draining before, and every node that the patch removes, there is a
-- tick at which get_node_cpu_alloc returns 0 for it (no CPU in use, or a failed query), or a tick at
-- which it has been draining, by the start on record before, for longer than the configured timeout.
pub do_scale_down-patch_is_safe :
    (world : World) (cfg : PartitionConfig) (s : PartitionState) (d : ScalingDecision) (key : Text)
    (last now : Time) (before : App)
    → Since before.trace
        (λ e. is_patch e ≡ true → AllMayGo world cfg s d key before)
        (λ b. Unit)
        (do_scale_down world cfg s d key last now before).1
do_scale_down-patch_is_safe world cfg s d key last now before =
    (do_scale_down-Leads world cfg s d key before before.trace last now).at before
      (record { added = []; split = refl; allowed = tt; fact = refl })
