-- ===== src/Sim/Runner/Timeline.antt =====
-- sim/runner.py, run: the phases of one job over the events of a run.
use kelpflux.Base.{
  ℕ, zero, suc, ◌+◌, ◌≤◌, ◌≡◌, refl, sym, ◌∙◌, subst, inl, inr, true, false, Option, none, some,
  List, [], ◌∷◌, Text, text_eq, text_eq_iff, text_eq_self, Dict, lookup, sum_by-append, All-append,
  Bool-cases, arith,
}
use kelpflux.Sim.Latency.{TraceJob}
use kelpflux.Sim.Schedulers.{Scheduler}
use kelpflux.Sim.Runner.{
  Kind, submit, end, Event, Run, heappop, try_dispatch, record_end, add_pending, handle,
  handle_event, run_events,
}
use kelpflux.Sim.Runner.Heap.{heappop-All}
use kelpflux.Sim.Runner.Phases.{
  has_id, timed, Facts, none-All, Phase, awaited, waiting, running, over, set_record-own,
  set_record-other,
}
use kelpflux.Sim.Runner.Taking.{
  Now, taken, try_dispatch-Phase, sample-Phase, take-other, nothing_to_come, take-own,
}

module _ (scheduler : Scheduler) (by_id : Dict TraceJob) (k : Text) (j : TraceJob) where
  module _ (named : (p : Text) (x : TraceJob) → lookup p by_id ≡ some x → x.job.job_id ≡ p)
      (own : lookup k by_id ≡ some j) where
    submit-other :
        {waits comes : ℕ} {kind : Kind} {t : ℕ} {start_ts end_ts : Option ℕ} (p : Text)
        (found : Option TraceJob) (self : Run)
        → text_eq p k ≡ false
        → lookup p by_id ≡ found
        → Facts k j waits comes kind t start_ts end_ts self.events self
        → Facts k j waits comes kind t start_ts end_ts
            (add_pending scheduler by_id found self).events
            (add_pending scheduler by_id found self)
    unfolding add_pending
    submit-other p none self h e f = f
    submit-other p (some x) self h e f =
        let differs : text_eq x.job.job_id k ≡ false =
          subst (λ i. text_eq i k ≡ false) (sym (named p x e)) h in
        let none_more : has_id k j x ≡ 0 = rw differs refl in
        record {
          pending =
              omega (arith, sum_by-append (has_id k j) self.pending (x ∷ []), none_more, f.pending);
          same = All-append _ self.pending (x ∷ []) f.same ((λ same. absurd (cc)), tt);
          to_come = f.to_come;
          of_kind = f.of_kind;
          kept = f.kept;
          future = f.future;
        }

    handle-other :
        {waits comes : ℕ} {kind : Kind} {t : ℕ} {start_ts end_ts : Option ℕ} (what : Kind)
        (p : Text) (self : Run)
        → text_eq p k ≡ false
        → Facts k j waits comes kind t start_ts end_ts self.events self
        → Facts k j waits comes kind t start_ts end_ts
            (handle scheduler by_id what p self).events
            (handle scheduler by_id what p self)
    unfolding handle record_end
    handle-other submit p self h f = submit-other p (lookup p by_id) self h refl f
    handle-other end p self h f = record {
      pending = f.pending;
      same = f.same;
      to_come = f.to_come;
      of_kind = f.of_kind;
      kept = set_record-other _ p k _ self.metrics h ∙ f.kept;
      future = f.future;
    }

    -- The job arrives.
    submit-own :
        {kind : Kind} {t : ℕ} (self : Run)
        → Facts k j 0 0 kind t none none self.events self
        → Facts k j 1 0 submit 0 none none
            (handle scheduler by_id submit k self).events
            (handle scheduler by_id submit k self)
    unfolding handle add_pending
    submit-own self f = rw own (
        let one : has_id k j j ≡ 1 = rw (named k j own, text_eq_self k) refl in
        record {
          pending = omega (arith, sum_by-append (has_id k j) self.pending (j ∷ []), one, f.pending);
          same = All-append _ self.pending (j ∷ []) f.same ((λ same. refl), tt);
          to_come = f.to_come;
          of_kind = none-All k j _ self.events f.to_come;
          kept = f.kept;
          future = f.future;
        })

    -- The job ends.
    end-own :
        {kind : Kind} {t : ℕ} {start_ts : Option ℕ} (self : Run)
        → Facts k j 0 0 kind t start_ts none self.events self
        → Facts k j 0 0 end 0 start_ts
            (some self.now)
            (handle scheduler by_id end k self).events
            (handle scheduler by_id end k self)
    unfolding handle record_end
    end-own {start_ts = start_ts} self f = record {
      pending = f.pending;
      same = f.same;
      to_come = f.to_come;
      of_kind = none-All k j _ self.events f.to_come;
      kept = set_record-own _ k k (timed k j start_ts none) _ self.metrics (text_eq_self k) f.kept;
      future = f.future;
    }

    handle-now :
        (what : Kind) (p : Text) (self : Run) → (handle scheduler by_id what p self).now ≡ self.now
    unfolding handle
    handle-now submit p self = pending-now (lookup p by_id)
      where
        pending-now :
            (found : Option TraceJob) → (add_pending scheduler by_id found self).now ≡ self.now
        pending-now none = refl
        pending-now (some x) = refl
    handle-now end p self = refl

    -- The event that is taken scheduler by_id k j from the heap is handled.
    abbrev handled : Event → List Event → Run → Run
    handled e es self =
        handle scheduler by_id (heappop e es).0.kind (heappop e es).0.payload
          (taken scheduler by_id k j (heappop e es).0 (heappop e es).1 self)

    handle-Phase-other :
        (e : Event) (es : List Event) (self : Run)
        → text_eq (heappop e es).0.payload k ≡ false
        → Phase k j (e ∷ es) self
        → Now scheduler by_id k j (handled e es self)
    handle-Phase-other e es self h (awaited f) =
        awaited (handle-other _ _ _ h (take-other scheduler by_id k j e es self h f))
    handle-Phase-other e es self h (waiting w f) =
        let later = heappop-All (λ d. self.now ≤ d.t) e es f.future.0 f.future.1 in
        waiting
          (omega (
            arith,
            w,
            later.0,
            handle-now (heappop e es).0.kind (heappop e es).0.payload
                (taken scheduler by_id k j (heappop e es).0 (heappop e es).1 self),
          ))
          (handle-other _ _ _ h (take-other scheduler by_id k j e es self h f))
    handle-Phase-other e es self h (running s w f) =
        running s w (handle-other _ _ _ h (take-other scheduler by_id k j e es self h f))
    handle-Phase-other e es self h (over s w f) =
        over s w (handle-other _ _ _ h (take-other scheduler by_id k j e es self h f))

    arrives :
        {kind : Kind} {t : ℕ} (what : Kind) (p : Text) (self : Run)
        → what ≡ submit
        → text_eq p k ≡ true
        → self.now ≡ j.submit_ts
        → Facts k j 0 0 kind t none none self.events self
        → Now scheduler by_id k j (handle scheduler by_id what p self)
    arrives what p self e h at f =
        subst (λ kind. Now scheduler by_id k j (handle scheduler by_id kind p self)) (sym e)
          (subst (λ i. Now scheduler by_id k j (handle scheduler by_id submit i self))
            (sym ((text_eq_iff p k).0 h))
            (waiting (omega (arith, at, handle-now submit k self)) (submit-own self f)))

    ends :
        {kind : Kind} {t : ℕ} (s : ℕ)
        → j.submit_ts ≤ s
        → (what : Kind) (p : Text) (self : Run) → what ≡ end
        → text_eq p k ≡ true
        → self.now ≡ s + j.runtime
        → Facts k j 0 0 kind t (some s) none self.events self
        → Now scheduler by_id k j (handle scheduler by_id what p self)
    ends s w what p self e h at f =
        subst (λ kind. Now scheduler by_id k j (handle scheduler by_id kind p self)) (sym e)
          (subst (λ i. Now scheduler by_id k j (handle scheduler by_id end i self))
            (sym ((text_eq_iff p k).0 h))
            (over s w (
              subst
                (λ m.
                  Facts k j 0 0 end 0 (some s) (some m) (handle scheduler by_id end k self).events
                    (handle scheduler by_id end k self))
                at (end-own self f))))

    handle-Phase-own :
        (e : Event) (es : List Event) (self : Run)
        → text_eq (heappop e es).0.payload k ≡ true
        → Phase k j (e ∷ es) self
        → Now scheduler by_id k j (handled e es self)
    handle-Phase-own e es self h (awaited f) =
        let (is_submit, at, facts) = take-own scheduler by_id k j e es self h f in
        arrives _ _ _ is_submit h at facts
    handle-Phase-own e es self h (waiting w f) =
        absurd (nothing_to_come scheduler by_id k j e es h f.to_come)
    handle-Phase-own e es self h (running s w f) =
        let (is_end, at, facts) = take-own scheduler by_id k j e es self h f in
        ends s w _ _ _ is_end h at facts
    handle-Phase-own e es self h (over s w f) =
        absurd (nothing_to_come scheduler by_id k j e es h f.to_come)

    handle_event-Phase :
        (e : Event) (es : List Event) (self : Run)
        → Phase k j (e ∷ es) self
        → Now scheduler by_id k j
            (handle_event scheduler by_id (heappop e es).0 (heappop e es).1 self)
    unfolding handle_event
    handle_event-Phase e es self phase =
        sample-Phase scheduler by_id k j (try_dispatch scheduler by_id (handled e es self)) (
          try_dispatch-Phase scheduler by_id k j (handled e es self)
            (elim (Bool-cases (text_eq (heappop e es).0.payload k)) [
              | inl h ↦ handle-Phase-own e es self h phase
              | inr h ↦ handle-Phase-other e es self h phase
            ]))

    pub run_events-Phase :
        (fuel : ℕ) (events : List Event) (self : Run)
        → self.events ≡ events
        → Phase k j self.events self
        → Phase k j
            (run_events scheduler by_id fuel events self).events
            (run_events scheduler by_id fuel events self)
    unfolding run_events
    run_events-Phase zero events self same phase = phase
    run_events-Phase (suc fuel) [] self same phase = phase
    run_events-Phase (suc fuel) (e ∷ es) self same phase =
        let after = handle_event scheduler by_id (heappop e es).0 (heappop e es).1 self in
        run_events-Phase fuel after.events after refl
          (handle_event-Phase e es self (subst (λ events. Phase k j events self) same phase))
