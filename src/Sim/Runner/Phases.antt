-- ===== src/Sim/Runner/Phases.antt =====
-- sim/runner.py, run: one job of a trace, from its submission to its end, while other jobs come and go.
use kelpflux.Base.{
  ℕ, ◌+◌, ◌≤◌, ◌≡◌, refl, sym, ap, ◌∙◌, subst, inl, inr, true, false, Option, none, some, List, [],
  ◌∷◌, Text, text_eq, text_eq_iff, lookup, lookup-insert, sum_by, All, Bool-cases, if◌then◌else◌,
  arith,
}
use kelpflux.Sim.Cluster.{Cluster}
use kelpflux.Sim.Latency.{TraceJob, start_latency}
use kelpflux.Sim.Runner.{
  Kind, submit, end, Event, JobRecord, MetricCollector, Run, push, start_job, record_start,
  set_record, job_eq,
}
use kelpflux.Sim.Runner.Weights.{is_job, sum_by-remove, job_eq→≡}
use kelpflux.Sim.Runner.Heap.{remove-All, found-All}

-- A field of another job's record is set.
pub set_record-other :
    (f : JobRecord → JobRecord) (id k : Text) (r : Option JobRecord) (m : MetricCollector)
    → text_eq id k ≡ false
    → lookup k (set_record f id r m).records ≡ lookup k m.records
unfolding set_record
set_record-other f id k none m h = refl
set_record-other f id k (some r) m h = rw (lookup-insert, h) refl

pub set_record-own :
    (f : JobRecord → JobRecord) (id k : Text) (r : JobRecord) (found : Option JobRecord)
    (m : MetricCollector)
    → text_eq id k ≡ true
    → found ≡ some r
    → lookup k (set_record f id found m).records ≡ some (f r)
unfolding set_record
set_record-own f id k r none m h e = absurd (cc)
set_record-own f id k r (some found) m h e =
    rw (lookup-insert, h) (ap (λ o. elim o [ none ↦ some (f r) | some x ↦ some (f x) ]) e)

module _ (k : Text) (j : TraceJob) where
  abbrev pub has_id : TraceJob → ℕ
  has_id x = if text_eq x.job.job_id k then 1 else 0

  abbrev pub is_for : Event → ℕ
  is_for e = if text_eq e.payload k then 1 else 0

  abbrev pub timed : Option ℕ → Option ℕ → JobRecord
  timed start_ts end_ts = record { submit_ts = j.submit_ts; start_ts = start_ts; end_ts = end_ts }

  -- How often the job is pending and how many events it has, what these are, and its record. No
  -- event lies in the past.
  pub record Facts (waits comes : ℕ) (kind : Kind) (t : ℕ) (start_ts end_ts : Option ℕ)
      (events : List Event) (self : Run) : Type 0 where
    pub pending : sum_by has_id self.pending ≡ waits
    pub same : All (λ x. text_eq x.job.job_id k ≡ true → x ≡ j) self.pending
    pub to_come : sum_by is_for events ≡ comes
    pub of_kind : All (λ e. text_eq e.payload k ≡ true → (e.kind ≡ kind) × (e.t ≡ t)) events
    pub kept : lookup k self.metrics.records ≡ some (timed start_ts end_ts)
    pub future : All (λ e. self.now ≤ e.t) events

  -- Another job starts.
  start_job-other :
      {waits comes : ℕ} {kind : Kind} {t : ℕ} {start_ts end_ts : Option ℕ} (x : TraceJob)
      (cluster : Cluster) (self : Run)
      → text_eq x.job.job_id k ≡ false
      → 1 ≤ sum_by (is_job x) self.pending
      → Facts waits comes kind t start_ts end_ts self.events self
      → Facts waits comes kind t start_ts end_ts
          (start_job x cluster self).events
          (start_job x cluster self)
  unfolding start_job push record_start
  start_job-other x cluster self h there facts =
      let none_left : has_id x ≡ 0 = rw h refl in
      record {
        pending =
            omega (arith, sum_by-remove has_id x self.pending there, none_left, facts.pending);
        same = remove-All _ x self.pending facts.same;
        to_come = rw h (omega (arith, facts.to_come));
        of_kind = ((λ e. absurd (cc)), facts.of_kind);
        kept = set_record-other _ x.job.job_id k _ self.metrics h ∙ facts.kept;
        future = (omega arith, facts.future);
      }

  pub none-All :
      (P : Event → Type 0) (events : List Event)
      → sum_by is_for events ≡ 0
      → All (λ e. text_eq e.payload k ≡ true → P e) events
  none-All P [] h = tt
  none-All P (e ∷ es) h =
      ((λ own. absurd (omega (arith, (rw own at h)))), none-All P es (omega (arith, h)))

  -- The job itself starts.
  start_job-own :
      {t : ℕ} {kind : Kind} (cluster : Cluster) (self : Run)
      → text_eq j.job.job_id k ≡ true
      → 1 ≤ sum_by (is_job j) self.pending
      → Facts 1 0 kind t none none self.events self
      → let start_t = self.now + start_latency self.latency j self.now in
        Facts 0 1 end
          (start_t + j.runtime)
          (some start_t)
          none
          (start_job j cluster self).events
          (start_job j cluster self)
  unfolding start_job push record_start
  start_job-own cluster self h there facts =
      let one : has_id j ≡ 1 = rw h refl in
      record {
        pending = omega (arith, sum_by-remove has_id j self.pending there, one, facts.pending);
        same = remove-All _ j self.pending facts.same;
        to_come = rw h (omega (arith, facts.to_come));
        of_kind = ((λ e. (refl, refl)), none-All _ self.events facts.to_come);
        kept = set_record-own _ j.job.job_id k (timed none none) _ self.metrics h (
            subst (λ i. lookup i self.metrics.records ≡ some (timed none none))
              (sym ((text_eq_iff j.job.job_id k).0 h)) facts.kept);
        future = (omega arith, facts.future);
      }

  -- Where the job is: still to come, waiting, running since a moment, or ended at one.
  pub data Phase (events : List Event) (self : Run) : Type 0 where
    awaited : Facts 0 1 submit j.submit_ts none none events self → Phase events self
    waiting : j.submit_ts ≤ self.now → Facts 1 0 submit 0 none none events self → Phase events self
    running :
        (s : ℕ)
        → j.submit_ts ≤ s
        → Facts 0 1 end (s + j.runtime) (some s) none events self
        → Phase events self
    over :
        (s : ℕ)
        → j.submit_ts ≤ s
        → Facts 0 0 end 0 (some s) (some (s + j.runtime)) events self
        → Phase events self

  -- A job that is pending and has the id counts.
  is_job-has_id :
      (x : TraceJob) (xs : List TraceJob)
      → text_eq x.job.job_id k ≡ true
      → sum_by (is_job x) xs ≤ sum_by has_id xs
  is_job-has_id x [] h = omega arith
  is_job-has_id x (y ∷ ys) h = elim (Bool-cases (job_eq y x)) [
    | inl e ↦
        let own : text_eq y.job.job_id k ≡ true =
          subst (λ z. text_eq z.job.job_id k ≡ true) (sym (job_eq→≡ y x e)) h in
        rw (e, own) (omega (arith, is_job-has_id x ys h))
    | inr e ↦ rw e (omega (arith, is_job-has_id x ys h))
  ]

  pub start-Phase :
      (x : TraceJob) (cluster : Cluster) (self : Run)
      → 1 ≤ sum_by (is_job x) self.pending
      → Phase self.events self
      → Phase (start_job x cluster self).events (start_job x cluster self)
  unfolding start_job push
  start-Phase x cluster self there phase = elim (Bool-cases (text_eq x.job.job_id k)) [
    | inr other ↦ other_starts phase other
    | inl own ↦ own_starts phase own
  ]
    where
      other_starts :
          Phase self.events self
          → text_eq x.job.job_id k ≡ false
          → Phase (start_job x cluster self).events (start_job x cluster self)
      other_starts (awaited f) h = awaited (start_job-other x cluster self h there f)
      other_starts (waiting w f) h = waiting w (start_job-other x cluster self h there f)
      other_starts (running s w f) h = running s w (start_job-other x cluster self h there f)
      other_starts (over s w f) h = over s w (start_job-other x cluster self h there f)

      own_starts :
          Phase self.events self
          → text_eq x.job.job_id k ≡ true
          → Phase (start_job x cluster self).events (start_job x cluster self)
      own_starts (awaited f) h =
          absurd (omega (arith, f.pending, there, is_job-has_id x self.pending h))
      own_starts (waiting w f) h =
          let same = found-All _ x self.pending there f.same h in
          subst (λ y. Phase (start_job y cluster self).events (start_job y cluster self)) (sym same)
            (running (self.now + start_latency self.latency j self.now) (omega (arith, w)) (
              start_job-own cluster self (subst (λ y. text_eq y.job.job_id k ≡ true) same h)
                (subst (λ y. 1 ≤ sum_by (is_job y) self.pending) same there) f))
      own_starts (running s w f) h =
          absurd (omega (arith, f.pending, there, is_job-has_id x self.pending h))
      own_starts (over s w f) h =
          absurd (omega (arith, f.pending, there, is_job-has_id x self.pending h))
