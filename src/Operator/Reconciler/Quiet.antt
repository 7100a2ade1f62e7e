-- ===== src/Operator/Reconciler/Quiet.antt =====
-- operator/reconciler.py and scale_actions.py: the parts of a pass that leave alone the replica
-- counts, the provisioning markers and the retry times. One lemma for each part, for any invariant
-- that allows every effect but `patch_replicas` and speaks of those two dictionaries only.
use kelpflux.Base.{ℕ, ◌≡◌, Bool, true, false, Option, none, some, List, [], ◌∷◌, Text, Dict}
use kelpflux.Operator.Models.{Time, PartitionConfig, Config, PartitionState, ScalingDecision}
use kelpflux.Operator.Effects.{
  Provisioning, AnnotationKey, AnnotationValue, Effect, is_patch, World, RawJob, JobState,
  pending_state, running_state, other_state, Action,
}
use kelpflux.Operator.Effects.Keeps.{Since, Keeps, Keeps-pure, Keeps-raise_error, keeps_rules}
use kelpflux.Operator.ScaleActions.{
  cancel_drains, trace_decision, save_scale_up, drain_new, announce_drains, start_drains,
  count_keep, do_keep,
}
use kelpflux.Operator.JobTraces.{
  read_traceparent, open_pending, start_running, open_running, track, track_named, track_job,
  close_pending, close_running, close_gone, track_jobs, update_traces,
}
use kelpflux.Operator.Reconciler.{
  best_effort_annotation, observe_latency, detect_ghosts, read_checkpoint_age, mark_missing, since,
  missing_since, trace_jobs, require, read_overdue,
}

-- Only allowed effects are added, and the markers and retry times keep `G`.
abbrev pub Respects :
    {A : Type 0}
    → List Effect
    → (Effect → Type 0)
    → (Dict Provisioning → Dict Time → Type 0)
    → Action A
    → Type 0
Respects old Allowed G m =
    Keeps (Since old Allowed (λ b. G b.provisioning b.provisioning_retry_at)) m

module _ (old : List Effect) {Allowed : Effect → Type 0}
    (G : Dict Provisioning → Dict Time → Type 0)
    (quiet : (e : Effect) → is_patch e ≡ false → Allowed e) (world : World) where
  pub save_scale_up-quiet :
      (k : Text) → (now : Time) → Respects old Allowed G (save_scale_up world k now)
  unfolding save_scale_up
  save_scale_up-quiet k now = search (keeps_rules, quiet) depth 12

  pub cancel_drains-quiet :
      (c : PartitionConfig)
      → (d : ScalingDecision) → (k : Text) → Respects old Allowed G (cancel_drains world c d k)
  unfolding cancel_drains
  cancel_drains-quiet c d k = search (keeps_rules, quiet) depth 12

  pub trace_decision-quiet : (k : Text) → Respects old Allowed G (trace_decision world k)
  unfolding trace_decision
  trace_decision-quiet k = search (keeps_rules, quiet) depth 12

  pub drain_new-quiet :
      (k : Text)
      → (now : Time) → (nodes : List Text) → Respects old Allowed G (drain_new world k now nodes)
  unfolding drain_new
  drain_new-quiet k now nodes = search (keeps_rules, quiet) depth 12

  pub announce_drains-quiet :
      (k : Text) (draining nodes : List Text)
      → Respects old Allowed G (announce_drains world k draining nodes)
  unfolding announce_drains
  announce_drains-quiet k draining [] = search keeps_rules
  announce_drains-quiet k draining (node ∷ rest) = search (keeps_rules, quiet) depth 12

  pub start_drains-quiet :
      (k : Text)
      → (nodes : List Text) → (now : Time) → Respects old Allowed G (start_drains world k nodes now)
  unfolding start_drains
  start_drains-quiet k nodes now =
      search (keeps_rules, quiet, drain_new-quiet, announce_drains-quiet) depth 12

  count_keep-quiet : (guarded : Bool) → Respects old Allowed G (count_keep guarded)
  unfolding count_keep
  count_keep-quiet true = search (keeps_rules, quiet) depth 12
  count_keep-quiet false = search (keeps_rules, quiet) depth 12

  pub do_keep-quiet : (d : ScalingDecision) → Respects old Allowed G (do_keep d)
  unfolding do_keep
  do_keep-quiet d = search (keeps_rules, quiet, count_keep-quiet) depth 12

  pub best_effort_annotation-quiet :
      (config : Config)
      → (k : Text) → (n : AnnotationKey) → (v : AnnotationValue)
      → Respects old Allowed G (best_effort_annotation world config k n v)
  unfolding best_effort_annotation
  best_effort_annotation-quiet config k n v = search (keeps_rules, quiet) depth 12

  pub observe_latency-quiet :
      (config : Config) → (k : Text) → Respects old Allowed G (observe_latency world config k)
  unfolding observe_latency
  observe_latency-quiet config k = search (keeps_rules, quiet) depth 12

  pub read_overdue-quiet :
      (config : Config) → (p : Provisioning) → Respects old Allowed G (read_overdue world config p)
  unfolding read_overdue
  read_overdue-quiet config p = search (keeps_rules, quiet) depth 12

  pub detect_ghosts-quiet :
      (config : Config)
      → (s : PartitionState) → (ready : ℕ)
      → Respects old Allowed G (detect_ghosts world config s ready)
  unfolding detect_ghosts
  detect_ghosts-quiet config s ready = search (keeps_rules, quiet) depth 12

  pub read_checkpoint_age-quiet :
      (config : Config) (path : Text)
      → Respects old Allowed G (read_checkpoint_age world config path)
  unfolding read_checkpoint_age
  read_checkpoint_age-quiet config [] = search keeps_rules
  read_checkpoint_age-quiet config (c ∷ path) = search (keeps_rules, quiet) depth 12

  mark_missing-quiet :
      (config : Config) (k path : Text) (age : Option ℕ)
      → Respects old Allowed G (mark_missing world config k path age)
  unfolding mark_missing
  mark_missing-quiet config k [] none = search keeps_rules
  mark_missing-quiet config k [] (some a) = search keeps_rules
  mark_missing-quiet config k (c ∷ path) (some a) = search keeps_rules
  mark_missing-quiet config k (c ∷ path) none = search keeps_rules

  since-quiet :
      (config : Config) (first : Option Time) → Respects old Allowed G (since world config first)
  unfolding since
  since-quiet config none = search keeps_rules
  since-quiet config (some t) = search keeps_rules

  pub missing_since-quiet :
      (config : Config)
      → (k path : Text) → (age : Option ℕ)
      → Respects old Allowed G (missing_since world config k path age)
  unfolding missing_since
  missing_since-quiet config k path age =
      search (keeps_rules, quiet, mark_missing-quiet, since-quiet) depth 12

  pub require-quiet : {A : Type 0} (o : Option A) → Respects old Allowed G (require o)
  unfolding require
  require-quiet none = Keeps-raise_error
  require-quiet (some a) = Keeps-pure a

  pub read_traceparent-quiet : (jid : Text) → Respects old Allowed G (read_traceparent world jid)
  unfolding read_traceparent
  read_traceparent-quiet jid = search (keeps_rules, quiet) depth 12

  pub open_pending-quiet : (jid : Text) → Respects old Allowed G (open_pending world jid)
  unfolding open_pending
  open_pending-quiet jid = search (keeps_rules, quiet, read_traceparent-quiet) depth 12

  pub open_running-quiet : (jid : Text) → Respects old Allowed G (open_running world jid)
  unfolding open_running
  open_running-quiet jid = search (keeps_rules, quiet, read_traceparent-quiet) depth 12

  pub start_running-quiet : (jid tp : Text) → Respects old Allowed G (start_running world jid tp)
  unfolding start_running
  start_running-quiet jid tp = search (keeps_rules, quiet) depth 12

  track-quiet :
      (jid : Text) (state : JobState) (pending running : Option Text)
      → Respects old Allowed G (track world jid state pending running)
  unfolding track
  track-quiet jid pending_state none running = open_pending-quiet jid
  track-quiet jid pending_state (some tp) running = Keeps-pure tt
  track-quiet jid running_state (some tp) running = start_running-quiet jid tp
  track-quiet jid running_state none none = open_running-quiet jid
  track-quiet jid running_state none (some tp) = Keeps-pure tt
  track-quiet jid other_state pending running = Keeps-pure tt

  track_named-quiet :
      (jid : Text) (state : JobState) → Respects old Allowed G (track_named world jid state)
  unfolding track_named
  track_named-quiet [] state = Keeps-pure tt
  track_named-quiet (c ∷ rest) state = search (keeps_rules, track-quiet)

  pub track_job-quiet : (j : RawJob) → Respects old Allowed G (track_job world j)
  unfolding track_job
  track_job-quiet j = search (keeps_rules, quiet, track_named-quiet) depth 12

  pub close_pending-quiet :
      (ids : List Text) → (jid : Text) → Respects old Allowed G (close_pending world ids jid)
  unfolding close_pending
  close_pending-quiet ids jid = search (keeps_rules, quiet) depth 12

  pub close_running-quiet :
      (ids : List Text) → (jid : Text) → Respects old Allowed G (close_running world ids jid)
  unfolding close_running
  close_running-quiet ids jid = search (keeps_rules, quiet) depth 12

  pub close_gone-quiet : (ids : List Text) → Respects old Allowed G (close_gone world ids)
  unfolding close_gone
  close_gone-quiet ids =
      search (keeps_rules, quiet, close_pending-quiet, close_running-quiet) depth 12

  pub track_jobs-quiet : (jobs : List RawJob) → Respects old Allowed G (track_jobs world jobs)
  unfolding track_jobs
  track_jobs-quiet jobs = search (keeps_rules, quiet, track_job-quiet, close_gone-quiet) depth 12

  pub update_traces-quiet :
      (partition : Text) → Respects old Allowed G (update_traces world partition)
  unfolding update_traces
  update_traces-quiet partition = search (keeps_rules, quiet, track_jobs-quiet) depth 12

  pub trace_jobs-quiet :
      (config : Config) → (c : PartitionConfig) → Respects old Allowed G (trace_jobs world config c)
  unfolding trace_jobs
  trace_jobs-quiet config c = search (keeps_rules, quiet, update_traces-quiet) depth 12
