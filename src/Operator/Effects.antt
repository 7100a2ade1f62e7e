-- ===== src/Operator/Effects.antt =====
-- The operator's state and its effects: the dictionaries of OperatorApp (operator/app.py) and the
-- calls of the Kubernetes and Slurm client (operator/k8s.py), the metrics and the log.
-- The client talks to services outside the repository. What they answer, and which calls raise, is
-- the parameter `World`; each interaction takes one tick, so that two reads may differ.
pub mod Keeps
pub mod Answers
use kelpflux.Base.{
  ℕ, suc, ◌+◌, Bool, true, false, Option, none, some, List, [], ◌∷◌, ◌++◌, Text, Dict,
}
use kelpflux.Operator.Models.{Time, Reason}

-- (started_at, from_replicas, target_replicas); the tracing context beside them is left out.
pub record Provisioning : Type 0 where
  pub started_at : Time
  pub from_replicas : ℕ
  pub target_replicas : ℕ

-- The annotations of a StatefulSet, by the constants that name them.
pub data AnnotationKey : Type 0 where
  cooldown last_scale_action provisioning_marker provisioning_retry : AnnotationKey

pub data AnnotationValue : Type 0 where
  blank : AnnotationValue
  moment : Time → AnnotationValue
  marker : Provisioning → AnnotationValue

-- The label `reason` of the counter of skipped actions.
pub data SkipLabel : Type 0 where
  running_jobs_label cooldown_label draining_label checkpoint_guard_label no_action_label :
      SkipLabel

pub data Metric : Type 0 where
  scale_up_total scale_down_total drain_total drain_timeout_total : Metric
  checkpoint_guard_blocks_total ghost_detected_total provisioning_timeout_total : Metric
  scale_skipped_total : SkipLabel → Metric
  current_replicas pods_ready : ℕ → Metric
  ghost_jobs_present : Bool → Metric
  provisioning_latency : Metric

-- The event types of the log, with the fields that tell them apart.
pub data LogEvent : Type 0 where
  scale_action : ℕ → ℕ → Reason → LogEvent
  scale_skipped_running scale_skipped_cooldown scale_skipped_draining : LogEvent
  scale_skipped_keep : Reason → LogEvent
  drain_initiated : List Text → LogEvent
  drain_timeout_force_kill : Text → LogEvent
  provisioning_timeout : Provisioning → LogEvent
  ghost_jobs_detected scale_deferred loop_observation error : LogEvent

-- What the operator does to the world: client calls, spans, metrics and log lines.
pub data Effect : Type 0 where
  patch_replicas : Text → ℕ → Effect
  set_annotation : Text → AnnotationKey → AnnotationValue → Effect
  drain_slurm_node resume_slurm_node cancel_jobs_on_node : Text → Effect
  down_slurm_node future_slurm_node : Text → Effect
  get_ready_replicas get_node_cpu_alloc get_checkpoint_age : Text → Effect
  list_jobs get_job_admin_comment : Text → Effect
  -- The name of the span, and the pool or job that it is about.
  start_span end_span : Text → Text → Effect
  metric : Metric → Effect
  log : LogEvent → Effect

abbrev pub is_patch : Effect → Bool
is_patch (patch_replicas k n) = true
is_patch _ = false

-- One job of the controller's answer, as far as the tracing reads it.
pub data JobState : Type 0 where
  pending_state running_state other_state : JobState

pub record RawJob : Type 0 where
  pub job_id : Text
  pub job_state : JobState

pub record World : Type 0 where
  pub clock : ℕ → Time
  pub raises : ℕ → Effect → Bool
  pub ready_replicas : ℕ → Text → ℕ
  -- What get_node_cpu_alloc returns: 0 also where the query of the node fails.
  pub cpu_alloc : ℕ → Text → ℕ
  -- The seconds since the checkpoint was written; `none` when there is no file.
  pub checkpoint_age : ℕ → Text → Option ℕ
  pub raw_jobs : ℕ → Text → List RawJob
  pub admin_comment : ℕ → Text → Text
  pub otel_enabled : Bool
  pub rest_configured : Bool

-- The dictionaries of OperatorApp that the control loop reads and writes.
pub record Books : Type 0 where
  pub last_scale_action_at : Dict Time
  pub provisioning : Dict Provisioning
  pub provisioning_retry_at : Dict Time
  pub draining_nodes : Dict (List Text)
  pub draining_started : Dict (Dict Time)
  pub checkpoint_missing_since : Dict Time
  pub job_pending_trace : Dict Text
  pub job_running_trace : Dict Text

-- The books, the effects so far with the latest first, and the ticks that have passed.
pub record App : Type 0 where
  pub books : Books
  pub trace : List Effect
  pub ticks : ℕ

pub data Result (A : Type 0) : Type 0 where
  ok : A → Result A
  raised : Result A

-- A method of OperatorApp. The state outlives an exception.
abbrev pub Action : Type 0 → Type 0
Action A = App → Result A × App

abbrev pub after_effect : Effect → App → App
after_effect e app = record app { trace = e ∷ app.trace; ticks = suc app.ticks }

abbrev pub reply : {A : Type 0} → Bool → A → Result A
reply true a = raised
reply false a = ok a

module _ {A : Type 0} where
  unfoldable pub pure : A → Action A
  pure a app = (ok a, app)

  unfoldable pub raise_error : Action A
  raise_error app = (raised, app)

  -- A client method that catches its own exceptions.
  unfoldable pub peek : Effect → (ℕ → A) → Action A
  peek e answer app = (ok (answer app.ticks), after_effect e app)

  -- A client call with an answer.
  unfoldable pub ask : World → Effect → (ℕ → A) → Action A
  ask world e answer app = (reply (world.raises app.ticks e) (answer app.ticks), after_effect e app)

unfoldable pub get : Action Books
get app = (ok app.books, app)

unfoldable pub modify : (Books → Books) → Action (Unit {0})
modify f app = (ok tt, record app { books = f app.books })

-- Metrics and log lines do not raise.
unfoldable pub note : Effect → Action (Unit {0})
note e app = (ok tt, after_effect e app)

-- A client call with no answer.
unfoldable pub call : World → Effect → Action (Unit {0})
call world e app = (reply (world.raises app.ticks e) tt, after_effect e app)

-- time.time()
unfoldable pub time : World → Action Time
time world app = (ok (world.clock app.ticks), record app { ticks = suc app.ticks })

-- try: m / except Exception: pass
unfoldable pub suppress : Action (Unit {0}) → Action (Unit {0})
suppress m app = (ok tt, (m app).1)

module _ {A B : Type 0} where
  abbrev pub and_then : Result A → (A → Action B) → Action B
  and_then (ok a) f app = f a app
  and_then raised f app = (raised, app)

  infixl 5 ◌>>=◌ ◌>>◌
  -- Opening this opens every primitive action too.
  unfoldable pub ◌>>=◌ : Action A → (A → Action B) → Action B
  unfolding pure raise_error peek ask get modify note call time suppress
  ◌>>=◌ m f app = let (result, after) = m app in and_then result f after

  abbrev pub ◌>>◌ : Action A → Action B → Action B
  m >> n = m >>= λ _. n

-- for x in xs: body(x)
unfoldable pub for_each : {A : Type 0} → (A → Action (Unit {0})) → List A → Action (Unit {0})
for_each body [] = pure tt
for_each body (x ∷ xs) = body x >> for_each body xs

abbrev pub inc : Metric → Action (Unit {0})
inc m = note (metric m)

abbrev pub emit : LogEvent → Action (Unit {0})
emit e = note (log e)
