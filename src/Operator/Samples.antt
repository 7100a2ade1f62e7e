-- ===== src/Operator/Samples.antt =====
-- A small cluster and its operator, the data of the examples.
use kelpflux.Base.{true, false, none, List, [], ◌∷◌, Text, codes}
use kelpflux.Operator.Models.{
  seconds, PartitionConfig, Config, PartitionState, ScalingDecision, scale_down, no_pending_jobs,
}
use kelpflux.Operator.Policy.{CheckpointAwareQueuePolicy}
use kelpflux.Operator.Effects.{Provisioning, pending_state, World, App}
use kelpflux.Operator.Fragmentation.{JobView, NodeView}
use kelpflux.Operator.Fragmentation.Detector.{FragmentationDetector}
use kelpflux.Operator.Fragmentation.Decider.{RequeueDecider}

abbrev pub pool_name : Text
pool_name = codes "worker-gpu"

abbrev pub sample_policy : CheckpointAwareQueuePolicy
sample_policy = record { guard_enabled = true }

abbrev pub sample_cfg : PartitionConfig
sample_cfg = record {
  partition = codes "gpu";
  worker_statefulset = pool_name;
  min_replicas = 1;
  max_replicas = 4;
  scale_up_step = 2;
  scale_down_step = 1;
  scale_down_cooldown = 60;
  checkpoint_path = [];
  max_checkpoint_age_seconds = 600;
  checkpoint_grace_seconds = 60;
  drain_timeout_seconds = 300;
  match_features = [];
  match_gres = [];
  cpus_per_node = 4;
  memory_mb_per_node = 8192;
  fallback = true;
}

abbrev pub sample_config : Config
sample_config = record {
  reconcile_period_seconds = 15;
  checkpoint_guard_enabled = true;
  provisioning_timeout_seconds = 120;
  provisioning_retry_seconds = 300;
}

-- Blocked jobs wait on a pool of one node.
abbrev pub waiting_state : PartitionState
waiting_state = record {
  partition = codes "gpu";
  worker_statefulset = pool_name;
  current_replicas = 1;
  pending_jobs = 2;
  running_jobs = 0;
  busy_nodes = 0;
  scale_pending_jobs = 2;
}

-- Nothing runs or waits on a pool of three nodes.
abbrev pub idle_state : PartitionState
idle_state = record waiting_state { current_replicas = 3; pending_jobs = 0; scale_pending_jobs = 0 }

abbrev pub down_decision : ScalingDecision
down_decision = record { target_replicas = 2; action = scale_down; reason = no_pending_jobs }

-- A clock of one second to a tick; no pod is ready, no node has work and no call raises.
abbrev pub sample_world : World
sample_world = record {
  clock = λ tick. seconds tick;
  raises = λ tick e. false;
  ready_replicas = λ tick key. 0;
  cpu_alloc = λ tick node. 0;
  checkpoint_age = λ tick path. none;
  raw_jobs = λ tick partition. record { job_id = codes "7"; job_state = pending_state } ∷ [];
  admin_comment = λ tick jid. codes "otel=abc";
  otel_enabled = true;
  rest_configured = true;
}

-- The same with a clock that stands at one second.
abbrev pub still_world : World
still_world = record sample_world { clock = λ tick. seconds 1 }

abbrev pub sample_app : App
sample_app = record {
  books = record {
    last_scale_action_at = (pool_name, 0) ∷ [];
    provisioning = [];
    provisioning_retry_at = [];
    draining_nodes = [];
    draining_started = [];
    checkpoint_missing_since = [];
    job_pending_trace = [];
    job_running_trace = [];
  };
  trace = [];
  ticks = 0;
}

abbrev pub sample_marker : Provisioning
sample_marker = record { started_at = 0; from_replicas = 1; target_replicas = 3 }

-- A scale-up from one replica to three is under way.
abbrev pub provisioning_app : App
provisioning_app = record sample_app {
  books = record sample_app.books { provisioning = (pool_name, sample_marker) ∷ [] };
}

-- A scale-up has failed, and the next may start after ten seconds.
abbrev pub backoff_app : App
backoff_app = record sample_app {
  books = record sample_app.books { provisioning_retry_at = (pool_name, seconds 10) ∷ [] };
}

-- Two small jobs fill a node, and a large one waits.
abbrev pub waiting_job : JobView
waiting_job = record {
  job_id = codes "9";
  user = codes "ada";
  partition = codes "gpu";
  state = codes "PENDING";
  priority = 100;
  mps_req = 80;
  gpu_count = 1;
  nodes = [];
  submit_ts = 0;
  runtime_seconds = 0;
}

abbrev pub small_job : JobView
small_job = record waiting_job {
  job_id = codes "1";
  state = codes "RUNNING";
  priority = 5;
  mps_req = 50;
  nodes = codes "n0" ∷ [];
}

abbrev pub sample_jobs : List JobView
sample_jobs =
    waiting_job ∷ small_job ∷ record small_job { job_id = codes "2"; runtime_seconds = 9 } ∷ []

abbrev pub sample_nodes : List NodeView
sample_nodes = record { node_id = codes "n0"; free_mps = 0; total_mps = 100 } ∷ []

abbrev pub sample_detector : FragmentationDetector
sample_detector = record { mps_per_node = 100; priority_gap = 10 }

abbrev pub sample_decider : RequeueDecider
sample_decider = record {
  min_interval_seconds = seconds 60;
  max_requeues_per_hour = 5;
  max_targets_per_decision = 4;
  history = [];
}
