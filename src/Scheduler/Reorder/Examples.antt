-- ===== src/Scheduler/Reorder/Examples.antt =====
-- services/rl_scheduler/reorder_daemon.py: the theorems on two jobs that share a node.
use kelpflux.Base.{
  ◌≡◌, refl, true, false, some, none, pos, List, [], ◌∷◌, Text, codes, text_eq, lookup, insert,
  erase, sorted, insert_sorted, All, Dict, ℕ,
}
use kelpflux.Operator.Models.{seconds}
use kelpflux.Operator.Fragmentation.Adapters.{text}
use kelpflux.Scheduler.Parsers.{plain}
use kelpflux.Scheduler.Snapshot.{JobItem, NodeItem}
use kelpflux.Scheduler.Placement.{SlurmJob, SlurmNode}
use kelpflux.Scheduler.Placement.Payload.{Act, build_act_payload}
use kelpflux.Scheduler.Reorder.Ranking.{RankWorld, ranked, values, jobs_by_id, rank_pending}
use kelpflux.Scheduler.Reorder.Dispatch.{IsDispatch, rank_pending-IsDispatch}
use kelpflux.Scheduler.Reorder.Totality.{rank_pending_total}
use kelpflux.Scheduler.Reorder.Cycle.{CycleWorld, CycleOptions, reorder_cycle}
use kelpflux.Scheduler.Reorder.Requests.{IsAllowed}
use kelpflux.Scheduler.Reorder.Writes.{reorder_cycle-IsAllowed}

abbrev first_job : SlurmJob
first_job = record {
  job_id = codes "11";
  name = codes "train";
  state = codes "PENDING";
  reason = codes "Resources";
  mps_req = 50;
  gpu_count = 1;
  gpu_type = codes "rtx4070";
  runtime = seconds 600;
  submit_ts = 5;
  priority = 7;
  partition = codes "gpu";
  required_nodes = [];
  ram_req = 0;
  slo_s = 0;
  job_class = codes "batch";
  required_gpu_type = [];
}

abbrev sample_pending : List SlurmJob
sample_pending =
    first_job ∷ record first_job { job_id = codes "12"; mps_req = 60; submit_ts = 6 } ∷ []

abbrev gpu_node : SlurmNode
gpu_node = record {
  name = codes "g0";
  free_mps = 100;
  running_jobs = 0;
  gpu_type = codes "rtx4070";
  available = true;
}

-- The policy asks for the second job on the first node, over and over.
abbrev stubborn : Act
stubborn = record {
  selected_job_id = some (codes "12");
  node_j = some (pos 0);
  gpu_k = some (pos 0);
  action = some (pos 1);
}

abbrev sample_policy : RankWorld
sample_policy = record {
  post = λ round payload. some stubborn;
  late = λ round. false;
  now = λ round. 0;
}

abbrev sample_free : Dict ℕ
sample_free = (codes "g0", 100) ∷ []

-- The second job is placed, the first one does not fit any more.
rank_pending-IsDispatch_example :
    IsDispatch
      (gpu_node ∷ [])
      (values (jobs_by_id sample_pending []))
      sample_free
      (codes "12" ∷ codes "11" ∷ [])
unfolding rank_pending lookup insert erase text_eq sorted insert_sorted build_act_payload
rank_pending-IsDispatch_example =
    rank_pending-IsDispatch sample_policy 100 (gpu_node ∷ []) false sample_pending sample_free
      (codes "12" ∷ codes "11" ∷ []) refl

rank_pending_total_example :
    (order : List Text) × (rank_pending sample_policy 100
        (gpu_node ∷ [])
        false
        sample_pending
        sample_free
      ≡ ranked order)
    × IsDispatch (gpu_node ∷ []) (values (jobs_by_id sample_pending [])) sample_free order
unfolding lookup text_eq
rank_pending_total_example =
    rank_pending_total sample_policy 100 (gpu_node ∷ []) (λ round. refl) sample_pending sample_free
      ((λ e. cc), tt)

abbrev job_item : JobItem
job_item = record {
  job_id = some (codes "11");
  name = codes "train";
  job_name = [];
  job_state = text (codes "PENDING");
  state_reason = codes "Resources";
  reason = [];
  tres_req_str = codes "cpu=1,gres/mps=50";
  tres_per_node = [];
  gres = [];
  gpus_total = some 1;
  partition = codes "gpu";
  comment = record { reported = none; gtype = []; ram = none; slo = none; cls = [] };
  time_limit = some 10;
  required_nodes = text [];
  req_nodes = text [];
  submit_time = some 5;
  priority = some 7;
}

abbrev node_item : NodeItem
node_item = record {
  name = codes "g0";
  node_name = [];
  hostname = [];
  state = text (codes "IDLE");
  tres = (codes "tres", plain (codes "gres/mps=100")) ∷ [];
}

abbrev sample_world : CycleWorld
sample_world = record {
  jobs_doc = λ tick. some (job_item ∷ []);
  nodes_doc = λ tick. some (node_item ∷ []);
  healthz = λ tick. some (some 99, some 17);
  policy = λ tick. record sample_policy {
    post = λ round payload. some (record stubborn { selected_job_id = some (codes "11") });
  };
  accepts = λ tick jid priority. true;
  clock = λ tick. tick;
  now = λ tick. 0;
}

abbrev sample_options : CycleOptions
sample_options = record {
  node_names = codes "g0" ∷ [];
  gpu_partitions = codes "gpu" ∷ [];
  mps_per_gpu = 100;
  max_jobs = 150;
  deadline = seconds 25;
  default_runtime = seconds 600;
  job_name_prefix = [];
  shadow = false;
  obs_dim = 99;
}

reorder_cycle-IsAllowed_example :
    All
      (IsAllowed sample_world sample_options)
      (reorder_cycle sample_world sample_options (record { trace = []; ticks = 0 })).1.trace
reorder_cycle-IsAllowed_example = reorder_cycle-IsAllowed sample_world sample_options 0
