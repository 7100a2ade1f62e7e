-- ===== src/Scheduler/Placement/Examples.antt =====
-- services/rl_scheduler/placement_controller.py: a cycle over a held job and a node.
use kelpflux.Base.{◌≤◌, max, true, false, some, none, pos, [], ◌∷◌, codes, length, All}
use kelpflux.Operator.Models.{seconds}
use kelpflux.Operator.Fragmentation.Adapters.{text}
use kelpflux.Scheduler.Parsers.{plain}
use kelpflux.Scheduler.Snapshot.{JobItem, NodeItem}
use kelpflux.Scheduler.Placement.Choose.{Options, Answers, drain_and_apply}
use kelpflux.Scheduler.Placement.Pinned.{IsSent, drain_and_apply-Sends}

abbrev held_item : JobItem
held_item = record {
  job_id = some (codes "11");
  name = codes "train";
  job_name = [];
  job_state = text (codes "PENDING");
  state_reason = codes "JobHeldUser";
  reason = [];
  tres_req_str = codes "cpu=1,gres/mps=50";
  tres_per_node = [];
  gres = [];
  gpus_total = some 1;
  partition = codes "gpu";
  comment = record { reported = none; gtype = []; ram = none; slo = none; cls = [] };
  time_limit = some 10;
  required_nodes = text [];
  req_nodes = text [];
  submit_time = some 5;
  priority = some 0;
}

abbrev gpu_item : NodeItem
gpu_item = record {
  name = codes "g0";
  node_name = [];
  hostname = [];
  state = text (codes "IDLE");
  tres = (codes "tres", plain (codes "gres/mps=100")) ∷ [];
}

abbrev sample_options : Options
sample_options = record {
  node_names = [];
  node_name_prefix = [];
  job_id = [];
  job_name_prefix = [];
  mps_per_gpu = 100;
  default_mps = 100;
  default_runtime = seconds 600;
  release = true;
  shadow = false;
  auto_trim_model_topology = true;
  require_held = true;
}

abbrev sample_answers : Answers
sample_answers = record {
  now = 0;
  jobs = some (held_item ∷ []);
  nodes = some (gpu_item ∷ []);
  health = some (some (pos 17));
  act = λ payload. some (record {
    selected_job_id = some (codes "11");
    node_j = some (pos 0);
    gpu_k = some (pos 0);
    action = some (pos 0);
  });
  update_ok = true;
}

drain_and_apply-Sends_example :
    All
      (IsSent sample_options (λ round. sample_answers))
      (drain_and_apply sample_options (λ round. sample_answers) 2).1
    × (length (drain_and_apply sample_options (λ round. sample_answers) 2).1 ≤ max 1 2)
drain_and_apply-Sends_example = drain_and_apply-Sends sample_options (λ round. sample_answers) 2
