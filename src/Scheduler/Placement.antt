-- ===== src/Scheduler/Placement.antt =====
-- services/rl_scheduler/placement_controller.py: the jobs and nodes of the placement controller, as
-- they are read from Slurm's documents. Times are in microseconds.
pub mod Payload
pub mod Choose
pub mod Usable
pub mod Pinned
mod Examples
use kelpflux.Base.{
  ℕ, ◌-◌, Bool, true, false, not, ◌&&◌, ◌||◌, Option, none, some, List, [], ◌∷◌, ◌++◌, map, Text,
  codes, text_eq, mem_text, contains, filter, if◌then◌else◌, ◌==◌,
}
use kelpflux.Operator.Models.{Time}
use kelpflux.Operator.Fragmentation.Adapters.{TextOrList, joined, to_lower}
use kelpflux.Operator.Fragmentation.Detector.{to_upper}
use kelpflux.Operator.Fragmentation.Parsers.{number_or}
use kelpflux.Scheduler.Parsers.{
  state_tokens, parse_tres_int, number_else, rtx4070, rtx3080, gpu_type_from_text, node_tres_text,
}
use kelpflux.Scheduler.Snapshot.{
  JobItem, NodeItem, or_text, is_pending, tres_text, runtime_or, time_limit_of, gpus_of, time_or,
  text_or_empty, down_states, running_states, any_of, name_of, names_gpu, alloc_keys, cons_some,
  views,
}

pub record SlurmJob : Type 0 where
  pub job_id : Text
  pub name : Text
  pub state : Text
  pub reason : Text
  pub mps_req : ℕ
  pub gpu_count : ℕ
  pub gpu_type : Text
  pub runtime : Time
  pub submit_ts : Time
  pub priority : ℕ
  pub partition : Text
  pub required_nodes : Text
  pub ram_req : ℕ
  pub slo_s : Time
  pub job_class : Text
  pub required_gpu_type : Text

pub record SlurmNode : Type 0 where
  pub name : Text
  pub free_mps : ℕ
  pub running_jobs : ℕ
  pub gpu_type : Text
  pub available : Bool

-- The first GPU type that the text names, or `otherwise`.
unfoldable pub named_type : Text → Text → Text
unfolding to_lower
named_type s otherwise =
    if contains rtx4070 (map to_lower s)
    then rtx4070
    else if contains rtx3080 (map to_lower s)
    then rtx3080
    else otherwise

unfoldable pub parse_job : Time → ℕ → Time → JobItem → SlurmJob
unfolding parse_tres_int gpus_of gpu_type_from_text joined named_type
parse_job default_runtime default_mps now item =
    let tres = tres_text item in
    record {
      job_id = text_or_empty item.job_id;
      name = or_text item.name item.job_name;
      state = codes "PENDING";
      reason = or_text item.state_reason item.reason;
      mps_req = number_else default_mps (parse_tres_int tres (codes "mps"));
      gpu_count = gpus_of item;
      gpu_type = or_text item.comment.gtype (gpu_type_from_text (tres ++ b',' ∷ item.partition));
      runtime = runtime_or default_runtime (time_or (time_limit_of item) item.comment.reported);
      submit_ts = time_or now item.submit_time;
      priority = number_or 0 item.priority;
      partition = item.partition;
      required_nodes = or_text (joined item.required_nodes) (joined item.req_nodes);
      ram_req = number_or 0 item.comment.ram;
      slo_s = time_or 0 item.comment.slo;
      job_class = or_text item.comment.cls (codes "batch");
      required_gpu_type = named_type item.partition (named_type tres []);
    }

unfoldable pub parse_jobs : Time → ℕ → Time → List JobItem → List SlurmJob
unfolding state_tokens parse_job
parse_jobs default_runtime default_mps now items =
    map (parse_job default_runtime default_mps now) (filter is_pending items)

-- "JOBHELD" in reason.upper().replace("_", "")
unfoldable pub is_held_reason : Text → Bool
unfolding to_upper
is_held_reason reason =
    contains (codes "JOBHELD") (filter (λ c. not (c == b'_')) (map to_upper reason))

unfoldable pub filter_held_jobs : List SlurmJob → List SlurmJob
unfolding is_held_reason
filter_held_jobs jobs = filter (λ job. is_held_reason job.reason) jobs

abbrev node_cfg_keys : List Text
node_cfg_keys = codes "tres" ∷ codes "cfg_tres" ∷ codes "gres" ∷ codes "gres_detail" ∷ []

unfoldable pub parse_node : ℕ → NodeItem → Option SlurmNode
unfolding state_tokens node_tres_text parse_tres_int gpu_type_from_text
parse_node mps_per_gpu node =
    let cfg = node_tres_text node.tres node_cfg_keys in
    let states = state_tokens node.state in
    let total_mps = number_else mps_per_gpu (parse_tres_int cfg (codes "mps")) in
    let alloc_mps =
      number_or 0 (parse_tres_int (node_tres_text node.tres alloc_keys) (codes "mps")) in
    if not (names_gpu (cfg ++ b',' ∷ name_of node))
    then none
    else some (record {
      name = name_of node;
      free_mps = total_mps - alloc_mps;
      running_jobs = if any_of states running_states then 1 else 0;
      gpu_type = gpu_type_from_text (cfg ++ b',' ∷ name_of node);
      available = not (any_of states down_states);
    })

unfoldable pub parse_nodes : ℕ → List NodeItem → List SlurmNode
unfolding parse_node views
parse_nodes mps_per_gpu nodes = views (parse_node mps_per_gpu) nodes
