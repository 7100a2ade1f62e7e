-- ===== src/Scheduler/Snapshot.antt =====
-- services/rl_scheduler/snapshot_agent.py: the snapshot of the queue and the nodes that is pushed to
-- the scheduler. A document's field that is absent or null is `none` or the empty text, and one that
-- may be a number is `none` where it is not.
use kelpflux.Base.{
  ℕ, ◌-◌, ◌*◌, ◌/◌, min, max, Bool, not, ◌||◌, Option, none, some, List, [], ◌∷◌, ◌++◌, map,
  replicate, Text, codes, mem_text, contains, any, length, Dict, if◌then◌else◌, ◌==◌,
}
use kelpflux.Operator.Models.{Time, seconds}
use kelpflux.Operator.Fragmentation.Adapters.{TextOrList, to_lower}
use kelpflux.Operator.Fragmentation.Parsers.{number_or}
use kelpflux.Scheduler.Parsers.{
  TresField, state_tokens, parse_tres_int, number_else, gpu_type_from_text, node_tres_text,
}

-- What json.loads gives for the job's comment; every field is absent where that is no object.
pub record Metadata : Type 0 where
  pub reported : Option Time
  pub gtype : Text
  pub ram : Option ℕ
  pub slo : Option Time
  pub cls : Text

pub record JobItem : Type 0 where
  pub job_id : Option Text
  pub name : Text
  pub job_name : Text
  pub job_state : TextOrList
  pub state_reason : Text
  pub reason : Text
  pub tres_req_str : Text
  pub tres_per_node : Text
  pub gres : Text
  pub gpus_total : Option ℕ
  pub partition : Text
  pub comment : Metadata
  -- In minutes.
  pub time_limit : Option ℕ
  pub required_nodes : TextOrList
  pub req_nodes : TextOrList
  pub submit_time : Option Time
  pub priority : Option ℕ

pub record NodeItem : Type 0 where
  pub name : Text
  pub node_name : Text
  pub hostname : Text
  pub state : TextOrList
  pub tres : Dict TresField

-- x or y
abbrev pub or_text : Text → Text → Text
or_text [] y = y
or_text (c ∷ x) y = c ∷ x

abbrev pub is_pending : JobItem → Bool
is_pending item = mem_text (codes "PENDING") (state_tokens item.job_state)

-- ",".join of the three texts
abbrev pub tres_text : JobItem → Text
tres_text item = item.tres_req_str ++ b',' ∷ (item.tres_per_node ++ b',' ∷ item.gres)

-- `default` for a runtime that is not positive
abbrev pub runtime_or : Time → Time → Time
runtime_or default runtime = if runtime == 0 then default else runtime

abbrev pub time_limit_of : JobItem → Time
time_limit_of item = seconds (number_or 0 item.time_limit * 60)

unfoldable pub gpus_of : JobItem → ℕ
unfolding parse_tres_int
gpus_of item =
    number_else (number_else 1 (some (number_or 1 item.gpus_total)))
      (parse_tres_int (tres_text item) (codes "gpu"))

pub record JobEntry : Type 0 where
  pub job_id : Text
  pub mps_req : ℕ
  pub gpu_count : ℕ
  pub gpu_type : Text
  pub runtime : Time
  pub submit_ts : Time

abbrev pub text_or_empty : Option Text → Text
text_or_empty none = []
text_or_empty (some s) = s

abbrev pub time_or : Time → Option Time → Time
time_or d none = d
time_or d (some t) = t

unfoldable pub job_view : Time → Time → ℕ → JobItem → Option JobEntry
unfolding state_tokens parse_tres_int gpus_of gpu_type_from_text
job_view now default_runtime default_mps item =
    if not (is_pending item)
    then none
    else some (record {
      job_id = text_or_empty item.job_id;
      mps_req = number_else default_mps (parse_tres_int (tres_text item) (codes "mps"));
      gpu_count = gpus_of item;
      gpu_type = gpu_type_from_text (tres_text item);
      runtime = runtime_or default_runtime (time_limit_of item);
      submit_ts = time_or now item.submit_time;
    })

abbrev pub down_states : List Text
down_states = codes "DOWN" ∷ codes "DRAIN" ∷ codes "NOT_RESPONDING" ∷ codes "FAIL" ∷ []

abbrev pub running_states : List Text
running_states = codes "ALLOCATED" ∷ codes "MIXED" ∷ codes "COMPLETING" ∷ []

abbrev pub any_of : List Text → List Text → Bool
any_of tokens states = any (λ s. mem_text s states) tokens

abbrev pub name_of : NodeItem → Text
name_of node = or_text node.name (or_text node.node_name node.hostname)

abbrev pub names_gpu : Text → Bool
names_gpu s = contains (codes "gpu") (map to_lower s) || contains (codes "mps") (map to_lower s)

abbrev snapshot_keys : List Text
snapshot_keys =
    codes "tres"
    ∷ codes "cfg_tres"
    ∷ codes "gres"
    ∷ codes "gres_detail"
    ∷ codes "features"
    ∷ codes "active_features"
    ∷ codes "available_features"
    ∷ []

abbrev pub alloc_keys : List Text
alloc_keys = codes "alloc_tres" ∷ codes "alloc_gres" ∷ codes "tres_used" ∷ []

pub record GpuEntry : Type 0 where
  pub free_mps : ℕ
  pub running_jobs : ℕ
  pub gpu_type : Text

-- The GPUs of a node that takes jobs; a node without any is left out.
unfoldable pub node_view : ℕ → ℕ → NodeItem → Option (List GpuEntry)
unfolding state_tokens node_tres_text parse_tres_int gpu_type_from_text
node_view mps_per_gpu default_gpus_per_node node =
    let states = state_tokens node.state in
    let cfg = node_tres_text node.tres snapshot_keys in
    let parsed_gpu_count = number_else default_gpus_per_node (parse_tres_int cfg (codes "gpu")) in
    let gpu_count = min (max 1 parsed_gpu_count) (max 1 default_gpus_per_node) in
    let total_mps =
      number_else (parsed_gpu_count * mps_per_gpu) (parse_tres_int cfg (codes "mps")) in
    let alloc_mps =
      number_or 0 (parse_tres_int (node_tres_text node.tres alloc_keys) (codes "mps")) in
    let per_gpu = min mps_per_gpu ((total_mps - alloc_mps) / max 1 gpu_count) in
    if any_of states down_states || not (names_gpu (cfg ++ b',' ∷ name_of node))
    then none
    else some (
        replicate (max 1 gpu_count) (record {
          free_mps = per_gpu;
          running_jobs = if any_of states running_states then 1 else 0;
          gpu_type = gpu_type_from_text (or_text cfg (name_of node));
        }))

abbrev pub cons_some : {A : Type 0} → Option A → List A → List A
cons_some none xs = xs
cons_some (some x) xs = x ∷ xs

-- [view for x in xs if (view := f(x)) is not None]
unfoldable pub views : {A B : Type 0} → (A → Option B) → List A → List B
views f [] = []
views f (x ∷ xs) = cons_some (f x) (views f xs)

pub record StateSnapshot : Type 0 where
  pub now : Time
  pub pending_jobs : List JobEntry
  pub nodes : List (List GpuEntry)
  pub n_nodes : ℕ
  pub gpus_per_node : ℕ
  pub mps_per_gpu : ℕ

-- max(..., default=d)
unfoldable pub max_or : ℕ → List ℕ → ℕ
max_or d [] = d
max_or d (n ∷ []) = n
max_or d (n ∷ m ∷ ns) = max n (max_or d (m ∷ ns))

unfoldable pub build_snapshot : Time → ℕ → ℕ → Time → List JobItem → List NodeItem → StateSnapshot
unfolding job_view node_view views max_or
build_snapshot now mps_per_gpu default_gpus_per_node default_runtime jobs node_items =
    let nodes = views (node_view mps_per_gpu default_gpus_per_node) node_items in
    record {
      now = now;
      pending_jobs = views (job_view now default_runtime mps_per_gpu) jobs;
      nodes = nodes;
      n_nodes = length nodes;
      gpus_per_node = max_or default_gpus_per_node (map (λ gpus. length gpus) nodes);
      mps_per_gpu = mps_per_gpu;
    }
