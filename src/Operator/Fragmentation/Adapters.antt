-- ===== src/Operator/Fragmentation/Adapters.antt =====
-- operator/fragmentation.py: the views of the jobs and nodes that Slurm's REST interface reports.
-- A document's field that is absent or null has here the value that the source puts in its place.
use kelpflux.Base.{
  ℕ, ◌+◌, ◌-◌, Bool, not, ◌&&◌, Option, none, some, List, [], ◌∷◌, ◌++◌, map, Text, codes, text_eq,
  mem_text, strip, split_on, filter, any, leb, ◌==◌, if◌then◌else◌,
}
use kelpflux.Operator.Models.{Time}
use kelpflux.Operator.Fragmentation.{JobView, NodeView}
use kelpflux.Operator.Fragmentation.Detector.{to_upper}
use kelpflux.Operator.Fragmentation.Parsers.{
  parse_mps_req, parse_node_total_mps, parse_tres_mps, parse_node_list,
}

-- A field that is a text in some versions of the interface and a list of texts in others.
pub data TextOrList : Type 0 where
  text : Text → TextOrList
  texts : List Text → TextOrList

-- ",".join(parts)
abbrev pub join_commas : List Text → Text
join_commas [] = []
join_commas (part ∷ []) = part
join_commas (part ∷ next ∷ parts) = part ++ b',' ∷ join_commas (next ∷ parts)

unfoldable pub joined : TextOrList → Text
joined (text s) = s
joined (texts parts) = join_commas parts

pub record RestJob : Type 0 where
  pub job_id : Text
  pub user_name : Option Text
  pub user : Option Text
  pub partition : Text
  pub job_state : Text
  pub tres_per_node : TextOrList
  -- `none` where int() raises.
  pub num_nodes : Option ℕ
  pub nodes : Text
  pub priority : ℕ
  pub submit_time : Time
  pub run_time : Time

pub record RestNode : Type 0 where
  pub name : Text
  pub state : TextOrList
  -- `none` where the document has no such key.
  pub gres : Option TextOrList
  pub tres_used : TextOrList
  pub gres_used : TextOrList

unfoldable pub mps_or_whole : ℕ → Text → ℕ
mps_or_whole mps_per_node tres =
    if parse_mps_req tres == 0 then mps_per_node else parse_mps_req tres

unfoldable pub gpu_count_of : Option ℕ → ℕ
gpu_count_of none = 1
gpu_count_of (some n) = if n == 0 then 1 else n

unfoldable pub user_of : Option Text → Option Text → Text
user_of (some name) other = name
user_of none (some name) = name
user_of none none = codes "anon"

unfoldable pub job_view : ℕ → RestJob → JobView
unfolding mps_or_whole gpu_count_of user_of joined
job_view mps_per_node j = record {
  job_id = j.job_id;
  user = user_of j.user_name j.user;
  partition = j.partition;
  state = map to_upper j.job_state;
  priority = j.priority;
  mps_req = mps_or_whole mps_per_node (joined j.tres_per_node);
  gpu_count = gpu_count_of j.num_nodes;
  nodes = parse_node_list j.nodes;
  submit_ts = j.submit_time;
  runtime_seconds = j.run_time;
}

unfoldable pub is_wanted : RestJob → Bool
is_wanted j = mem_text (map to_upper j.job_state) (codes "RUNNING" ∷ codes "PENDING" ∷ [])

unfoldable pub jobs_from_slurm_rest : ℕ → List RestJob → List JobView
unfolding is_wanted job_view
jobs_from_slurm_rest mps_per_node rest_jobs =
    map (job_view mps_per_node) (filter is_wanted rest_jobs)

abbrev pub unavailable_node_states : List Text
unavailable_node_states =
    codes "drain"
    ∷ codes "drained"
    ∷ codes "draining"
    ∷ codes "down"
    ∷ codes "fail"
    ∷ codes "failing"
    ∷ codes "maint"
    ∷ codes "reserved"
    ∷ codes "powering_down"
    ∷ codes "powered_down"
    ∷ codes "future"
    ∷ codes "not_responding"
    ∷ codes "no_respond"
    ∷ []

-- str.lower, over ASCII
unfoldable pub to_lower : ℕ → ℕ
to_lower c = if leb b'A' c && leb c b'Z' then c + 32 else c

abbrev plus_to_comma : ℕ → ℕ
plus_to_comma c = if c == b'+' then b',' else c

unfoldable pub node_states : TextOrList → List Text
unfolding to_lower
node_states (texts raw) = map (map to_lower) raw
node_states (text raw) =
    map (λ s. map to_lower (strip s))
      (filter (λ s. not (text_eq (strip s) [])) (split_on b',' (map plus_to_comma raw)))

unfoldable pub node_is_available : RestNode → Bool
unfolding node_states
node_is_available n = not (any (λ s. mem_text s unavailable_node_states) (node_states n.state))

-- Without an MPS entry a node has no slots, or where the field is absent the cluster's default.
unfoldable pub total_or_default : ℕ → Option TextOrList → ℕ
unfolding joined
total_or_default mps_per_node none = mps_per_node
total_or_default mps_per_node (some gres) = elim (parse_node_total_mps (joined gres)) [
  | none ↦ 0
  | some total ↦ total
]

unfoldable pub used_slots : RestNode → ℕ
unfolding joined
used_slots n = elim (parse_tres_mps (joined n.tres_used)) [
  | none ↦ parse_mps_req (joined n.gres_used)
  | some used ↦ used
]

unfoldable pub node_view : ℕ → RestNode → NodeView
unfolding total_or_default used_slots node_is_available
node_view mps_per_node n =
    let total = total_or_default mps_per_node n.gres in
    record {
      node_id = n.name;
      free_mps = if node_is_available n then total - used_slots n else 0;
      total_mps = total;
    }

unfoldable pub nodes_from_slurm_rest : ℕ → List RestNode → List NodeView
unfolding node_view
nodes_from_slurm_rest mps_per_node rest_nodes = map (node_view mps_per_node) rest_nodes
