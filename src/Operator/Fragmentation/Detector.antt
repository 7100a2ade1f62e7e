-- ===== src/Operator/Fragmentation/Detector.antt =====
-- operator/fragmentation.py, class FragmentationDetector.
use kelpflux.Base.{
  ℕ, ◌+◌, ◌-◌, ◌*◌, Bool, not, ◌&&◌, ◌||◌, Option, none, some, List, [], ◌∷◌, ◌++◌, map, Text,
  codes, text_eq, text_le, lookup, insert, Dict, filter, any, length, sum_by, sorted, ltb, leb,
  ◌==◌, if◌then◌else◌,
}
use kelpflux.Operator.Models.{Time}
use kelpflux.Operator.Fragmentation.{
  JobView, NodeView, RequeueCandidate, Score, FragmentationSnapshot,
}

pub record FragmentationDetector : Type 0 where
  pub mps_per_node : ℕ
  pub priority_gap : ℕ

-- str.upper, over ASCII
unfoldable pub to_upper : ℕ → ℕ
to_upper c = if leb b'a' c && leb c b'z' then c - 32 else c

unfoldable pub is_state : Text → JobView → Bool
unfolding to_upper
is_state name j = text_eq (map to_upper j.state) name

abbrev pub pending_text : Text
pending_text = codes "PENDING"

abbrev pub running_text : Text
running_text = codes "RUNNING"

unfoldable pub fits_anywhere : JobView → List NodeView → Bool
fits_anywhere job nodes = any (λ n. leb job.mps_req n.free_mps) nodes

abbrev total : List ℕ → ℕ
total xs = sum_by (λ x. x) xs

abbrev cap_at_one : ℕ → ℕ → Score
cap_at_one num den =
    if leb den num
    then record { numerator = 1; denominator = 1 }
    else record { numerator = num; denominator = den }

-- cv = pstdev / mean, so cv ^ 2 = (n * sum of squares - sum ^ 2) / sum ^ 2.
unfoldable pub fragmentation_score : List ℕ → Score
fragmentation_score free =
    if ltb (length free) 2 || total free == 0
    then record { numerator = 0; denominator = 1 }
    else cap_at_one (length free * sum_by (λ x. x * x) free - total free * total free)
        (total free * total free)

-- key=lambda j: (-j.priority, j.submit_ts, j.job_id)
unfoldable pub blocked_before : JobView → JobView → Bool
blocked_before a b =
    ltb b.priority a.priority
    || (a.priority == b.priority
        && (ltb a.submit_ts b.submit_ts
            || (a.submit_ts == b.submit_ts && text_le a.job_id b.job_id)))

-- key=lambda v: (v.priority, -v.runtime_seconds, v.job_id)
unfoldable pub victim_before : JobView → JobView → Bool
victim_before a b =
    ltb a.priority b.priority
    || (a.priority == b.priority
        && (ltb b.runtime_seconds a.runtime_seconds
            || (a.runtime_seconds == b.runtime_seconds && text_le a.job_id b.job_id)))

unfoldable pub pending_jobs : List JobView → List JobView
pending_jobs jobs = filter (is_state pending_text) jobs

unfoldable pub running_jobs : List JobView → List JobView
running_jobs jobs = filter (is_state running_text) jobs

-- Pending jobs that fit nowhere, the head of the queue first.
unfoldable pub blocked_jobs : List JobView → List NodeView → List JobView
blocked_jobs jobs nodes =
    sorted blocked_before (filter (λ j. not (fits_anywhere j nodes)) (pending_jobs jobs))

-- {n.node_id: n for n in nodes}
unfoldable pub index_nodes : Dict NodeView → List NodeView → Dict NodeView
index_nodes idx [] = idx
index_nodes idx (n ∷ ns) = index_nodes (insert n.node_id n idx) ns

abbrev pub occupants : Option (List JobView) → List JobView
occupants none = []
occupants (some js) = js

unfoldable pub add_to_nodes : JobView → List Text → Dict (List JobView) → Dict (List JobView)
add_to_nodes r [] d = d
add_to_nodes r (nid ∷ nids) d =
    add_to_nodes r nids (insert nid (occupants (lookup nid d) ++ r ∷ []) d)

unfoldable pub running_by_node : Dict (List JobView) → List JobView → Dict (List JobView)
unfolding add_to_nodes
running_by_node d [] = d
running_by_node d (r ∷ rs) = running_by_node (add_to_nodes r r.nodes d) rs

module _ (self : FragmentationDetector) where
  -- (target.priority - victim.priority) > priority_gap
  unfoldable pub is_eligible : JobView → JobView → Bool
  is_eligible target v = ltb (v.priority + self.priority_gap) target.priority

  unfoldable pub candidate : JobView → Text → JobView → RequeueCandidate
  candidate target nid victim = record {
    victim = victim;
    target = target;
    node_id = nid;
    slots_freed = victim.mps_req;
  }

  -- The victims on one node: none where the node is unknown, or the target already fits.
  unfoldable pub candidates_on :
      JobView → Text → List JobView → Option NodeView → List RequeueCandidate
  unfolding candidate
  candidates_on target nid on_node none = []
  candidates_on target nid on_node (some node) =
      if leb target.mps_req node.free_mps
      then []
      else map (candidate target nid) (sorted victim_before (filter (is_eligible target) on_node))

  unfoldable pub candidates_for :
      JobView → Dict NodeView → Dict (List JobView) → List RequeueCandidate
  candidates_for target node_idx [] = []
  candidates_for target node_idx ((nid, on_node) ∷ rest) =
      candidates_on target nid on_node (lookup nid node_idx) ++ candidates_for target node_idx rest

  unfoldable pub all_candidates :
      List JobView → Dict NodeView → Dict (List JobView) → List RequeueCandidate
  all_candidates [] node_idx by_node = []
  all_candidates (target ∷ targets) node_idx by_node =
      candidates_for target node_idx by_node ++ all_candidates targets node_idx by_node

  unfoldable pub snapshot : List JobView → List NodeView → Time → FragmentationSnapshot
  snapshot jobs nodes now =
      let free = map (λ n. n.free_mps) nodes in
      let blocked = blocked_jobs jobs nodes in
      record {
        timestamp = now;
        score = fragmentation_score free;
        free_mps_per_node = free;
        pending_blocked = blocked;
        candidates =
            all_candidates blocked (index_nodes [] nodes) (running_by_node [] (running_jobs jobs));
      }
