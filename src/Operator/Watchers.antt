-- ===== src/Operator/Watchers.antt =====
-- operator/watchers.py: the watchers that put pools into the work queue. A watch stream is taken event
-- by event; the loops that reconnect and sleep are left out.
pub mod Polls
mod Examples
use kelpflux.Base.{
  ℕ, ◌&&◌, Bool, true, false, Option, none, some, List, [], ◌∷◌, ◌++◌, Text, codes, text_eq,
  mem_text, starts_with, Dict, lookup, insert, ◌==◌, if◌then◌else◌,
}
use kelpflux.Operator.Models.{Time, PartitionState}
use kelpflux.Operator.EventQueue.{PoolEventQueue, put}

-- self._event_queue and self._slurm_state_cache
pub record Watcher : Type 0 where
  pub event_queue : PoolEventQueue
  pub slurm_state_cache : Dict PartitionState

-- One event of the StatefulSet stream: the object's name, if it carries an object, and the event type.
unfoldable pub on_statefulset :
    List Text → Option Text → Text → Time → PoolEventQueue → PoolEventQueue
on_statefulset pool_keys none event now queue = queue
on_statefulset pool_keys (some name) event now queue =
    if mem_text name pool_keys then (put name (codes "k8s-sts:" ++ event) now queue).1 else queue

-- The first pool whose name and a dash begin the pod's name.
unfoldable pub pool_of_pod : List Text → Text → Option Text
pool_of_pod [] pod_name = none
pool_of_pod (sts_name ∷ rest) pod_name =
    if starts_with pod_name (sts_name ++ codes "-")
    then some sts_name
    else pool_of_pod rest pod_name

-- One event of the pod stream.
unfoldable pub on_pod : List Text → Option Text → Text → Time → PoolEventQueue → PoolEventQueue
on_pod pool_keys none event now queue = queue
on_pod pool_keys (some pod_name) event now queue = elim (pool_of_pod pool_keys pod_name) [
  | none ↦ queue
  | some sts_name ↦ (put sts_name (codes "k8s-pod:" ++ event) now queue).1
]

-- state == prev, the comparison of the data class
unfoldable pub state_eq : PartitionState → PartitionState → Bool
state_eq s t =
    text_eq s.partition t.partition
    && (text_eq s.worker_statefulset t.worker_statefulset
        && ((s.current_replicas == t.current_replicas)
            && ((s.pending_jobs == t.pending_jobs)
                && ((s.running_jobs == t.running_jobs)
                    && ((s.busy_nodes == t.busy_nodes)
                        && (s.scale_pending_jobs == t.scale_pending_jobs))))))

unfoldable pub has_changed : Option PartitionState → PartitionState → Bool
unfolding state_eq
has_changed none state = true
has_changed (some prev) state = if state_eq state prev then false else true

unfoldable pub note_state : Time → Text → PartitionState → Watcher → Watcher
unfolding has_changed
note_state now key state self =
    let changed = has_changed (lookup key self.slurm_state_cache) state in
    record {
      event_queue =
          if changed
          then (put key (codes "slurm-diff") now self.event_queue).1
          else self.event_queue;
      slurm_state_cache = insert key state self.slurm_state_cache;
    }

unfoldable pub note_states : Time → Dict PartitionState → Watcher → Watcher
unfolding note_state
note_states now [] self = self
note_states now ((key, state) ∷ states) self =
    note_states now states (note_state now key state self)

-- One turn of _poll_slurm_state; `none` when the collection raises.
unfoldable pub poll_slurm_state : Time → Option (Dict PartitionState) → Watcher → Watcher
unfolding note_states
poll_slurm_state now none self = self
poll_slurm_state now (some states) self = note_states now states self
