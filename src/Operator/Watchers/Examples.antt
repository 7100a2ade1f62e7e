-- ===== src/Operator/Watchers/Examples.antt =====
-- operator/watchers.py: a poll that finds a waiting job where the pool was idle, and the pods' pools.
use kelpflux.Base.{
  ◌≡◌, ◌≢◌, ◌↔◌, ◌⊎◌, refl, true, none, some, [], ◌∷◌, codes, text_eq, starts_with, mem_text,
  lookup, Dict,
}
use kelpflux.Operator.Models.{PartitionState}
use kelpflux.Operator.Samples.{pool_name, waiting_state, idle_state}
use kelpflux.Operator.EventQueue.{empty}
use kelpflux.Operator.Watchers.{Watcher, pool_of_pod, poll_slurm_state}
use kelpflux.Operator.Watchers.Polls.{poll_slurm_state-Notices}

abbrev watcher : Watcher
watcher = record { event_queue = empty; slurm_state_cache = (pool_name, idle_state) ∷ [] }

abbrev new_states : Dict PartitionState
new_states = (pool_name, waiting_state) ∷ []

poll_slurm_state-Notices_example :
    let after = poll_slurm_state 5 (some new_states) watcher in
    (lookup pool_name after.slurm_state_cache ≡ some waiting_state)
    × ((mem_text pool_name after.event_queue.pending ≡ true) ↔ (
        (mem_text pool_name watcher.event_queue.pending ≡ true)
        ⊎ (lookup pool_name watcher.slurm_state_cache ≢ some waiting_state)))
    × (poll_slurm_state 5 none watcher ≡ watcher)
unfolding lookup text_eq
poll_slurm_state-Notices_example =
    poll_slurm_state-Notices 5 new_states watcher pool_name waiting_state (refl, tt) refl

pod_of_pool : pool_of_pod (codes "cpu" ∷ pool_name ∷ []) (codes "worker-gpu-0") ≡ some pool_name
unfolding pool_of_pod starts_with
pod_of_pool = refl

-- The name of one pool may begin the pods' names of another.
pod_of_other_pool :
    pool_of_pod (codes "worker" ∷ pool_name ∷ []) (codes "worker-gpu-0") ≡ some (codes "worker")
unfolding pool_of_pod starts_with
pod_of_other_pool = refl
