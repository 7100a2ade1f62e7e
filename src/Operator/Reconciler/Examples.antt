-- ===== src/Operator/Reconciler/Examples.antt =====
-- operator/reconciler.py: the theorems on passes over the sample pool.
use kelpflux.Base.{◌≡◌, refl, inr, none, some, [], ◌∷◌, lookup, text_eq, Dict, arith}
use kelpflux.Operator.Models.{PartitionState, seconds}
use kelpflux.Operator.Effects.Keeps.{Since}
use kelpflux.Operator.Samples.{
  pool_name, sample_policy, sample_cfg, sample_config, sample_world, still_world, waiting_state,
  sample_app, sample_marker, provisioning_app, backoff_app,
}
use kelpflux.Operator.Reconciler.{process_pool}
use kelpflux.Operator.Reconciler.Patches.{IsExpected, process_pool-patches}
use kelpflux.Operator.Reconciler.Gate.{IsShrink}
use kelpflux.Operator.Reconciler.Waiting.{process_pool-in_flight, process_pool-backoff}

abbrev all_states : Dict PartitionState
all_states = (pool_name, waiting_state) ∷ []

process_pool-patches_example :
    Since []
      (IsExpected sample_cfg none (some waiting_state))
      (λ b. Unit)
      (process_pool sample_world sample_config sample_policy sample_cfg all_states sample_app)
unfolding lookup text_eq
process_pool-patches_example =
    process_pool-patches sample_world sample_config sample_policy sample_cfg all_states sample_app
      (omega arith)

process_pool-in_flight_example :
    Since []
      (IsShrink sample_cfg (some waiting_state))
      (λ b. lookup pool_name b.provisioning ≡ some sample_marker)
      (process_pool still_world sample_config sample_policy sample_cfg all_states provisioning_app)
unfolding lookup text_eq
process_pool-in_flight_example =
    process_pool-in_flight still_world sample_config sample_policy sample_cfg all_states
      provisioning_app sample_marker refl (λ tick. omega arith) (inr (λ tick. omega arith))

process_pool-backoff_example :
    Since []
      (IsShrink sample_cfg (some waiting_state))
      (λ b.
        (lookup pool_name b.provisioning ≡ none)
        × (lookup pool_name b.provisioning_retry_at ≡ some (seconds 10)))
      (process_pool still_world sample_config sample_policy sample_cfg all_states backoff_app)
unfolding lookup text_eq
process_pool-backoff_example =
    process_pool-backoff still_world sample_config sample_policy sample_cfg all_states backoff_app
      (seconds 10) refl refl (λ tick. omega arith)
