-- ===== src/Operator/MainLoop.antt =====
-- operator/app.py, OperatorApp.run: one turn of the consumer loop, with its circuit breaker and the
-- return to Slurm's REST interface, and a run of such turns. The endless loop is a list of turns.
pub mod Turns
mod Examples
use kelpflux.Base.{
  ℕ, suc, ◌+◌, ◌^◌, min, Bool, true, false, Option, none, some, List, [], ◌∷◌, ◌++◌, Text, Dict,
  lookup, insert, keys, ltb, if◌then◌else◌,
}
use kelpflux.Operator.Models.{Time, seconds, PartitionConfig, Config, PartitionState}
use kelpflux.Operator.Policy.{CheckpointAwareQueuePolicy}
use kelpflux.Operator.EventQueue.{Item}
use kelpflux.Operator.Effects.{World, App}
use kelpflux.Operator.Reconciler.{process_pool}
use kelpflux.Operator.Collector.Buckets.{JobDoc}
use kelpflux.Operator.Collector.States.{
  NodeDoc, Answers, rest_answers, exec_answers, collect_all_partition_states,
}

-- What stays the same over a run. `world` is what the services answer to the reconciler.
pub record Setup : Type 0 where
  pub world : World
  pub config : Config
  pub policy : CheckpointAwareQueuePolicy
  pub partition_cfgs : List PartitionConfig
  -- SLURM_REST_URL is set.
  pub has_rest : Bool

-- What the loop keeps between turns: `rest` says that the client is in use.
pub record Loop : Type 0 where
  pub app : App
  pub rest : Bool
  pub rest_retry_at : Time
  pub consecutive_errors : ℕ

-- What a turn meets: the item of the queue, the clock, the answer to a ping, and the cluster's answers.
pub record Turn : Type 0 where
  pub item : Option Item
  pub monotonic : Time
  pub ping : Bool
  pub rest_jobs : Text → Option (List JobDoc)
  pub rest_nodes : Text → Option (List NodeDoc)
  pub squeue : Text → Option Text
  pub sinfo : Text → Option Text
  pub replicas : Text → Option ℕ

pub data Outcome : Type 0 where
  -- The collection failed, and the loop sleeps for so many seconds.
  backed_off : ℕ → Outcome
  -- The pools of these keys have been looked at.
  processed : List Text → Outcome

-- {p.worker_statefulset: p for p in partition_cfgs}
unfoldable pub cfg_by_key : List PartitionConfig → Dict PartitionConfig → Dict PartitionConfig
cfg_by_key [] d = d
cfg_by_key (p ∷ ps) d = cfg_by_key ps (insert p.worker_statefulset p d)

-- Without an item all pools are looked at.
abbrev pub pool_keys : Option Item → Dict PartitionConfig → List Text
pool_keys none cfgs = keys cfgs
pool_keys (some item) cfgs = item.pool_key ∷ []

module _ (setup : Setup) where
  -- Whether the turn pings slurmrestd.
  abbrev pub pings : Turn → Loop → Bool
  pings turn self =
      if self.rest
      then false
      else if setup.has_rest
      then (if ltb turn.monotonic self.rest_retry_at then false else true)
      else false

  unfoldable pub restore_rest_if_available : Turn → Loop → Loop
  restore_rest_if_available turn self =
      if pings turn self
      then record self { rest_retry_at = turn.monotonic + seconds 30; rest = turn.ping }
      else self

  abbrev pub answers_of : Turn → Loop → Answers
  answers_of turn self =
      if self.rest
      then rest_answers turn.rest_jobs turn.rest_nodes
      else exec_answers turn.squeue turn.sinfo

  -- min(2.0 ** min(errors, 6), 60.0)
  unfoldable pub backoff_seconds : ℕ → ℕ
  backoff_seconds errors = min (2 ^ min errors 6) 60

  unfoldable pub process_one : Option PartitionConfig → Dict PartitionState → App → App
  process_one none all_states app = app
  process_one (some cfg) all_states app =
      process_pool setup.world setup.config setup.policy cfg all_states app

  unfoldable pub process_keys : List Text → Dict PartitionConfig → Dict PartitionState → App → App
  unfolding process_one
  process_keys [] cfgs all_states app = app
  process_keys (key ∷ rest) cfgs all_states app =
      process_keys rest cfgs all_states (process_one (lookup key cfgs) all_states app)

  unfoldable pub after_collection :
      List Text → Dict PartitionConfig → Option (Dict PartitionState) → Loop → Loop × Outcome
  unfolding process_keys backoff_seconds
  after_collection keys cfgs none self =
      let errors = suc self.consecutive_errors in
      (record self { consecutive_errors = errors }, backed_off (backoff_seconds errors))
  after_collection keys cfgs (some all_states) self = (
    record self { consecutive_errors = 0; app = process_keys keys cfgs all_states self.app },
    processed keys,
  )

  unfoldable pub loop_turn : Turn → Loop → Loop × Outcome
  unfolding after_collection restore_rest_if_available cfg_by_key
  loop_turn turn self =
      let cfgs = cfg_by_key setup.partition_cfgs [] in
      let restored = restore_rest_if_available turn self in
      after_collection (pool_keys turn.item cfgs) cfgs
        (collect_all_partition_states (answers_of turn restored) turn.replicas setup.partition_cfgs)
        restored

  -- The start of run: where the first ping fails, the REST client is put aside for 30 seconds.
  unfoldable pub start_loop : Bool → Time → App → Loop
  start_loop ping now app = record {
    app = app;
    rest = if setup.has_rest then ping else false;
    rest_retry_at = if setup.has_rest then (if ping then 0 else now + seconds 30) else 0;
    consecutive_errors = 0;
  }

  unfoldable pub run_turns : List Turn → Loop → Loop
  unfolding loop_turn
  run_turns [] self = self
  run_turns (turn ∷ turns) self = run_turns turns (loop_turn turn self).0
