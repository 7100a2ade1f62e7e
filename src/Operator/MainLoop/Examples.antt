-- ===== src/Operator/MainLoop/Examples.antt =====
-- operator/app.py, OperatorApp.run: two turns in which slurmrestd does not answer.
use kelpflux.Base.{false, true, none, List, [], ◌∷◌, ◌≡◌, refl}
use kelpflux.Operator.Models.{seconds}
use kelpflux.Operator.Samples.{sample_policy, sample_cfg, sample_config, sample_world, sample_app}
use kelpflux.Operator.MainLoop.{Setup, Loop, Turn, start_loop, backoff_seconds}
use kelpflux.Operator.MainLoop.Turns.{IsSpacedFrom, ping_times, run_turns-pings_spaced}

abbrev sample_setup : Setup
sample_setup = record {
  world = sample_world;
  config = sample_config;
  policy = sample_policy;
  partition_cfgs = sample_cfg ∷ [];
  has_rest = true;
}

abbrev deaf_turn : Turn
deaf_turn = record {
  item = none;
  monotonic = seconds 40;
  ping = false;
  rest_jobs = λ p. none;
  rest_nodes = λ p. none;
  squeue = λ p. none;
  sinfo = λ p. none;
  replicas = λ p. none;
}

abbrev three_turns : List Turn
three_turns =
    deaf_turn
    ∷ record deaf_turn { monotonic = seconds 41 }
    ∷ record deaf_turn { monotonic = seconds 70; ping = true }
    ∷ []

abbrev sample_loop : Loop
sample_loop = start_loop sample_setup false 0 sample_app

run_turns-pings_spaced_example :
    IsSpacedFrom sample_loop.rest_retry_at (ping_times sample_setup three_turns sample_loop)
run_turns-pings_spaced_example = run_turns-pings_spaced sample_setup three_turns sample_loop

backoff_bounded : backoff_seconds sample_setup 9 ≡ 60
unfolding backoff_seconds
backoff_bounded = refl
