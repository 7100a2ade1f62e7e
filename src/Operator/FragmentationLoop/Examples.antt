-- ===== src/Operator/FragmentationLoop/Examples.antt =====
-- operator/fragmentation_loop.py: a cycle over one partition.
use kelpflux.Base.{false, none, some, [], ◌∷◌, codes}
use kelpflux.Operator.Models.{seconds}
use kelpflux.Operator.Samples.{sample_detector, sample_decider}
use kelpflux.Operator.Fragmentation.Adapters.{RestJob, RestNode, text}
use kelpflux.Operator.Fragmentation.Requeue.{FragmentationReconciler}
use kelpflux.Operator.FragmentationLoop.{Rest, fragmentation_tick}
use kelpflux.Operator.FragmentationLoop.Cycles.{watched, IsCareful, fragmentation_tick-IsCareful}

abbrev waiting : RestJob
waiting = record {
  job_id = codes "9";
  user_name = some (codes "ada");
  user = none;
  partition = codes "gpu";
  job_state = codes "PENDING";
  tres_per_node = text (codes "mps:80");
  num_nodes = some 1;
  nodes = [];
  priority = 100;
  submit_time = 0;
  run_time = 0;
}

abbrev running : RestJob
running = record waiting {
  job_id = codes "1";
  job_state = codes "RUNNING";
  nodes = codes "n0";
  priority = 5;
}

abbrev full_node : RestNode
full_node = record {
  name = codes "n0";
  state = text (codes "MIXED");
  gres = some (text (codes "mps:100"));
  tres_used = text (codes "gres/mps=80");
  gres_used = text [];
}

abbrev sample_rest : Rest
sample_rest = record {
  list_jobs = λ part. some (waiting ∷ running ∷ []);
  list_nodes = some (full_node ∷ []);
}

abbrev a_reconciler : FragmentationReconciler
a_reconciler = record { detector = sample_detector; decider = sample_decider; shadow_mode = false }

fragmentation_tick-IsCareful_example :
    IsCareful
      (λ jid. false)
      a_reconciler
      (seconds 5)
      sample_rest.list_jobs
      (watched [] (codes "gpu" ∷ []))
      (fragmentation_tick
        (λ jid. false)
        a_reconciler
        (seconds 5)
        (some sample_rest)
        []
        (codes "gpu" ∷ []))
fragmentation_tick-IsCareful_example =
    fragmentation_tick-IsCareful (λ jid. false) a_reconciler (seconds 5) sample_rest []
      (codes "gpu" ∷ [])
