-- ===== src/Lib.antt =====
-- Kelpflux: a model of the elastic Slurm operator, of the daemons that bring the learned policy's
-- decisions to Slurm, and of the scheduling simulator, and what is proved of them.
--
-- The operator (operator/) watches pools of Slurm workers that Kubernetes runs as StatefulSets. A work
-- queue (operator/app.py) names the pool to look at; the reconciler (operator/reconciler.py) reads the
-- pool's state, asks the policy (operator/policy.py) for a decision and has it carried out by the
-- scale actions (operator/scale_actions.py), which talk to Kubernetes and Slurm. Beside this loop the
-- fragmentation reconciler (operator/fragmentation.py) looks for a pending job that fits on no node,
-- and requeues running jobs of lower priority.
--
-- Base holds what all parts share: tests on numbers, lists, text as code points, dictionaries as
-- association lists, and Python's sort. Each module below Operator names its source file:
--   Models         the data classes of operator/models.py; times are in microseconds
--   Policy         CheckpointAwareQueuePolicy: evaluate, clamp, to_decision
--   EventQueue     _PoolEventQueue: put and get, split where the lock is released; Threads is the step
--                  relation of any number of concurrent callers
--   Effects        the dictionaries of OperatorApp as a record (Books), the client calls as a trace of
--                  effects, and exceptions as results. What the services answer at each moment, and
--                  which calls raise, is a parameter (World) without any assumption.
--   ScaleActions   _do_scale_up, _do_scale_down, _do_keep
--   JobTraces      the tracing part of _process_pool
--   Reconciler     _process_pool, stage by stage
--   Fragmentation  the views; Parsers and Adapters are the functions that read
--                  Slurm's documents; Detector, Decider and Requeue are the three classes of the file
--   FragmentationLoop  _fragmentation_tick of operator/fragmentation_loop.py
--   Collector      operator/collector.py, with the parts of operator/slurm.py that prepare its documents:
--                  Tres reads a job's resource request, Buckets sorts jobs into pools, States collects,
--                  Servable, Counts, Lines and Demand say what the buckets and the policy tell of the jobs
--   MainLoop       OperatorApp.run: a turn of the consumer loop, with its circuit breaker and the return
--                  to Slurm's REST interface
--   Watchers       operator/watchers.py: which pools an event or a poll puts into the queue
--
-- Scheduler is services/rl_scheduler/, the part that brings the learned policy's decisions to Slurm:
--   Parsers, Snapshot  snapshot_agent.py: the readers of resource texts and the state snapshot
--   Placement      placement_controller.py: the request to the policy (Payload), one decision and the
--                  loop that drains the held jobs (Choose)
--   Reorder        reorder_daemon.py: the ranking of the pending jobs by the policy (Ranking) and a whole
--                  cycle that writes their priorities (Cycle)
--   Calls          a call that may raise and leaves a trace of what it sent; both daemons use it, and its
--                  children Only and Timed say what a trace may hold, and when
-- What the policy, Slurm and the clock answer is a parameter there, without any assumption.
--
-- Sim.Cluster is sim/cluster.py, the simulator's cluster: Planner holds _plan and _plan_on, Plans and
-- Placing are about what they return, Undo, Release, Spread and Roundtrip about release, and Cells and
-- Balance about any sequence of allocations and releases. Sim.Runner
-- is run of sim/runner.py, the event loop that drives a trace through the cluster; it takes a scheduler
-- (Sim.Schedulers, sim/scheduler/) by an interface with one law, and the latency model of Sim.Latency
-- (sim/latency.py). Its children Weights, Ends and Traces count the jobs of a run, and Heap, Phases,
-- Taking, Timeline and Stories follow one job through it. Sim.Env is the action code and the action mask of sim/gym_env.py.
--
-- Every loop over a list is structural recursion. Three loops take fuel: the ranking has as much as
-- there are jobs, of which each round takes one out; the draining of held jobs counts the source's own
-- max_placements; and the event loop of the simulator needs two turns for each job, one for its
-- submission and one for its end. The endless loops of the operator are lists of turns.
-- Counts, priorities and MPS slots are natural numbers, as are times, in one unit for each component.
-- The fragmentation score, a square root, is kept as its square. The
-- used memory of a simulated node is counted exactly, where the source adds and subtracts floats. Python
-- sets are lists, in an order that no theorem depends on. Left out are the fields of log lines and
-- spans that only repeat a method's inputs.
--
-- Not modelled are the clients and metrics (operator/k8s.py, otel.py, metrics.py, the transport of
-- slurm.py), which wrap libraries outside the repository; the start of OperatorApp, which reads the
-- environment and JSON annotations; the readers of traces, the score scheduler and
-- the summary of the metrics of the simulator; the observations and rewards of the training
-- environment (sim/gym_env.py) and the networks (the rest of services/), which compute on floats and
-- tensors; and the evaluation scripts.
pub mod Base
pub mod Operator
pub mod Scheduler
pub mod Sim
