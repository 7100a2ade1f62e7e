-- ===== src/Scheduler.antt =====
-- The daemons of the learned scheduler (services/rl_scheduler/) that read Slurm's state, place held
-- jobs and order pending ones. The policy's answers are a parameter.
pub mod Parsers
pub mod Snapshot
pub mod Placement
pub mod Reorder
pub mod Calls
