-- ===== src/Sim.antt =====
-- The simulator of the scheduler (sim/).
pub mod Cluster
pub mod Latency
pub mod Schedulers
pub mod Runner
pub mod Env
