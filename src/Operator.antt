-- ===== src/Operator.antt =====
-- The elastic operator (operator/): its data, its scaling policy, its work queue, and the control
-- loop over the state of OperatorApp.
pub mod Models
mod Samples
pub mod Policy
pub mod EventQueue
pub mod Effects
pub mod ScaleActions
pub mod JobTraces
pub mod Reconciler
pub mod Fragmentation
pub mod FragmentationLoop
pub mod Collector
pub mod MainLoop
pub mod Watchers
