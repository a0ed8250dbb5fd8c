-- ===== src/Sched.antt =====
-- The scheduling policies of include/vm/Scheduler and src/vm/Scheduler.
pub mod Vm
pub mod Keyed
pub mod OrderedSet
pub mod DeadlineQueue
pub mod Cfs
pub mod Edf
pub mod Quota
pub mod Hybrid
pub mod Policy
pub mod Manager
