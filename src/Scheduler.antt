-- ===== src/Scheduler.antt =====
-- src/scheduler.ts and src/scheduler-jobid.ts: dispatch of the monitors that are due.
-- `Slots` is the Redis key space behind its laws, `Keys` the names of slots, lists and jobs,
-- `Dispatch` the path of one job, `Ticks` the passes over the due monitors of each kind.
pub mod Slots
pub mod Keys
pub mod Dispatch
pub mod Ticks
pub mod Once
pub mod Passes
pub mod Accounting
pub mod Supervisor
pub mod Regions
