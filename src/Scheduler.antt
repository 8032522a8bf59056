-- ===== src/Scheduler.antt =====
-- internal/scheduler: the jobs that the configuration declares, and when the scheduler dispatches them.
pub mod Job
pub mod Dispatch
pub mod Claims
pub mod Executor
pub mod UnderLock
pub mod LastRun
