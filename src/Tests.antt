-- ===== src/Tests.antt =====
-- Concrete runs and instances of the theorems, by part of the program.
mod RetentionTests
mod StoreTests
mod LockTests
mod IndexTests
mod PruneTests
mod ServerTests
mod SchedulerTests
mod BackupTests
mod PipelineTests
mod VerifyTests
mod ConfigTests
mod ExecutorTests
mod NotifyTests
