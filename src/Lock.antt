-- ===== src/Lock.antt =====
-- internal/lock/lock.go: the per-target lock, a lease in one object of the bucket.
--
-- The store is a parameter, any `Store` of `Store.Port`. JSON is a parameter, `encode` and `decode`.
-- What an attempt draws from its surroundings (clock, random id, host, process, version) is a record
-- `Env`. The heartbeat goroutine is a step, `beat`; logging and the cancellation of contexts are
-- left out, and a lease that was lost is the field `lost`.
pub mod Types
pub mod Locker
pub mod Acquire
pub mod Live
pub mod Renew
