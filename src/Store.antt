-- ===== src/Store.antt =====
-- internal/core/ports.go: the object storage port, `core.Store`, as a record of operations that pass
-- the state of the bucket, with the contract that its comments state. `Store.Memory` is the
-- in-memory implementation.
--
-- `S` is the state of the bucket and `B` the type of an object's bytes. Contexts and their
-- cancellation are left out. A time is a number of nanoseconds since Go's zero time.
pub mod Memory
pub mod MemoryLaws
pub mod Listing
pub mod Contract
pub mod Port
