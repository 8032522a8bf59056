-- ===== src/Lib.antt =====
-- Verification of vaultd, a backup daemon for databases (Go).
--
-- The program keeps its state in a bucket: the objects of the backups, a manifest beside each, an index
-- of JSON lines per target, and a lock object per target. The scheduler decides what is due from the
-- index, runs it under the lock, appends the outcome to the index, and prunes by the retention policy of
-- the target. A small HTTP server starts runs by hand and throttles wrong tokens.
--
-- Files and the code that they model:
--
--   Base                 names, lists, maps and texts that all parts share; models no code
--   Retention            internal/retention/retention.go
--     Types              Policy, Backup, Decision, Plan and their methods (Why, Bytes, Keys, KeptIDs)
--     Periods            keepOf, location, bucketKey, representative, survivors
--     Planner            Policy.Plan
--     Collect, Floor, Representative, Tiers, Partition, Safety, Calendar   proofs
--   Store                the port core.Store of internal/core/ports.go (Port), and
--                        internal/storage/memory/memory.go (Memory); MemoryLaws, Listing and
--                        Contract have the proofs
--   Lock                 internal/lock/lock.go: Types, and Locker with Acquire, attempt, hold, read,
--                        renew, Release; Acquire, Live and Renew have the proofs
--   Manifest             internal/manifest/index.go and manifest.go: Entry, and Jsonl with AppendEntry
--                        and ParseIndex; keys.go: Layout; RoundTrip and Keys have the proofs
--   Index                internal/index/index.go: Cache with Load, Replace, prune, Rebuild, Entries,
--                        and Update with Append, Remove, SetVerification; Atomic and Contents have the
--                        proofs
--   Prune                internal/prune/prune.go (Runner); Attempts and Safety have the proofs
--   Server               internal/server/throttle.go and authenticate of server.go (Throttle), and
--                        internal/server/runs.go (Runs); Sweep, Lockout, Trimming,
--                        Registry, Begin have the proofs
--   Scheduler            internal/scheduler/job.go and the reads of the index of exec.go (Job),
--                        scheduler.go (Dispatch), and Executor.Run of exec.go (Executor); Claims, LastRun
--                        and UnderLock have the proofs
--   Config               internal/config/validate.go over the types of types.go (Types): Names with the
--                        two patterns, Stages with compression, encryption and retention, Options,
--                        Targets, and Validate; Defaults with ApplyDefaults of defaults.go; Retained,
--                        Accepted and Resolved have the proofs. Stages also has App.Retention of
--                        internal/app/app.go
--   Backup               internal/backup/backup.go: Types, and Runner with Run, reserve, classify,
--                        recordFailure; Reserve, Stored and Failures have the proofs
--   Pipeline             internal/pipeline/spec.go and parse.go: Int with the decimal integers, Spec with
--                        String, Validate, ParseSpec; RoundTrip has the proofs
--   Restore              internal/restore/restore.go: Runner with Run; Matched has the proofs
--   Verify               internal/verify: Types, Format (format.go), Values and Assert (assert.go),
--                        Verifier with the three levels (verify.go, restore.go), Recording with Backup,
--                        record, CollectGarbage; Window, Outcomes, Structural and Records have the
--                        proofs
--   Notify               internal/notify/notify.go: Fanout with Notify and suppress; Window and Delivery
--                        have the proofs
--   Tests                runs at concrete inputs, and an instance of each result that has hypotheses
--
-- A Go method is a function with the state as its last argument. It returns the new state beside its
-- result, and an error is a value. The lock and the index are written over any store: the client has the
-- port's contract `IsStore` as a parameter, and the in-memory store is an instance of it.
--
-- Parameters stand for code that is not in the repository or that only draws a value: `sort.Slice`,
-- which is not stable (`Sorts` says what is used of it), the calendar of a time zone (`civil`), the hash
-- of an object, JSON (`Codec`, `encode` and `decode`), the clock, random ids, the cron library, the
-- addresses and patterns that libraries parse (`Libraries`), decryption and decompression (`open_body`),
-- the dump and upload of one object (`stream`), and the servers that restores go to (`Provisioner`). What
-- other processes do to the bucket between two calls of an update is the parameter `Others`, any function
-- of the state; for `Release` it is the argument `between`.
--
-- Bounds. The loops of `Acquire` (3 attempts), of the updates of the index (5 attempts) and of `reserve`
-- (60 seconds) are recursion on the number of rounds that the code allows. `trim` has no bound in the
-- code: it takes fuel, and the number of ids in the order is enough fuel when not too many runs are in
-- flight. Decimal numbers take one round per digit, and the number itself is enough. The conversion of an
-- integer below 2^64 to a `float64` halves it at most 11 times, and takes 12 rounds. The other loops are
-- recursion on lists.
--
-- Times and durations are natural numbers of nanoseconds and the zero time is 0. The sum of sizes wraps
-- as a 64-bit integer does.
--
-- Not modelled: the run of the pipeline over its pipe, the interpolation of the configuration, the
-- templates and webhooks of notifications; the texts of errors and diagnostics; the database engines,
-- which run external programs; the S3 client, for which the contract of the port stands; the HTTP
-- handlers, the command line, metrics and logs.
pub mod Base
pub mod Retention
pub mod Store
pub mod Lock
pub mod Manifest
pub mod Index
pub mod Prune
pub mod Server
pub mod Scheduler
pub mod Config
pub mod Backup
pub mod Pipeline
pub mod Restore
pub mod Verify
pub mod Notify
pub mod Tests
