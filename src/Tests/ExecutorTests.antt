-- ===== src/Tests/ExecutorTests.antt =====
-- A run of internal/scheduler/exec.go, and an instance of the theorem about it, on the in-memory store.
use vaultd.Base.{true, false, ◌≡◌, ◌⊎◌, refl}
use vaultd.Store.Memory.{Memory, find, get, put, head, list, put_if_absent}
use vaultd.Index.Cache.{load, all_entries}
use vaultd.Index.Contents.{quiet}
use vaultd.Lock.Locker.{acquire, release}
use vaultd.Prune.Runner.{Runner}
use vaultd.Backup.Runner.{reserve_from, exists}
use vaultd.Backup.Runner.{run as run_backup}
use vaultd.Scheduler.Job.{last_run}
use vaultd.Scheduler.Executor.{Services, run_declared, ran}
use vaultd.Scheduler.UnderLock.{has_worked, IsWorked, IsDueAfter, IsIdle, run-IsDueUnderLock}
use vaultd.Tests.StoreTests.{bucket}
use vaultd.Tests.RetentionTests.{sort, civil, policy}
use vaultd.Tests.LockTests.{locker, at_time}
use vaultd.Tests.IndexTests.{index}
use vaultd.Tests.BackupTests.{runner, spec, clock, bare}
use vaultd.Tests.VerifyTests.{verifier}
use vaultd.Tests.SchedulerTests.{nightly}

abbrev pruner : Runner Memory
pruner = record {
  index = index;
  policy = policy;
  sort = sort;
  civil = civil;
  sort_entries = λ es. es;
}

abbrev services : Services Memory
services = record {
  locker = locker;
  envs = at_time 50;
  beats = λ h s. (h, s);
  between = λ s. s;
  index = index;
  sort_entries = λ es. es;
  runner = runner;
  spec = spec;
  clock = clock;
  pruner = pruner;
  others = quiet;
  verifier = λ level. verifier "17.9" bucket;
  now = 500;
}

run-IsDueUnderLock_example :
    IsWorked false services nightly
      (acquire locker (at_time 50) "db" "backup" bare)
      (run_declared false services nightly bare)
    ⊎ ((¬ IsDueAfter false services nightly (acquire locker (at_time 50) "db" "backup" bare))
        × IsIdle false services
            (acquire locker (at_time 50) "db" "backup" bare)
            (run_declared false services nightly bare))
run-IsDueUnderLock_example = run-IsDueUnderLock false services nightly bare refl

-- That dispatch does the work.
worked_test : has_worked (run_declared false services nightly bare).0 ≡ true
unfolding run_declared acquire all_entries load last_run run_backup reserve_from exists find get put
    head list put_if_absent release vaultd.Scheduler.Executor.checked
    vaultd.Scheduler.Executor.do_backup
worked_test = refl
