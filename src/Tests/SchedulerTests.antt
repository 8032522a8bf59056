-- ===== src/Tests/SchedulerTests.antt =====
-- Instances of the theorems about internal/scheduler: one target that is backed up every ten ticks.
use vaultd.Base.{
  ℕ, ◌+◌, String, Bool, true, false, Option, none, some, List, [], ◌∷◌, ◌≡◌, refl, inl, arith,
  ◌=s=◌, if◌then◌else◌,
}
use vaultd.Manifest.Entry.{Entry}
use vaultd.Index.Cache.{Outcome, done}
use vaultd.Scheduler.Job.{Job, Target, built, jobs, backup_job, job_key, last_run}
use vaultd.Scheduler.Dispatch.{Worker, Scheduler, due, tick, start_workers, refresh}
use vaultd.Scheduler.Claims.{tick-claims}
use vaultd.Tests.PruneTests.{attempts}

abbrev every_ten : ℕ → ℕ
every_ten t = t + 10

abbrev pub target : Target
target = record { name = "db"; schedule = "@ten"; verify = none; on_overlap = "" }

abbrev pub nightly : Job
nightly = backup_job target every_ten

jobs_test : jobs (λ e. some every_ten) (target ∷ []) ≡ built (nightly ∷ [])
unfolding jobs
jobs_test = refl

abbrev idle : Worker
idle = record { overlap = ""; busy = false; queue = [] }

abbrev fresh : Scheduler
fresh = record {
  last = λ key. none;
  ready = true;
  workers = λ t. if t =s= "db" then some idle else none;
  missed = [];
}

workers_test : start_workers (λ t. some target) (nightly ∷ []) (λ t. none) "db" ≡ some idle
unfolding start_workers
workers_test = refl

due_test : due fresh nightly 500 ≡ true
due_test = refl

tick-claims_example : due (tick (nightly ∷ []) 500 fresh) nightly 500 ≡ false
tick-claims_example =
    tick-claims nightly every_ten 500 refl (omega arith) (omega arith) (nightly ∷ []) fresh idle
      (inl refl) refl

abbrev read : String → Option (Outcome (List Entry × Bool))
read t = some (done (attempts, true))

refresh_test : (refresh read (nightly ∷ []) fresh).1.last (job_key nightly) ≡ some 330
unfolding refresh last_run
refresh_test = refl
