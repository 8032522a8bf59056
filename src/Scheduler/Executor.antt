-- ===== src/Scheduler/Executor.antt =====
-- internal/scheduler/exec.go: `Executor.Run` with its two kinds of work. What internal/app builds for a target is `Services`; an error of the building is left out,
-- and so are the metrics.
use vaultd.Base.{
  ℕ, String, Bool, true, false, not, ◌||◌, Option, none, some, List, [], if◌then◌else◌, is_nil,
  is_some, ◌=s=◌, Text,
}
use vaultd.Manifest.Entry.{Entry}
use vaultd.Lock.Types.{Owner, Env, Locker, Held, locked, store, unreadable, taken, kept_changing}
use vaultd.Lock.Locker.{acquire, release}
use vaultd.Lock.Locker.{Outcome as LockOutcome, done as acquired, fails as not_acquired}
use vaultd.Index.Cache.{Outcome, done, fails, IndexStore, all_entries}
use vaultd.Index.Update.{Others}
use vaultd.Backup.Types.{Spec, Clock}
use vaultd.Backup.Types.{Runner as BackupRunner}
use vaultd.Backup.Runner.{Ran, stored, broken}
use vaultd.Backup.Runner.{run as run_backup}
use vaultd.Retention.Types.{Plan}
use vaultd.Prune.Runner.{Runner, runner_plan, apply}
use vaultd.Verify.Types.{Level, integrity, structural, restore, Verified, ended, stopped}
use vaultd.Verify.Verifier.{Verifier}
use vaultd.Verify.Recording.{verify_backup}
use vaultd.Scheduler.Job.{Kind, backup, verify, Job, job_due, last_run, latest_backup}

-- What a dispatch did: `Outcome`, with the backup, the holder of the lock or the last run; `ran_broken` is
-- `OutcomeRan` beside the error of a verification that found a broken backup, and `errored` is a `Result`
-- with an error and no `Outcome`.
pub data Dispatched : Type 0 where
  ran : String → Dispatched
  ran_broken : String → Dispatched
  locked_out : Owner → Dispatched
  not_due : ℕ → Dispatched
  nothing : Dispatched
  errored : Dispatched

-- What a run reads and calls. `beats` is what the heartbeat does to the lock while the work runs, and
-- `between` what others do while it is released.
pub record Services (S : Type 0) : Type 0 where
  pub locker : Locker S Text
  pub envs : ℕ → Env
  pub beats : Held → S → Held × S
  pub between : S → S
  pub index : IndexStore S
  pub sort_entries : List Entry → List Entry
  pub runner : BackupRunner S
  pub spec : Spec
  pub clock : Clock
  pub pruner : Runner S
  pub others : Others S
  pub verifier : Level → Verifier S
  pub now : ℕ

abbrev pub kind_text : Kind → String
kind_text backup = "backup"
kind_text verify = "verify"

-- The level of a job: an empty one is the integrity check, and a name that is none is refused.
abbrev level_of : String → Option Level
level_of level =
    if (level =s= "") || (level =s= "integrity")
    then some integrity
    else if level =s= "structural"
    then some structural
    else if level =s= "restore"
    then some restore
    else none

module _ {S : Type 0} (prunes : Bool) (x : Services S) where
  -- `Executor.prune`, behind the plan. Its errors are only logged.
  abbrev apply_plan : Outcome (Plan × Bool) → S → S
  apply_plan (fails e) s = s
  apply_plan (done (p, cached)) s =
      if not (is_nil p.blocked) || is_nil p.delete then s else (apply x.pruner x.others p [] s).2

  -- `Executor.prune`.
  unfoldable pub prune : S → S
  prune s = apply_plan (runner_plan x.pruner x.now s) s

  abbrev pub after_backup : Ran × S → Dispatched × S
  after_backup (broken f at, t) = (errored, t)
  after_backup (stored m, t) = (ran m.id, if prunes then prune t else t)

  -- `Executor.backup`.
  unfoldable pub do_backup : S → Dispatched × S
  do_backup s = after_backup (run_backup x.runner x.spec x.clock s)

  abbrev of_verified : Entry → (Verified × Bool) × S → Dispatched × S
  of_verified e ((stopped text, recorded), t) = (errored, t)
  of_verified e ((ended r, false), t) = (errored, t)
  of_verified e ((ended r, true), t) =
      (if r.skipped then nothing else if r.ok then ran e.id else ran_broken e.id, t)

  abbrev verify_entry : Option Level → Entry → S → Dispatched × S
  verify_entry none e s = (errored, s)
  verify_entry (some level) e s =
      of_verified e (verify_backup (x.verifier level) e level x.now x.now s)

  abbrev verify_latest : String → Outcome (Option Entry) → S → Dispatched × S
  verify_latest level (fails e) s = (errored, s)
  verify_latest level (done none) s = (nothing, s)
  verify_latest level (done (some e)) s = verify_entry (level_of level) e s

  -- `Executor.verify`.
  unfoldable pub do_verify : String → S → Dispatched × S
  do_verify level s =
      verify_latest level (latest_backup x.sort_entries (all_entries x.index x.sort_entries s)) s

  -- The `switch` of `Run`.
  abbrev pub work : Job → S → Dispatched × S
  work j s = elim j.kind [ backup ↦ do_backup s | verify ↦ do_verify j.level s ]

  abbrev pub if_due : Job → Outcome ℕ → S → Dispatched × S
  if_due j (fails e) s = (errored, s)
  if_due j (done last) s = if job_due j last x.now then work j s else (not_due last, s)

  -- The due check under the lock, which a manual job does without.
  unfoldable pub checked : Job → S → Dispatched × S
  checked j s =
      if is_some j.schedule
      then if_due j (last_run j.kind (all_entries x.index x.sort_entries s)) s
      else work j s

  -- The deferred release.
  abbrev let_go : Dispatched → Held × S → Dispatched × S
  let_go d (h, t) = (d, (release x.locker x.between h t).2)

  abbrev pub released : Held → Dispatched × S → Dispatched × S
  released h (d, t) = let_go d (x.beats h t)

  abbrev pub with_lock : Job → LockOutcome Held × S → Dispatched × S
  with_lock j (not_acquired (locked o), t) = (locked_out o, t)
  with_lock j (not_acquired (store e), t) = (errored, t)
  with_lock j (not_acquired unreadable, t) = (errored, t)
  with_lock j (not_acquired taken, t) = (errored, t)
  with_lock j (not_acquired (kept_changing e), t) = (errored, t)
  with_lock j (acquired h, t) = released h (checked j t)

  -- `Run`, of a declared target.
  unfoldable pub run_declared : Job → S → Dispatched × S
  run_declared j s = with_lock j (acquire x.locker x.envs j.target (kind_text j.kind) s)

-- `Run`.
abbrev pub run : {S : Type 0} → Bool → (String → Option (Services S)) → Job → S → Dispatched × S
run prunes target j s = elim (target j.target) [
  | none ↦ (errored, s)
  | some x ↦ run_declared prunes x j s
]
