-- ===== src/Scheduler/UnderLock.antt =====
-- About internal/scheduler/exec.go: when a dispatched job works, and what retention may do to its result.
use vaultd.Base.{ℕ, Bool, true, false, is_some, ◌≡◌, ◌≢◌, ◌⊎◌, refl, ap, ◌∙◌, Bool-cases, inl, inr}
use vaultd.Lock.Types.{Held, locked, store, unreadable, taken, kept_changing}
use vaultd.Lock.Locker.{acquire, release}
use vaultd.Lock.Locker.{Outcome as LockOutcome, done as acquired, fails as not_acquired}
use vaultd.Index.Cache.{Outcome, done, fails, all_entries}
use vaultd.Backup.Runner.{Ran, stored, broken}
use vaultd.Backup.Runner.{run as run_backup}
use vaultd.Scheduler.Job.{Job, job_due, last_run}
use vaultd.Scheduler.Executor.{
  Dispatched, ran, ran_broken, locked_out, not_due, nothing, errored, Services, kind_text,
  after_backup, do_backup, work, if_due, checked, released, with_lock, run_declared,
}

module _ {S : Type 0} (x : Services S) where
  after_backup-prune : (r : Ran × S) → (after_backup true x r).0 ≡ (after_backup false x r).0
  after_backup-prune (broken f at, t) = refl
  after_backup-prune (stored m, t) = refl

  -- Retention after a backup never changes what the backup reports: whether it is applied or not, and
  -- whatever its plan and its deletions come to, the outcome is the same.
  do_backup-prune : (s : S) → (do_backup true x s).0 ≡ (do_backup false x s).0
  unfolding do_backup
  do_backup-prune s = after_backup-prune (run_backup x.runner x.spec x.clock s)

-- Whether the outcome is one that only the work of a job reports.
abbrev pub has_worked : Dispatched → Bool
has_worked (ran id) = true
has_worked (ran_broken id) = true
has_worked (locked_out o) = false
has_worked (not_due last) = false
has_worked nothing = true
has_worked errored = false

module _ {S : Type 0} (prunes : Bool) (x : Services S) where
  -- The lock was acquired, and the index, read under it, says that the job is due.
  abbrev pub IsDueAfter : Job → LockOutcome Held × S → Type 0
  IsDueAfter j a =
      (h : Held) × (last : ℕ) × (a.0 ≡ acquired h)
      × (last_run j.kind (all_entries x.index x.sort_entries a.1) ≡ done last)
      × (job_due j last x.now ≡ true)

  -- The dispatch did the work, behind a lock and a check that say so, and released the lock.
  abbrev pub IsWorked : Job → LockOutcome Held × S → Dispatched × S → Type 0
  IsWorked j a r =
      (h : Held) × (last : ℕ) × (a.0 ≡ acquired h)
      × (last_run j.kind (all_entries x.index x.sort_entries a.1) ≡ done last)
      × (job_due j last x.now ≡ true)
      × (r ≡ released prunes x h (work prunes x j a.1))

  -- What taking and releasing the lock leaves, with no work between them.
  abbrev pub only_locked : LockOutcome Held × S → S
  only_locked (not_acquired e, t) = t
  only_locked (acquired h, t) = (release x.locker x.between (x.beats h t).0 (x.beats h t).1).2

  -- Nothing of the job was done, and nothing that only its work reports is reported.
  abbrev pub IsIdle : LockOutcome Held × S → Dispatched × S → Type 0
  IsIdle a r = (has_worked r.0 ≡ false) × (r.1 ≡ only_locked a)

  -- The due check, over the last run that it read.
  if_due-cases :
      (j : Job) (q : Outcome ℕ) (t : S)
      → ((last : ℕ) × (q ≡ done last)
          × (job_due j last x.now ≡ true)
          × (if_due prunes x j q t ≡ work prunes x j t))
        ⊎ (((last : ℕ) → q ≡ done last → job_due j last x.now ≢ true)
            × (has_worked (if_due prunes x j q t).0 ≡ false)
            × ((if_due prunes x j q t).1 ≡ t))
  if_due-cases j (fails e) t = inr (λ last q. absurd (cc q), refl, refl)
  if_due-cases j (done last) t = elim (Bool-cases (job_due j last x.now)) [
    | inl d ↦ inl (last, refl, d, rw d refl)
    | inr d ↦ inr (λ l q w. cc (q, w, d), rw d refl, rw d refl)
  ]

  checked-last_run :
      (j : Job) (t : S)
      → is_some j.schedule ≡ true
      → checked prunes x j t
        ≡ if_due prunes x j (last_run j.kind (all_entries x.index x.sort_entries t)) t
  unfolding checked
  checked-last_run j t k = rw k refl

  released-state :
      (h : Held) (r : Dispatched × S) → (released prunes x h r).1 ≡ only_locked (acquired h, r.1)
  released-state h (d, u) = refl

  released-verdict : (h : Held) (r : Dispatched × S) → (released prunes x h r).0 ≡ r.0
  released-verdict h (d, u) = refl

  with_lock-cases :
      (j : Job) (a : LockOutcome Held × S)
      → is_some j.schedule ≡ true
      → IsWorked j a (with_lock prunes x j a)
        ⊎ ((¬ IsDueAfter j a) × IsIdle a (with_lock prunes x j a))
  with_lock-cases j (not_acquired (locked o), t) k = inr (λ d. cc d.2, (refl, refl))
  with_lock-cases j (not_acquired (store e), t) k = inr (λ d. cc d.2, (refl, refl))
  with_lock-cases j (not_acquired unreadable, t) k = inr (λ d. cc d.2, (refl, refl))
  with_lock-cases j (not_acquired taken, t) k = inr (λ d. cc d.2, (refl, refl))
  with_lock-cases j (not_acquired (kept_changing e), t) k = inr (λ d. cc d.2, (refl, refl))
  with_lock-cases j (acquired h, t) k =
      let c = checked prunes x j t in
      let same = checked-last_run j t k in
      elim (if_due-cases j (last_run j.kind (all_entries x.index x.sort_entries t)) t) [
        | inl (last, q, d, w) ↦ inl (h, last, refl, q, d, ap (released prunes x h) (same ∙ w))
        | inr (n, w, u) ↦ inr (
          λ d. n d.1 d.3 d.4,
          (
            ap has_worked (released-verdict h c ∙ ap (λ (r : Dispatched × S). r.0) same) ∙ w,
            released-state h c
                ∙ ap (λ y. only_locked (acquired h, y)) (ap (λ (r : Dispatched × S). r.1) same ∙ u),
          ),
        )
      ]

  -- A dispatch of a scheduled job does the work of the job exactly when it acquires the lock of the target
  -- and the index, read while the lock is held, says that the job is due: then its result is that of the
  -- work, behind the release of the lock. Otherwise it reports no work, and it leaves what taking and
  -- releasing the lock leaves.
  pub run-IsDueUnderLock :
      (j : Job) (s : S)
      → is_some j.schedule ≡ true
      → IsWorked j
          (acquire x.locker x.envs j.target (kind_text j.kind) s)
          (run_declared prunes x j s)
        ⊎ ((¬ IsDueAfter j (acquire x.locker x.envs j.target (kind_text j.kind) s))
            × IsIdle
                (acquire x.locker x.envs j.target (kind_text j.kind) s)
                (run_declared prunes x j s))
  unfolding run_declared
  run-IsDueUnderLock j s k =
      with_lock-cases j (acquire x.locker x.envs j.target (kind_text j.kind) s) k
