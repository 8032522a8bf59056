-- ===== src/Scheduler/Job.antt =====
-- internal/scheduler/job.go, and the parts of internal/scheduler/exec.go that read the index. The cron
-- library is a parameter: a parsed schedule is the function `Next`, and a parser is a function from
-- texts to schedules. The zero time is the number 0.
use vaultd.Base.{
  ℕ, String, Bool, true, not, Option, none, some, List, [], ◌∷◌, ◌++◌, if◌then◌else◌, ltb, ◌==◌,
  ◌=s=◌, Text, codes, filter,
}
use vaultd.Manifest.Entry.{Entry, is_success}
use vaultd.Index.Cache.{Outcome, done, fails}

-- `Kind`.
pub data Kind : Type 0 where
  backup : Kind
  verify : Kind

abbrev kind_name : Kind → Text
kind_name backup = codes "backup"
kind_name verify = codes "verify"

-- `Job`.
pub record Job : Type 0 where
  pub target : String
  pub kind : Kind
  pub spec : String
  pub schedule : Option (ℕ → ℕ)
  pub level : String
  pub tier : String

-- `Job.Key`.
abbrev pub job_key : Job → Text
job_key j = codes j.target ++ 47 ∷ kind_name j.kind

abbrev pub due_at : Option (ℕ → ℕ) → ℕ → ℕ → Bool
due_at none last now = true
due_at (some next) last now = if last == 0 then true else not (ltb now (next last))

-- `Job.Due`.
abbrev pub job_due : Job → ℕ → ℕ → Bool
job_due j last now = due_at j.schedule last now

abbrev next_at : Option (ℕ → ℕ) → ℕ → ℕ
next_at none t = 0
next_at (some next) t = next t

-- `Job.Next`.
abbrev pub job_next : Job → ℕ → ℕ
job_next j t = next_at j.schedule t

-- The verification that a target declares.
pub record VerifyConfig : Type 0 where
  pub schedule : String
  pub level : String

-- What `Jobs` and `start` read of a target.
pub record Target : Type 0 where
  pub name : String
  pub schedule : String
  pub verify : Option VerifyConfig
  pub on_overlap : String

-- The result of `Jobs`: an error names the target and its expression.
pub data Built : Type 0 where
  built : List Job → Built
  bad_schedule : String → String → Built
  bad_verify_schedule : String → String → Built

abbrev with_jobs : List Job → Built → Built
with_jobs js (built ks) = built (js ++ ks)
with_jobs js (bad_schedule t e) = bad_schedule t e
with_jobs js (bad_verify_schedule t e) = bad_verify_schedule t e

abbrev pub backup_job : Target → (ℕ → ℕ) → Job
backup_job t next = record {
  target = t.name;
  kind = backup;
  spec = t.schedule;
  schedule = some next;
  level = "";
  tier = "";
}

abbrev verify_job : Target → VerifyConfig → (ℕ → ℕ) → Job
verify_job t v next = record {
  target = t.name;
  kind = verify;
  spec = v.schedule;
  schedule = some next;
  level = v.level;
  tier = "";
}

module _ (parse : String → Option (ℕ → ℕ)) where
  -- The backup job of a target, in front of what follows.
  abbrev backup_jobs : Target → Built
  backup_jobs t = if t.schedule =s= "" then built [] else elim (parse t.schedule) [
    | none ↦ bad_schedule t.name t.schedule
    | some next ↦ built (backup_job t next ∷ [])
  ]

  abbrev verify_jobs_of : Target → Option VerifyConfig → Built
  verify_jobs_of t none = built []
  verify_jobs_of t (some v) = if v.schedule =s= "" then built [] else elim (parse v.schedule) [
    | none ↦ bad_verify_schedule t.name v.schedule
    | some next ↦ built (verify_job t v next ∷ [])
  ]

  abbrev and_then : Built → Built → Built
  and_then (built js) rest = with_jobs js rest
  and_then (bad_schedule t e) rest = bad_schedule t e
  and_then (bad_verify_schedule t e) rest = bad_verify_schedule t e

  -- `Jobs`.
  unfoldable pub jobs : List Target → Built
  jobs [] = built []
  jobs (t ∷ ts) = and_then (backup_jobs t) (and_then (verify_jobs_of t t.verify) (jobs ts))

-- `Manual`.
abbrev manual : String → Kind → Job
manual target kind = record {
  target = target;
  kind = kind;
  spec = "manual";
  schedule = none;
  level = "";
  tier = "";
}

-- The body of the loop of `lastRun`.
abbrev pub later_of : ℕ → Option ℕ → ℕ
later_of last none = last
later_of last (some at) = if ltb last at then at else last

abbrev pub run_time : Kind → Entry → Option ℕ
run_time backup e = some e.finished_at
run_time verify e = e.verified_at

unfoldable pub last_from : Kind → ℕ → List Entry → ℕ
last_from kind last [] = last
last_from kind last (e ∷ es) = last_from kind (later_of last (run_time kind e)) es

-- `lastRun`, of what `Entries` returns.
unfoldable pub last_run : Kind → Outcome (List Entry × Bool) → Outcome ℕ
unfolding last_from
last_run kind (fails e) = fails e
last_run kind (done (es, cached)) = done (last_from kind 0 es)

abbrev first_of : List Entry → Option Entry
first_of [] = none
first_of (e ∷ es) = some e

-- `latestBackup`, of what `Entries` returns, with `sort.Slice` as a parameter.
unfoldable pub latest_backup :
    (List Entry → List Entry) → Outcome (List Entry × Bool) → Outcome (Option Entry)
latest_backup sort (fails e) = fails e
latest_backup sort (done (es, cached)) = done (first_of (sort (filter is_success es)))
