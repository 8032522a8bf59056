-- ===== src/Scheduler/Dispatch.antt =====
-- internal/scheduler/scheduler.go: what is due, the claim of a slot, the overlap policy, and the
-- refresh from the index. A call is one step of the state; metrics, logs and notifications are left
-- out, but the runs that the overlap policy did not start are listed.
use vaultd.Base.{
  ℕ, String, Bool, true, false, not, ◌&&◌, ◌||◌, Option, none, some, List, [], ◌∷◌, ◌++◌,
  if◌then◌else◌, ltb, ◌==◌, ◌=s=◌, is_nil, Text, codes_eq, filter,
}
use vaultd.Manifest.Entry.{Entry}
use vaultd.Index.Cache.{Outcome, IndexError, done, fails}
use vaultd.Scheduler.Job.{Job, Target, job_key, job_due, job_next, last_run}

-- `worker`: the channel has room for one job.
pub record Worker : Type 0 where
  pub overlap : String
  pub busy : Bool
  pub queue : List Job

-- `Scheduler`: the maps `last` and `workers`, and the runs reported by `missed`, the newest first.
pub record Scheduler : Type 0 where
  pub last : Text → Option ℕ
  pub ready : Bool
  pub workers : String → Option Worker
  pub missed : List Job

abbrev pub or_zero : Option ℕ → ℕ
or_zero none = 0
or_zero (some t) = t

-- `due`.
abbrev pub due : Scheduler → Job → ℕ → Bool
due s j now = job_due j (or_zero (s.last (job_key j))) now

-- `Due`, once the refresh has succeeded.
abbrev all_due : Scheduler → List Job → ℕ → List Job
all_due s js now = filter (λ j. due s j now) js

-- `Next`.
abbrev next_run : Scheduler → Job → ℕ → ℕ
next_run s j now =
    let last = or_zero (s.last (job_key j)) in job_next j (if last == 0 then now else last)

abbrev pub set_last : (Text → Option ℕ) → Text → ℕ → Text → Option ℕ
set_last last key at k = if codes_eq k key then some at else last k

-- `record`.
abbrev pub record_run : Job → ℕ → Scheduler → Scheduler
record_run j now s = record s { last = set_last s.last (job_key j) now }

-- `missed`.
abbrev miss : Job → Scheduler → Scheduler
miss j s = record s { missed = j ∷ s.missed }

abbrev pub enqueue : Worker → Job → Worker
enqueue w j = record w { queue = w.queue ++ j ∷ [] }

abbrev pub set_worker : (String → Option Worker) → String → Worker → String → Option Worker
set_worker ws target w t = if t =s= target then some w else ws t

-- The end of `dispatch`: the overlap policy, then the channel.
abbrev pub hand_over : Worker → Job → Scheduler → Scheduler
hand_over w j s =
    if not (w.overlap =s= "queue") && (w.busy || not (is_nil w.queue))
    then miss j s
    else if is_nil w.queue
    then record s { workers = set_worker s.workers j.target (enqueue w j) }
    else miss j s

abbrev pub dispatch_to : Option Worker → Job → ℕ → Scheduler → Scheduler
dispatch_to none j now s = s
dispatch_to (some w) j now s = hand_over w j (record_run j now s)

-- `dispatch`.
unfoldable pub dispatch : Job → ℕ → Scheduler → Scheduler
dispatch j now s = dispatch_to (s.workers j.target) j now s

-- `tick`, with one reading of the clock.
unfoldable pub tick : List Job → ℕ → Scheduler → Scheduler
unfolding dispatch
tick [] now s = s
tick (j ∷ js) now s = tick js now (if due s j now then dispatch j now s else s)

abbrev overlap_of : Option Target → String
overlap_of none = ""
overlap_of (some t) = t.on_overlap

-- The loop of `start`, with the targets that the configuration declares.
unfoldable pub start_workers :
    (String → Option Target) → List Job → (String → Option Worker) → String → Option Worker
start_workers declared [] ws = ws
start_workers declared (j ∷ js) ws = start_workers declared js (elim (ws j.target) [
  | some w ↦ ws
  | none ↦
      set_worker ws j.target
        (record { overlap = overlap_of (declared j.target); busy = false; queue = [] })
])

abbrev read_last : Job → Option (Outcome (List Entry × Bool)) → Option (Outcome ℕ)
read_last j none = none
read_last j (some o) = some (last_run j.kind o)

-- The first loop of `refresh`: the times that the index records. `read` answers `Entries` of the index
-- of a declared target.
unfoldable pub read_all :
    (String → Option (Outcome (List Entry × Bool)))
    → List Job
    → (Text → Option ℕ)
    → Outcome (Text → Option ℕ)
read_all read [] last = done last
read_all read (j ∷ js) last = elim (read_last j (read j.target)) [
  | none ↦ read_all read js last
  | some o ↦ elim o [
    | fails e ↦ fails e
    | done at ↦ read_all read js (set_last last (job_key j) at)
  ]
]

-- The second loop, for one key.
abbrev pub newer : Option ℕ → Option ℕ → Option ℕ
newer current none = current
newer none (some at) = some at
newer (some current) (some at) = if ltb current at then some at else some current

abbrev pub merged : Outcome (Text → Option ℕ) → Scheduler → Option IndexError × Scheduler
merged (fails e) s = (some e, s)
merged (done last) s =
    (none, record s { last = λ key. newer (s.last key) (last key); ready = true })

-- `refresh`: the error, if any.
unfoldable pub refresh :
    (String → Option (Outcome (List Entry × Bool)))
    → List Job
    → Scheduler
    → Option IndexError × Scheduler
unfolding read_all
refresh read js s = merged (read_all read js (λ key. none)) s
