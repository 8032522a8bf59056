-- ===== src/Server/Runs.antt =====
-- internal/server/runs.go: the registry of the runs that the UI started. A run that is reached through
-- a pointer in Go is a value here, read from the map again. The id that `newRunID` draws and the times
-- are arguments.
use vaultd.Base.{
  ℕ, zero, suc, String, Bool, true, false, Option, none, some, List, [], ◌∷◌, ◌++◌, if◌then◌else◌,
  ltb, length, assign,
}

abbrev pub run_history : ℕ
run_history = 50

-- `RunState`.
pub data RunState : Type 0 where
  running : RunState
  succeeded : RunState
  failed : RunState
  skipped : RunState

abbrev pub in_flight : RunState → Bool
in_flight running = true
in_flight succeeded = false
in_flight failed = false
in_flight skipped = false

-- `LogLine`, without its free-form fields.
pub record LogLine : Type 0 where
  pub at : ℕ
  pub level : String
  pub message : String

-- `Run`. The zero time is the number 0.
pub record Run : Type 0 where
  pub id : String
  pub target : String
  pub kind : String
  pub state : RunState
  pub started_at : ℕ
  pub finished_at : ℕ
  pub detail : String
  pub error : String
  pub backup_id : String
  pub log : List LogLine

-- `runs`.
pub record Runs : Type 0 where
  pub by_id : String → Option Run
  pub order : List String
  pub active : String → Option String

-- `newRuns`.
abbrev pub new_runs : Runs
new_runs = record { by_id = λ id. none; order = []; active = λ target. none }

abbrev run_in_flight : Option Run → Bool
run_in_flight none = false
run_in_flight (some run) = in_flight run.state

-- Whether the run of an id is in flight.
abbrev pub is_running : (String → Option Run) → String → Bool
is_running by_id id = run_in_flight (by_id id)

-- `trim`, with at most `fuel` rounds of its loop: nothing, if it has not returned by then.
unfoldable pub trim_from :
    ℕ → (String → Option Run) → List String → Option ((String → Option Run) × List String)
trim_from zero by_id order = if ltb run_history (length order) then none else some (by_id, order)
trim_from (suc fuel) by_id [] = some (by_id, [])
trim_from (suc fuel) by_id (oldest ∷ order) =
    let rotated = trim_from fuel by_id (order ++ oldest ∷ []) in
    let dropped = trim_from fuel (assign by_id oldest none) order in
    if ltb run_history (length (oldest ∷ order))
    then (if is_running by_id oldest then rotated else dropped)
    else some (by_id, oldest ∷ order)

abbrev pub with_trimmed : (String → Option String) → (String → Option Run) × List String → Runs
with_trimmed active (by_id, order) = record { by_id = by_id; order = order; active = active }

abbrev pub started : String → String → String → ℕ → Run
started target kind id now = record {
  id = id;
  target = target;
  kind = kind;
  state = running;
  started_at = now;
  finished_at = 0;
  detail = "";
  error = "";
  backup_id = "";
  log = [];
}

abbrev began :
    Run
    → (String → Option String)
    → Option ((String → Option Run) × List String)
    → Option (Option Run × Bool × Runs)
began run active none = none
began run active (some trimmed) = some (some run, true, with_trimmed active trimmed)

abbrev begin_if :
    Option String → Option (Option Run × Bool × Runs) → Runs → Option (Option Run × Bool × Runs)
begin_if (some id) fresh r = some (r.by_id id, false, r)
begin_if none fresh r = fresh

-- `begin`, with the rounds that its `trim` may take: nothing, if it has not returned by then.
unfoldable pub begin : ℕ → String → String → String → ℕ → Runs → Option (Option Run × Bool × Runs)
unfolding trim_from
begin fuel target kind id now r =
    let run = started target kind id now in
    begin_if (r.active target)
      (began run (assign r.active target (some id))
        (trim_from fuel (assign r.by_id id (some run)) (r.order ++ id ∷ [])))
      r

abbrev pub finished : RunState → String → String → Option String → ℕ → Run → Run
finished state detail backup_id none now run = record run {
  state = state;
  finished_at = now;
  detail = detail;
  backup_id = backup_id;
}
finished state detail backup_id (some error) now run = record run {
  state = state;
  finished_at = now;
  detail = detail;
  backup_id = backup_id;
  error = error;
}

abbrev pub finish_run :
    String → RunState → String → String → Option String → ℕ → Option Run → Runs → Runs
finish_run id state detail backup_id error now none r = r
finish_run id state detail backup_id error now (some run) r = record {
  by_id = assign r.by_id id (some (finished state detail backup_id error now run));
  order = r.order;
  active = assign r.active run.target none;
}

-- `finish`.
unfoldable pub finish : String → RunState → String → String → Option String → ℕ → Runs → Runs
finish id state detail backup_id error now r =
    finish_run id state detail backup_id error now (r.by_id id) r

abbrev pub log_to : String → LogLine → Option Run → Runs → Runs
log_to id line none r = r
log_to id line (some run) r = record r {
  by_id = assign r.by_id id (some (record run { log = run.log ++ line ∷ [] }));
}

-- `append`.
unfoldable pub append : String → LogLine → Runs → Runs
append id line r = log_to id line (r.by_id id) r

-- `get`.
abbrev pub get : String → Runs → Option Run
get id r = r.by_id id
