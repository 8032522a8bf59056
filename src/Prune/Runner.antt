-- ===== src/Prune/Runner.antt =====
-- internal/prune/prune.go: `Runner.Plan`, `Runner.Apply` and the functions between index entries and
-- the retention. Notifications are left out; whether `AnnounceBlocked` sends one is a Boolean.
use vaultd.Base.{
  ℕ, String, Bool, false, not, ◌||◌, Option, none, some, List, [], ◌∷◌, ◌++◌, if◌then◌else◌, ltb,
  ◌==◌, is_nil, filter, map, length,
}
use vaultd.Store.Port.{Answer, ok, err}
use vaultd.Manifest.Entry.{Entry, is_success, is_verified, entry_keys}
use vaultd.Retention.Types.{Policy, Backup, Decision, Input, Plan, plan_keys, ids_of}
use vaultd.Retention.Periods.{Civil}
use vaultd.Retention.Planner.{plan}
use vaultd.Index.Cache.{IndexError, store, Outcome, done, fails, IndexStore, all_entries}
use vaultd.Index.Update.{Others, remove}

-- A backup as retention sees it.
abbrev backup_of : Entry → Backup
backup_of e = record {
  id = e.id;
  at = e.finished_at;
  verified = is_verified e;
  bytes = e.bytes;
  keys = entry_keys e;
}

-- `Backups`.
abbrev pub backups : List Entry → List Backup
backups es = map backup_of (filter is_success es)

-- The loop of `LastRunFailed`.
unfoldable pub latest_from : Entry → List Entry → Entry
latest_from latest [] = latest
latest_from latest (e ∷ es) =
    latest_from (if ltb latest.finished_at e.finished_at then e else latest) es

-- `LastRunFailed`.
unfoldable pub last_run_failed : List Entry → Bool
unfolding latest_from
last_run_failed [] = false
last_run_failed (e ∷ es) = not (is_success (latest_from e es))

-- `DeletedIDs`.
abbrev pub deleted_ids : Plan → List String
deleted_ids p = ids_of p.delete

-- The loop of `OldestKept`. The zero time is the number 0.
unfoldable pub oldest_from : ℕ → List Decision → ℕ
oldest_from oldest [] = oldest
oldest_from oldest (d ∷ ds) =
    oldest_from (if oldest == 0 || ltb d.backup.at oldest then d.backup.at else oldest) ds

-- `OldestKept`.
unfoldable pub oldest_kept : Plan → ℕ
unfolding oldest_from
oldest_kept p = oldest_from 0 p.keep

-- What the entries of the index come to as the input of the policy.
abbrev pub input_of : ℕ → List Entry → Input
input_of now es = record { backups = backups es; now = now; last_run_failed = last_run_failed es }

-- `Runner`. The functions are those of `Retention.Planner.plan`.
pub record Runner (S : Type 0) : Type 0 where
  pub index : IndexStore S
  pub policy : Policy
  pub sort : List Backup → List Backup
  pub civil : String → ℕ → Civil
  pub sort_entries : List Entry → List Entry

module _ {S : Type 0} (r : Runner S) where
  abbrev plan_of : ℕ → Outcome (List Entry × Bool) → Outcome (Plan × Bool)
  plan_of now (fails e) = fails e
  plan_of now (done (es, cached)) = done (plan r.sort r.civil r.policy (input_of now es), cached)

  -- `Plan`.
  unfoldable pub runner_plan : ℕ → S → Outcome (Plan × Bool)
  runner_plan now s = plan_of now (all_entries r.index r.sort_entries s)

  -- The end of `Apply`: the number of objects removed, and the error, if any.
  abbrev after_remove : ℕ → Outcome (Unit {0}) × S → ℕ × Option IndexError × S
  after_remove n (fails e, t) = (n, some e, t)
  after_remove n (done u, t) = (n, none, t)

  abbrev after_delete : Others S → Plan → ℕ → Answer (Unit {0}) × S → ℕ × Option IndexError × S
  after_delete o p n (err e, t) = (0, some (store e), t)
  after_delete o p n (ok u, t) = after_remove n (remove r.index o (deleted_ids p) (oldest_kept p) t)

  -- `Apply`.
  unfoldable pub apply : Others S → Plan → List String → S → ℕ × Option IndexError × S
  apply o p extra s =
      let keys = plan_keys p ++ extra in
      if is_nil keys
      then (0, none, s)
      else after_delete o p (length keys) (r.index.store.delete keys s)

-- Whether `AnnounceBlocked` sends `retention.blocked`.
abbrev announces : Plan → Bool
announces p = not (is_nil p.blocked)
