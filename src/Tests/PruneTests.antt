-- ===== src/Tests/PruneTests.antt =====
-- Instances of the theorems about internal/prune at the policy of the retention tests.
use vaultd.Base.{
  ℕ, String, false, none, List, [], ◌∷◌, not, ◌≡◌, ◌≢◌, ◌⊎◌, refl, inl, In, All, arith,
}
use vaultd.Manifest.Entry.{Entry, Outcome, is_success}
use vaultd.Retention.Types.{Decision, Plan, daily}
use vaultd.Retention.Planner.{plan, plan_sorted}
use vaultd.Retention.Periods.{survivors}
use vaultd.Index.Cache.{prune}
use vaultd.Prune.Runner.{deleted_ids, oldest_kept, last_run_failed, input_of}
use vaultd.Prune.Attempts.{IsLatest, last_run_failed-IsLatest}
use vaultd.Prune.Safety.{prune-keeps}
use vaultd.Tests.RetentionTests.{sort, civil, policy}

abbrev backup : String → ℕ → Entry
backup id at = record {
  id = id;
  target = "db";
  engine = "postgres";
  outcome = Outcome.succeeded;
  kind = "";
  tier = "";
  started_at = 0;
  finished_at = at;
  key = "k";
  manifest_key = "m";
  globals_key = "";
  bytes = 5;
  plaintext_bytes = 9;
  sha256 = "";
  verified_at = none;
  verify_level = "";
  verify_ok = none;
  phase = "";
  error = "";
}

abbrev pub attempts : List Entry
attempts = backup "c" 330 ∷ backup "b" 220 ∷ backup "z" 105 ∷ []

last_run_test : last_run_failed attempts ≡ false
unfolding last_run_failed
last_run_test = refl

last_run_failed-IsLatest_example :
    ((attempts ≡ []) × (last_run_failed attempts ≡ false))
    ⊎ ((l : Entry) × IsLatest l attempts × (last_run_failed attempts ≡ not (is_success l)))
last_run_failed-IsLatest_example = last_run_failed-IsLatest attempts

abbrev plan_now : Plan
plan_now = plan sort civil policy (input_of 400 attempts)

abbrev newest : Decision
newest = record {
  backup = record { id = "c"; at = 330; verified = false; bytes = 5; keys = "k" ∷ "m" ∷ [] };
  tiers = daily ∷ [];
  reason = [];
}

newest_kept : In newest plan_now.keep
unfolding plan plan_sorted survivors sort last_run_failed
newest_kept = inl refl

kept_dated : All (λ (e : Decision). e.backup.at ≢ 0) plan_now.keep
unfolding plan plan_sorted survivors sort last_run_failed
kept_dated = (omega arith, (omega arith, tt))

oldest_deleted : In "z" (deleted_ids plan_now)
unfolding plan plan_sorted survivors sort last_run_failed
oldest_deleted = inl refl

oldest_kept_test : oldest_kept plan_now ≡ 220
unfolding plan plan_sorted survivors sort last_run_failed oldest_kept
oldest_kept_test = refl

prune-keeps_example :
    In (backup "c" 330) (prune attempts (deleted_ids plan_now) (oldest_kept plan_now))
prune-keeps_example =
    prune-keeps sort civil policy 400 attempts newest (backup "c" 330) (inl refl) refl newest_kept
      refl
