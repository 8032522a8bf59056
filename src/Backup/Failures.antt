-- ===== src/Backup/Failures.antt =====
-- internal/backup/backup.go: the record of a failed run, and what retention makes of it.
use vaultd.Base.{
  ℕ, ◌<◌, String, not, List, [], ◌∷◌, ◌++◌, ltb, lt→ltb, ◌≡◌, inl, inr, refl, ap, All, In,
  Bool-cases,
}
use vaultd.Manifest.Entry.{Entry, is_success, new_failure_entry}
use vaultd.Retention.Types.{Policy, Backup, Decision}
use vaultd.Retention.Periods.{Civil}
use vaultd.Retention.Planner.{Sorts, plan}
use vaultd.Retention.Safety.{plan-delete_justified}
use vaultd.Prune.Runner.{latest_from, last_run_failed, input_of}
use vaultd.Backup.Types.{Failure, Spec, Runner, Clock}
use vaultd.Backup.Runner.{failure_entry}

latest_from-last :
    (l : Entry) (es : List Entry) (e : Entry)
    → l.finished_at < e.finished_at
    → All (λ (x : Entry). x.finished_at < e.finished_at) es
    → latest_from l (es ++ e ∷ []) ≡ e
unfolding latest_from
latest_from-last l [] e h k = rw (lt→ltb l.finished_at e.finished_at h) refl
latest_from-last l (x ∷ es) e h k = elim (Bool-cases (ltb l.finished_at x.finished_at)) [
  | inl q ↦ rw (q, latest_from) (latest_from-last x es e k.0 k.1)
  | inr q ↦ rw (q, latest_from) (latest_from-last l es e h k.1)
]

last_run_failed-last :
    (es : List Entry) (e : Entry)
    → All (λ (x : Entry). x.finished_at < e.finished_at) es
    → last_run_failed (es ++ e ∷ []) ≡ not (is_success e)
unfolding last_run_failed latest_from
last_run_failed-last [] e k = refl
last_run_failed-last (x ∷ es) e k = ap (λ y. not (is_success y)) (latest_from-last x es e k.0 k.1)

nothing-deleted : (ds : List Decision) → ((d : Decision) → In d ds → ⊥) → ds ≡ []
nothing-deleted [] h = refl
nothing-deleted (d ∷ ds) h = absurd (h d (inl refl))

module _ {S : Type 0} (r : Runner S) (spec : Spec) (c : Clock) where
  -- Once the record of a failed run is in the index, behind entries that ended earlier, every plan of
  -- the target deletes nothing, whatever the policy and the phase that failed.
  pub failure_entry-frozen :
      (f : Failure) (started : ℕ) (es : List Entry) (sort : List Backup → List Backup)
      (civil : String → ℕ → Civil)
      → Sorts sort
      → (p : Policy) (now : ℕ) → All (λ (x : Entry). x.finished_at < c.failed) es
      → (plan sort civil p (input_of now (es ++ failure_entry r spec c f started ∷ []))).delete ≡ []
  unfolding new_failure_entry
  failure_entry-frozen f started es sort civil sorts p now k = nothing-deleted _ (λ d i.
      let ran =
        (plan-delete_justified sort civil sorts p
          (input_of now (es ++ failure_entry r spec c f started ∷ [])) d i).0 in
      let last = last_run_failed-last es (failure_entry r spec c f started) k in cc (ran, last))
