-- ===== src/Verify/Recording.antt =====
-- internal/verify/verify.go: `Backup` and `record`; and `CollectGarbage` of restore.go.
use vaultd.Base.{ℕ, String, Bool, true, false, Option, none, some, List, [], ◌∷◌, if◌then◌else◌}
use vaultd.Store.Port.{Answer, ok, err, ObjectInfo}
use vaultd.Manifest.Entry.{Manifest, Entry, is_success}
use vaultd.Index.Cache.{Outcome, done, fails, fetch}
use vaultd.Index.Update.{set_verification}
use vaultd.Verify.Types.{Level, level_name, Result, Verified, ended, stopped, Provisioner}
use vaultd.Verify.Verifier.{Verifier, verify_manifest}

module _ {S : Type 0} (v : Verifier S) where
  -- The manifest as `record` writes it.
  abbrev with_result : Manifest → Result → Manifest
  with_result m r = record m {
    verify = some (record { level = level_name r.level; at = r.at; ok = r.ok });
  }

  abbrev indexed : Outcome (Unit {0}) × S → Bool × S
  indexed (fails e, t) = (false, t)
  indexed (done x, t) = (true, t)

  abbrev set_in_index : Manifest → Result → Answer ObjectInfo × S → Bool × S
  set_in_index m r (err e, t) = (false, t)
  set_in_index m r (ok i, t) =
      indexed (set_verification v.index v.others m.id (level_name r.level) r.ok r.at t)

  -- `record`, with whether it succeeds.
  unfoldable pub record_result : Manifest → String → Result → S → Bool × S
  record_result m key r s = set_in_index m r (v.store.put key (v.encode (with_result m r)) s)

  -- How `Backup` ends: a result, and whether it was recorded, where it has to be, or an error.
  abbrev pub after_check : Manifest → String → Verified × S → (Verified × Bool) × S
  after_check m key (stopped e, t) = ((stopped e, true), t)
  after_check m key (ended r, t) =
      if r.skipped
      then ((ended r, true), t)
      else ((ended r, (record_result m key r t).0), (record_result m key r t).1)

  abbrev pub with_manifest : Level → String → Outcome Manifest → ℕ → ℕ → S → (Verified × Bool) × S
  with_manifest level key (fails e) started now s =
      ((stopped "the manifest could not be read", true), s)
  with_manifest level key (done m) started now s =
      after_check m key (verify_manifest v level m started now s)

  -- `Backup`.
  unfoldable pub verify_backup : Entry → Level → ℕ → ℕ → S → (Verified × Bool) × S
  unfolding verify_manifest record_result
  verify_backup entry level started now s =
      if is_success entry
      then with_manifest level entry.manifest_key (fetch v.index entry.manifest_key s) started now s
      else ((stopped "a failed run, not a backup", true), s)

-- The loop of `CollectGarbage`: the names that were dropped, and whether there was no error.
unfoldable pub collect : {S : Type 0} → Provisioner S → List String → S → (List String × Bool) × S
collect p [] s = (([], true), s)
collect p (n ∷ ns) s =
    let (gone, t) = p.drop n s in
    let ((dropped, all), u) = collect p ns t in
    if gone then ((n ∷ dropped, all), u) else (([], false), t)

-- `CollectGarbage`. Without an answer nothing is dropped.
abbrev collect_garbage : {S : Type 0} → Option (Provisioner S) → S → Option (List String × Bool) × S
collect_garbage none s = (none, s)
collect_garbage (some p) s = elim (p.list s) [
  | none ↦ (none, s)
  | some names ↦ (some (collect p names s).0, (collect p names s).1)
]
