-- ===== src/Verify/Records.antt =====
-- About internal/verify: what a verification leaves of the bucket.
use vaultd.Base.{
  ℕ, String, Bool, true, false, not, Option, none, some, List, Text, codes, ◌⊎◌, inl, inr, ◌≡◌,
  refl, ap, ◌∙◌, Bool-cases,
}
use vaultd.Store.Port.{Answer, ok, err}
use vaultd.Manifest.Entry.{Manifest, TableInfo}
use vaultd.Backup.Types.{found}
use vaultd.Pipeline.Spec.{Spec, parse_spec}
use vaultd.Restore.Runner.{
  Opened, no_match, malformed, opened, Restored, can_decrypt, with_passphrase, join_pieces, run,
}
use vaultd.Verify.Types.{
  Level, Result, Verified, ended, stopped, created, Provisioner, integrity, structural, restore,
}
use vaultd.Verify.Verifier.{
  Verifier, restore_check, check_level, version_skip, sandbox_name, verify_manifest, stamped,
}
use vaultd.Store.Port.{Stored, Unchanged}
use vaultd.Index.Cache.{Outcome, done, fails, fetch}
use vaultd.Manifest.Entry.{Entry, is_success}
use vaultd.Backup.Types.{Probed, found, unreachable}
use vaultd.Verify.Types.{Created, created, unsupported, refused}
use vaultd.Restore.Runner.{
  RunError, compare_sums, pour, fetch_body as fetch_into, with_spec as with_run_spec, checked_empty,
}
use vaultd.Verify.Verifier.{after_run, in_box, after_probe, restore_with}
use vaultd.Verify.Recording.{record_result, after_check, with_manifest, verify_backup}

module _ {S : Type 0} (v : Verifier S) (view : S → String → Option (Stored Text)) where
  -- A sandbox server has no objects in the bucket.
  pub record KeepsBucket (p : Provisioner S) : Type 0 where
    pub create_keeps :
        (box : String) (ts : List TableInfo) (s : S) → Unchanged view s (p.create box ts s).1
    pub drop_keeps : (box : String) (s : S) → Unchanged view s (p.drop box s).1
    pub apply_keeps :
        (box : String) (t : Text) (e : Option String) (s : S)
        → Unchanged view s (p.apply box t e s).1

  abbrev SandboxKeepsBucket : Option (Provisioner S) → Type 0
  SandboxKeepsBucket none = Unit
  SandboxKeepsBucket (some p) = KeepsBucket p

  -- Whether there is a result that is not skipped.
  abbrev pub is_verdict : Verified → Bool
  is_verdict (ended r) = not r.skipped
  is_verdict (stopped e) = false

  module _ (p : Provisioner S) (keeps : KeepsBucket p) where
    compare_sums-state :
        (box : String) (m : Manifest) (r : (Option String × Text) × S)
        → (compare_sums v.store v.reader p box m r).1 ≡ r.1
    compare_sums-state box m ((some e, seen), t) = refl
    compare_sums-state box m ((none, seen), t) = refl

    pour-keeps :
        (box : String) (m : Manifest) (o : Opened) (s : S)
        → Unchanged view s (pour v.store v.reader p box m o s).1
    pour-keeps box m no_match s j = refl
    pour-keeps box m (malformed e n) s j = refl
    pour-keeps box m (opened ps e n) s j =
        ap (λ t. view t j) (compare_sums-state box m (p.apply box (join_pieces ps) e s))
        ∙ keeps.apply_keeps box (join_pieces ps) e s j

    fetch_into-keeps :
        (box : String) (m : Manifest) (spec : Spec) (a : Answer Text) (s : S)
        → Unchanged view s (fetch_into v.store v.reader p box m spec a s).1
    fetch_into-keeps box m spec (err e) s j = refl
    fetch_into-keeps box m spec (ok body) s j = pour-keeps box m (v.reader.open_body spec body) s j

    with_run_spec-keeps :
        (box : String) (m : Manifest) (r : String ⊎ Spec) (s : S)
        → Unchanged view s (with_run_spec v.store v.reader p box m r s).1
    with_run_spec-keeps box m (inl e) s j = refl
    with_run_spec-keeps box m (inr spec) s j =
        elim (Bool-cases (can_decrypt v.reader.keys spec.encryption.mode)) [
          | inl k ↦ rw k (
              fetch_into-keeps box m (with_passphrase v.reader.keys.passphrase spec)
                (v.store.get m.object.key s) s j)
          | inr k ↦ rw k refl
        ]

    checked_empty-keeps :
        (box : String) (m : Manifest) (o : Option Bool) (s : S)
        → Unchanged view s (checked_empty v.store v.reader p box false m o s).1
    checked_empty-keeps box m none s j = refl
    checked_empty-keeps box m (some false) s j = refl
    checked_empty-keeps box m (some true) s j =
        with_run_spec-keeps box m (parse_spec (codes m.compression) (codes m.encryption)) s j

    after_run-state :
        (box : String) (m : Manifest) (now : ℕ) (r : (RunError ⊎ Restored) × S)
        → (after_run v p box m now r).1 ≡ r.1
    after_run-state box m now (inl e, t) = refl
    after_run-state box m now (inr r, t) = refl

    in_box-keeps :
        (box : String) (m : Manifest) (now : ℕ) (c : Created × S)
        → Unchanged view c.1 (in_box v p box m now c).1
    unfolding run
    in_box-keeps box m now (created, t) j =
        let ran = run v.store v.reader p box false m t in
        let same = after_run-state box m now ran in
        keeps.drop_keeps box (after_run v p box m now ran).1 j
        ∙ (ap (λ u. view u j) same ∙ checked_empty-keeps box m (p.is_empty box t) t j)
    in_box-keeps box m now (unsupported reason, t) j = refl
    in_box-keeps box m now (refused e, t) j = refl

    after_probe-keeps :
        (m : Manifest) (now : ℕ) (q : Probed) (s : S)
        → Unchanged view s (after_probe v p m now q s).1
    after_probe-keeps m now (unreachable e) s j = refl
    after_probe-keeps m now (found info) s j =
        elim (Bool-cases (version_skip m.server_version info.version)) [
          | inl k ↦ rw k refl
          | inr k ↦
              let box = sandbox_name v m in
              rw k (
                in_box-keeps box m now (p.create box m.tables s) j
                ∙ keeps.create_keeps box m.tables s j)
        ]

    restore_with-keeps :
        (m : Manifest) (now : ℕ) (r : String ⊎ Spec) (s : S)
        → Unchanged view s (restore_with v p m now r s).1
    restore_with-keeps m now (inl e) s j = refl
    restore_with-keeps m now (inr spec) s j =
        elim (Bool-cases (can_decrypt v.reader.keys spec.encryption.mode)) [
          | inl k ↦ rw k (after_probe-keeps m now (p.probe s) s j)
          | inr k ↦ rw k refl
        ]

  restore_check-keeps :
      (o : Option (Provisioner S))
      → SandboxKeepsBucket o
      → (m : Manifest) (now : ℕ) (s : S) → Unchanged view s (restore_check v o m now s).1
  unfolding restore_check
  restore_check-keeps none keeps m now s j = refl
  restore_check-keeps (some p) keeps m now s j =
      restore_with-keeps p keeps m now (parse_spec (codes m.compression) (codes m.encryption)) s j

  stamped-state :
      (level : Level) (started : ℕ) (r : Verified × S) → (stamped v level started r).1 ≡ r.1
  stamped-state level started (ended r, t) = refl
  stamped-state level started (stopped e, t) = refl

  verify_manifest-keeps :
      SandboxKeepsBucket v.sandbox
      → (level : Level) (m : Manifest) (started now : ℕ) (s : S)
      → Unchanged view s (verify_manifest v level m started now s).1
  unfolding verify_manifest check_level
  verify_manifest-keeps keeps integrity m started now s j =
      ap (λ t. view t j) (stamped-state integrity started (check_level v integrity m now s))
  verify_manifest-keeps keeps structural m started now s j =
      ap (λ t. view t j) (stamped-state structural started (check_level v structural m now s))
  verify_manifest-keeps keeps restore m started now s j =
      ap (λ t. view t j) (stamped-state restore started (check_level v restore m now s))
      ∙ restore_check-keeps v.sandbox keeps m now s j

  -- How a verification ends, by its answer and its state: the check reached no result, or a skipped one, and
  -- every object is as it was; or there is a result, and from a bucket that is as it was the one thing that
  -- followed is the recording of that result, over the manifest that was read.
  abbrev pub EndsClean : S → (Verified × Bool) × S → Type 0
  EndsClean s a = (is_verdict a.0.0 ≡ false) × (a.0.1 ≡ true) × Unchanged view s a.1

  abbrev pub EndsRecorded : String → Outcome Manifest → S → (Verified × Bool) × S → Type 0
  EndsRecorded key read s a =
      (m : Manifest) × (r : Result) × (t : S) × (read ≡ done m)
      × (r.skipped ≡ false)
      × Unchanged view s t
      × (a ≡ ((ended r, (record_result v m key r t).0), (record_result v m key r t).1))

  after_check-cases :
      (m : Manifest) (key : String) (s : S) (a : Verified × S)
      → Unchanged view s a.1
      → EndsClean s (after_check v m key a) ⊎ EndsRecorded key (done m) s (after_check v m key a)
  after_check-cases m key s (stopped e, t) u = inl (refl, refl, u)
  after_check-cases m key s (ended r, t) u = elim (Bool-cases r.skipped) [
    | inl k ↦ inl (rw k refl, rw k refl, rw k u)
    | inr k ↦ inr (m, r, t, refl, k, u, rw k refl)
  ]

  with_manifest-cases :
      SandboxKeepsBucket v.sandbox
      → (level : Level) (key : String) (read : Outcome Manifest) (started now : ℕ) (s : S)
      → EndsClean s (with_manifest v level key read started now s)
        ⊎ EndsRecorded key read s (with_manifest v level key read started now s)
  with_manifest-cases keeps level key (fails e) started now s = inl (refl, refl, λ j. refl)
  with_manifest-cases keeps level key (done m) started now s =
      after_check-cases m key s (verify_manifest v level m started now s)
        (verify_manifest-keeps keeps level m started now s)

  -- If the sandbox server has no objects in the bucket, a verification changes the bucket in one way only, at
  -- each level: by recording its result, which is not skipped, on the manifest that it read, and in the
  -- index. Where its check ends with an error, or is skipped, or there is no backup to check, nothing is
  -- recorded, and every object is as it was.
  pub verify_backup-Unchanged :
      SandboxKeepsBucket v.sandbox
      → (entry : Entry) (level : Level) (started now : ℕ) (s : S)
      → EndsClean s (verify_backup v entry level started now s)
        ⊎ ((is_success entry ≡ true)
            × EndsRecorded entry.manifest_key
                (fetch v.index entry.manifest_key s)
                s
                (verify_backup v entry level started now s))
  unfolding verify_backup
  verify_backup-Unchanged keeps entry level started now s = elim (Bool-cases (is_success entry)) [
    | inr k ↦ inl (rw k refl, rw k refl, rw k (λ j. refl))
    | inl k ↦
        elim (with_manifest-cases keeps level entry.manifest_key
          (fetch v.index entry.manifest_key s) started now s) [
            | inl c ↦ inl (rw k c)
            | inr c ↦ inr (k, rw k c)
          ]
  ]
