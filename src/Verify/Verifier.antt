-- ===== src/Verify/Verifier.antt =====
-- internal/verify/verify.go and restore.go: `Verifier`, its three levels, and what is recorded. The index is
-- there: `Backup` reads the manifest through it. Notifications and the log are not modelled.
use Prim.Native.String.{◌++◌}
use vaultd.Base.{
  ℕ, String, Bool, true, false, not, ◌&&◌, Option, none, some, List, [], ◌∷◌, if◌then◌else◌, ◌==◌,
  ◌=s=◌, ltb, leb, Text, codes, length, take, ◌⊎◌, inl, inr,
}
use vaultd.Base.{◌++◌ as append_list}
use vaultd.Store.Port.{StoreError, not_found, failed, Answer, ok, err, ObjectInfo, Store}
use vaultd.Manifest.Entry.{Manifest, Object}
use vaultd.Index.Cache.{IndexStore}
use vaultd.Index.Update.{Others}
use vaultd.Backup.Types.{Probed, found, unreachable}
use vaultd.Pipeline.Int.{ℤ, pos, negsuc, atoi}
use vaultd.Pipeline.Spec.{Spec, parse_spec}
use vaultd.Restore.Runner.{
  Opened, no_match, malformed, opened, RunError, not_empty, wrong_key, mismatch, store_error, other,
  Restored, can_decrypt, with_passphrase, join_pieces, Reader, run,
}
use vaultd.Verify.Format.{FormatError, write_all, empty_window, validator_for, validate}
use vaultd.Verify.Types.{
  Level, integrity, structural, restore, Check, Part, dump_part, globals_part, Problem, missing,
  stored_size, stored_checksum, unreadable, object_checksum, stream_size, stream_checksum, format,
  not_restored, failed_check, Verified, ended, stopped, skip, of_problems, Created, created,
  unsupported, refused, Provisioner,
}
use vaultd.Verify.Assert.{Assertion, run_assertions}

-- `Verifier`. `cancelled` is whether the context has ended, at a state, and before the assertions that are
-- left. `lower` is `strings.ToLower`.
pub record Verifier (S : Type 0) : Type 0 where
  pub store : Store S Text
  pub index : IndexStore S
  pub others : Others S
  pub reader : Reader
  pub sandbox : Option (Provisioner S)
  pub database_prefix : String
  pub assertions : List Assertion
  pub lower : String → String
  pub encode : Manifest → Text
  pub describe : StoreError → String
  pub cancelled : S → Bool
  pub cancelled_before : List Assertion → Bool

-- The digits in front of a version.
abbrev leading_digits : Text → Text
leading_digits [] = []
leading_digits (c ∷ s) =
    let rest = leading_digits s in if leb 48 c && leb c 57 then c ∷ rest else []

abbrev pub or_zero : Option ℤ → ℕ
or_zero none = 0
or_zero (some (pos n)) = n
or_zero (some (negsuc n)) = 0

-- `majorVersion`.
unfoldable pub major_version : String → ℕ
major_version version = or_zero (atoi (leading_digits (codes version)))

-- `versionSkip`: whether the staging server is too old.
unfoldable pub version_skip : String → String → Bool
unfolding major_version
version_skip source staging =
    not (major_version source == 0)
    && (not (major_version staging == 0) && ltb (major_version staging) (major_version source))

-- `problemText` of an error that is no reason to stop.
abbrev run_text : (StoreError → String) → RunError → String
run_text describe not_empty = "the destination database is not empty"
run_text describe wrong_key = "no identity matched"
run_text describe mismatch = "the restored stream does not match the manifest"
run_text describe (store_error e) = describe e
run_text describe (other text) = text

-- `cannotRun`, given whether the context has ended.
abbrev cannot_run : Bool → RunError → Bool
cannot_run true e = true
cannot_run false not_empty = true
cannot_run false wrong_key = true
cannot_run false mismatch = false
cannot_run false (store_error e) = false
cannot_run false (other text) = false

abbrev failed_checks : List Check → List Problem
failed_checks [] = []
failed_checks (c ∷ cs) = let rest = failed_checks cs in if c.ok then rest else failed_check c ∷ rest

abbrev pub problem_if : Bool → Problem → List Problem → List Problem
problem_if b p ps = if b then p ∷ ps else ps

module _ {S : Type 0} (v : Verifier S) where
  -- What `Head` tells of one object: its problems, or an error.
  abbrev pub head_problems : Part → Object → Answer ObjectInfo → StoreError ⊎ List Problem
  head_problems what o (err not_found) = inr (missing what o.key ∷ [])
  head_problems what o (err failed) = inl failed
  head_problems what o (ok info) = inr (
      problem_if (not (info.bytes == o.bytes)) (stored_size what info.bytes o.bytes) (
        problem_if (not (info.sha256 =s= "") && not (info.sha256 =s= o.sha256))
          (stored_checksum what) []))

  abbrev pub both :
      StoreError ⊎ List Problem → StoreError ⊎ List Problem → StoreError ⊎ List Problem
  both (inl e) q = inl e
  both (inr ps) (inl e) = inl e
  both (inr ps) (inr qs) = inr (append_list ps qs)

  abbrev pub globals_problems : Option Object → S → StoreError ⊎ List Problem
  globals_problems none s = inr []
  globals_problems (some g) s = head_problems globals_part g (v.store.head g.key s)

  -- `integrity`: the problems that it finds.
  unfoldable pub integrity_problems : Manifest → S → StoreError ⊎ List Problem
  integrity_problems m s =
      both (head_problems dump_part m.object (v.store.head m.object.key s))
        (globals_problems m.globals s)

  -- `addCiphertext`, over the bytes of the object that were read.
  abbrev cipher_problems : Manifest → Text → List Problem
  cipher_problems m seen =
      problem_if ((length seen == m.object.bytes) && not (v.reader.hash seen =s= m.object.sha256))
        object_checksum []

  abbrev pub format_problems : Option FormatError → List Problem
  format_problems none = []
  format_problems (some e) = format e ∷ []

  -- The comparison of a stream that was read to its end.
  abbrev stream_problems : Manifest → List Text → List Problem
  stream_problems m ps =
      problem_if (not (length (join_pieces ps) == m.plaintext.bytes))
        (stream_size (length (join_pieces ps)) m.plaintext.bytes)
        (problem_if (not (v.reader.hash (join_pieces ps) =s= m.plaintext.sha256)) stream_checksum
          (format_problems (validate (validator_for m.engine) (write_all ps empty_window))))

  -- The part of `structural` behind `Get`.
  abbrev pub read_back : Manifest → Text → Opened → Verified
  read_back m body no_match = stopped "none of the supplied identities can decrypt this backup"
  read_back m body (malformed e n) =
      ended (of_problems (unreadable e ∷ cipher_problems m (take n body)))
  read_back m body (opened ps (some e) n) =
      ended (of_problems (unreadable e ∷ cipher_problems m (take n body)))
  read_back m body (opened ps none n) =
      ended (of_problems (append_list (cipher_problems m (take n body)) (stream_problems m ps)))

  abbrev pub fetch_body : Manifest → Spec → Answer Text → Verified
  fetch_body m spec (err e) = stopped (v.describe e)
  fetch_body m spec (ok body) = read_back m body (v.reader.open_body spec body)

  abbrev pub structural_with : Manifest → String ⊎ Spec → S → Verified
  structural_with m (inl e) s = stopped e
  structural_with m (inr spec) s =
      if can_decrypt v.reader.keys spec.encryption.mode
      then fetch_body m (with_passphrase v.reader.keys.passphrase spec) (v.store.get m.object.key s)
      else stopped "the key for this backup is not here"

  abbrev pub of_integrity : StoreError ⊎ List Problem → Verified
  of_integrity (inl e) = stopped (v.describe e)
  of_integrity (inr ps) = ended (of_problems ps)

  -- `structural`: the objects are read only where the store has no problem with them.
  unfoldable pub structural_check : Manifest → StoreError ⊎ List Problem → S → Verified
  structural_check m (inl e) s = stopped (v.describe e)
  structural_check m (inr (p ∷ ps)) s = ended (of_problems (p ∷ ps))
  structural_check m (inr []) s =
      structural_with m (parse_spec (codes m.compression) (codes m.encryption)) s

  -- The end of `restore`: the assertions.
  abbrev asserted : Option (List Check) → Verified
  asserted none = stopped "the context has ended"
  asserted (some cs) = ended (of_problems (failed_checks cs))

  -- The part of `restore` behind the run.
  abbrev pub after_run :
      Provisioner S → String → Manifest → ℕ → (RunError ⊎ Restored) × S → Verified × S
  after_run p box m now (inl e, t) = (
    if cannot_run (v.cancelled t) e
        then stopped (run_text v.describe e)
        else ended (of_problems (not_restored (run_text v.describe e) ∷ [])),
    t,
  )
  after_run p box m now (inr restored, t) =
      (asserted (run_assertions p box t v.cancelled_before m v.assertions now), t)

  -- The deferred drop, whose error is only logged.
  abbrev pub dropped : Provisioner S → String → Verified × S → Verified × S
  dropped p box (r, t) = (r, (p.drop box t).1)

  abbrev pub in_box : Provisioner S → String → Manifest → ℕ → Created × S → Verified × S
  in_box p box m now (created, t) =
      dropped p box (after_run p box m now (run v.store v.reader p box false m t))
  in_box p box m now (unsupported reason, t) = (ended (skip reason), t)
  in_box p box m now (refused e, t) = (stopped e, t)

  -- `sandboxName`.
  abbrev pub sandbox_name : Manifest → String
  sandbox_name m = v.database_prefix ++ v.lower m.id

  abbrev pub after_probe : Provisioner S → Manifest → ℕ → Probed → S → Verified × S
  after_probe p m now (unreachable e) s = (stopped e, s)
  after_probe p m now (found info) s =
      if version_skip m.server_version info.version
      then (ended (skip "the verify target is older than the source of this backup"), s)
      else in_box p (sandbox_name m) m now (p.create (sandbox_name m) m.tables s)

  abbrev pub restore_with : Provisioner S → Manifest → ℕ → String ⊎ Spec → S → Verified × S
  restore_with p m now (inl e) s = (stopped e, s)
  restore_with p m now (inr spec) s =
      if can_decrypt v.reader.keys spec.encryption.mode
      then after_probe p m now (p.probe s) s
      else (stopped "the key for this backup is not here", s)

  -- `restore`.
  unfoldable pub restore_check : Option (Provisioner S) → Manifest → ℕ → S → Verified × S
  restore_check none m now s = (stopped "no verify target to restore into", s)
  restore_check (some p) m now s =
      restore_with p m now (parse_spec (codes m.compression) (codes m.encryption)) s

  -- The `switch` of `Manifest`.
  unfoldable pub check_level : Level → Manifest → ℕ → S → Verified × S
  unfolding integrity_problems structural_check restore_check
  check_level integrity m now s = (of_integrity (integrity_problems m s), s)
  check_level structural m now s = (structural_check m (integrity_problems m s) s, s)
  check_level restore m now s = restore_check v.sandbox m now s

  abbrev pub stamped : Level → ℕ → Verified × S → Verified × S
  stamped level started (stopped e, t) = (stopped e, t)
  stamped level started (ended r, t) = (ended (record r { level = level; at = started }), t)

  -- `Manifest`. The clock is read at the start and before the assertions.
  unfoldable pub verify_manifest : Level → Manifest → ℕ → ℕ → S → Verified × S
  unfolding check_level
  verify_manifest level m started now s = stamped level started (check_level level m now s)
