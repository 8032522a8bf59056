-- ===== src/Tests/VerifyTests.antt =====
-- Runs and instances of the theorems about internal/verify and internal/restore, on the in-memory store.
use vaultd.Base.{String, true, false, none, some, List, [], ◌∷◌, ◌≡◌, ◌↔◌, ◌⊎◌, refl, Text, codes}
use vaultd.Store.Port.{Store}
use vaultd.Store.Memory.{Memory, find, get, head}
use vaultd.Store.MemoryLaws.{view}
use vaultd.Manifest.Entry.{Manifest, Entry, Outcome, is_success}
use vaultd.Index.Contents.{quiet}
use vaultd.Backup.Types.{found}
use vaultd.Pipeline.Int.{atoi, digits_from}
use vaultd.Pipeline.Spec.{parse_spec}
use vaultd.Restore.Runner.{opened, Reader, run}
use vaultd.Restore.Matched.{restored, HasRead, run-HasRead}
use vaultd.Verify.Types.{integrity, structural, restore, created, failed_query, Provisioner, whole}
use vaultd.Verify.Format.{validator_for, validate, write_all, write, empty_window}
use vaultd.Verify.Window.{window_of, concat, validate-chunks}
use vaultd.Verify.Values.{values_equal, as_number, float64}
use vaultd.Verify.Verifier.{
  Verifier, verify_manifest, check_level, restore_check, version_skip, major_version,
}
use vaultd.Verify.Recording.{verify_backup}
use vaultd.Verify.Outcomes.{passed, IsIntact, IsIntactGlobals, integrity_iff}
use vaultd.Verify.Structural.{IsReadBack, structural-IsReadBack}
use vaultd.Index.Cache.{fetch}
use vaultd.Verify.Records.{
  KeepsBucket, is_verdict, EndsClean, EndsRecorded, verify_backup-Unchanged,
}
use vaultd.Tests.StoreTests.{bucket, tag}
use vaultd.Tests.IndexTests.{index, failure}

-- Two numbers above 2^53 that a `float64` does not tell apart.
rounded_test : values_equal (whole 9007199254740993) (whole 9007199254740992) ≡ true
unfolding values_equal as_number float64
rounded_test = refl

abbrev pieces : List Text
pieces = codes "PG" ∷ codes "DM" ∷ codes "P" ∷ []

validate-chunks_example :
    validate (validator_for "postgres") (write_all pieces empty_window)
    ≡ validate (validator_for "postgres") (window_of (concat pieces))
validate-chunks_example = validate-chunks (validator_for "postgres") pieces

abbrev m : Manifest
m = record {
  id = "01A";
  target = "db";
  engine = "postgres";
  server_version = "17.2";
  started_at = 5;
  finished_at = 20;
  kind = "full";
  tier = "";
  object = record { key = "k"; bytes = 5; sha256 = "more" };
  plaintext = record { bytes = 5; sha256 = "more" };
  globals = none;
  compression = "gzip:6";
  encryption = "age:x25519";
  tables = [];
  verify = none;
}

abbrev backups : Memory
backups = record {
  objects =
      ("k", record { content = codes "PGDMP"; etag = "e"; modified = 5 })
      ∷ ("m", record { content = 1 ∷ []; etag = "one"; modified = 5 })
      ∷ [];
  now = 30;
  fail_put = none;
}

abbrev reader : Reader
reader = record {
  keys = record { has_identity = true; passphrase = [] };
  hash = tag;
  open_body = λ spec body. opened pieces none 5;
}

abbrev staging : String → Provisioner Memory
staging version = record {
  probe = λ s. found (record { engine = "postgres"; version = version; tables = [] });
  create = λ box ts s. (created, s);
  list = λ s. some [];
  drop = λ box s. (true, s);
  is_empty = λ box s. some true;
  apply = λ box t e s. ((none, t), s);
  tables = λ box s. some [];
  count_rows = λ box t s. none;
  run_query = λ box q s. failed_query "no";
}

abbrev pub verifier : String → Store Memory Text → Verifier Memory
verifier version store = record {
  store = store;
  index = record index { decode_manifest = λ t. some m };
  others = quiet;
  reader = reader;
  sandbox = some (staging version);
  database_prefix = "verify_";
  assertions = [];
  lower = λ s. s;
  encode = λ x. 2 ∷ [];
  describe = λ e. "unreachable";
  cancelled = λ s. false;
  cancelled_before = λ later. false;
}

abbrev good : Verifier Memory
good = verifier "17.9" bucket

integrity_iff_example :
    (passed good (verify_manifest good integrity m 40 41 backups).0 ≡ true)
    ↔ (IsIntact good m.object backups × IsIntactGlobals good m.globals backups)
integrity_iff_example = integrity_iff good m 40 41 backups

structural_passed : passed good (verify_manifest good structural m 40 41 backups).0 ≡ true
unfolding verify_manifest check_level parse_spec atoi digits_from get head find validate write_all
    write
structural_passed = refl

structural-IsReadBack_example :
    (IsIntact good m.object backups × IsIntactGlobals good m.globals backups)
    × IsReadBack good m backups
structural-IsReadBack_example = structural-IsReadBack good m 40 41 backups structural_passed

restored_test :
    restored bucket reader
      (staging "17.9")
      "box"
      (run bucket reader (staging "17.9") "box" false m backups).0
    ≡ true
unfolding run parse_spec atoi digits_from get find
restored_test = refl

run-HasRead_example :
    (((staging "17.9").is_empty "box" backups ≡ some true) ⊎ (false ≡ true))
    × HasRead bucket reader (staging "17.9") "box" m
run-HasRead_example = run-HasRead bucket reader (staging "17.9") "box" false m backups restored_test

staging-KeepsBucket :
    (version : String) → KeepsBucket (verifier version bucket) view (staging version)
staging-KeepsBucket version = record {
  create_keeps = λ box ts s j. refl;
  drop_keeps = λ box s j. refl;
  apply_keeps = λ box t e s j. refl;
}

abbrev old : Verifier Memory
old = verifier "16.1" bucket

abbrev entry : Entry
entry = record failure { outcome = Outcome.succeeded; id = "01A"; manifest_key = "m"; key = "k" }

verify_backup-Unchanged_example :
    EndsClean old view backups (verify_backup old entry restore 40 41 backups)
    ⊎ ((is_success entry ≡ true)
        × EndsRecorded old view "m"
            (fetch old.index "m" backups)
            backups
            (verify_backup old entry restore 40 41 backups))
verify_backup-Unchanged_example =
    verify_backup-Unchanged old view (staging-KeepsBucket "16.1") entry restore 40 41 backups

-- The sandbox server is older than the backup, and the check is skipped.
skipped_test : is_verdict old view (verify_backup old entry restore 40 41 backups).0.0 ≡ false
unfolding verify_backup verify_manifest check_level restore_check parse_spec atoi digits_from get
    find version_skip major_version
skipped_test = refl
