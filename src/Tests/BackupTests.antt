-- ===== src/Tests/BackupTests.antt =====
-- Runs and instances of the theorems about internal/backup, on the in-memory store.
use vaultd.Base.{ℕ, false, none, [], ◌∷◌, ◌++◌, ◌≡◌, arith}
use vaultd.Store.Memory.{Memory, new, put}
use vaultd.Manifest.Entry.{Manifest}
use vaultd.Manifest.Layout.{Stamp}
use vaultd.Retention.Planner.{plan}
use vaultd.Prune.Runner.{input_of}
use vaultd.Index.Contents.{quiet}
use vaultd.Backup.Types.{dump, Failure, Spec, ServerInfo, Sums, found, streamed, Runner, Clock}
use vaultd.Backup.Runner.{failure_entry}
use vaultd.Backup.Failures.{failure_entry-frozen}
use vaultd.Tests.StoreTests.{bucket}
use vaultd.Tests.RetentionTests.{sort, sort-Sorts, civil, policy}
use vaultd.Tests.IndexTests.{failure as earlier}

abbrev pub spec : Spec
spec = record {
  target = "db";
  engine = "postgres";
  kind = "";
  tier = "";
  layout = record { prefix = "p"; target = "db" };
  compression = "zstd:3";
  encryption = "age:x25519";
}

abbrev info : ServerInfo
info = record { engine = "postgres"; version = "17.2"; tables = [] }

abbrev sums : Sums
sums = record {
  plaintext = record { bytes = 9; sha256 = "p" };
  ciphertext = record { bytes = 1; sha256 = "c" };
}

abbrev stamp : ℕ → Stamp
stamp at = record { year = "2026"; month = "01"; day = "02"; full = "t" }

abbrev pub runner : Runner Memory
runner = record {
  store = bucket;
  probe_server = λ s. found info;
  has_globals = false;
  stream = λ globals key s. (streamed [] sums, (bucket.put key (1 ∷ []) s).1);
  index = none;
  others = quiet;
  encode = λ m. 1 ∷ 2 ∷ [];
  stamp = stamp;
  new_id = λ at. "id";
  describe = λ e. "unreachable";
}

abbrev pub clock : Clock
clock = record { started = 5; finished = 20; failed = 30 }

abbrev pub bare : Memory
bare = new 3

abbrev made : Manifest
made = record {
  id = "id";
  target = "db";
  engine = "postgres";
  server_version = "17.2";
  started_at = 5;
  finished_at = 20;
  kind = "full";
  tier = "";
  object = record { key = "p/db/2026/01/02/db-t-full.pgdump.zst.age"; bytes = 1; sha256 = "c" };
  plaintext = record { bytes = 9; sha256 = "p" };
  globals = none;
  compression = "zstd:3";
  encryption = "age:x25519";
  tables = [];
  verify = none;
}

abbrev fault : Failure
fault = record { phase = dump; text = "exit status 1" }

failure_entry-frozen_example :
    (plan sort civil policy
      (input_of 900 ((earlier ∷ []) ++ failure_entry runner spec clock fault 5 ∷ []))).delete
    ≡ []
failure_entry-frozen_example =
    failure_entry-frozen runner spec clock fault 5 (earlier ∷ []) sort civil sort-Sorts policy 900
      (omega arith, tt)
