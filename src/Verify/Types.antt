-- ===== src/Verify/Types.antt =====
-- internal/verify/verify.go: `Level` and `Result`; internal/core/ports.go: what a sandbox offers.
use vaultd.Base.{ℕ, String, Bool, true, false, Option, List, [], Text, is_nil}
use vaultd.Manifest.Entry.{TableInfo}
use vaultd.Backup.Types.{Probed}
use vaultd.Verify.Format.{FormatError}

-- `Level`.
pub data Level : Type 0 where
  integrity : Level
  structural : Level
  restore : Level

abbrev pub level_name : Level → String
level_name integrity = "integrity"
level_name structural = "structural"
level_name restore = "restore"

-- `AssertionType`.
pub data AssertionType : Type 0 where
  table_count : AssertionType
  row_count : AssertionType
  query : AssertionType
  max_age : AssertionType
  other_type : String → AssertionType

-- `Check`, without its text.
pub record Check : Type 0 where
  pub kind : AssertionType
  pub table : String
  pub ok : Bool

-- The object of a backup, and that of its globals.
pub data Part : Type 0 where
  dump_part : Part
  globals_part : Part

-- A problem, with what its text quotes.
pub data Problem : Type 0 where
  missing : Part → String → Problem
  stored_size : Part → ℕ → ℕ → Problem
  stored_checksum : Part → Problem
  unreadable : String → Problem
  object_checksum : Problem
  stream_size : ℕ → ℕ → Problem
  stream_checksum : Problem
  format : FormatError → Problem
  not_restored : String → Problem
  failed_check : Check → Problem

-- `Result`, without its details and its duration.
pub record Result : Type 0 where
  pub level : Level
  pub ok : Bool
  pub at : ℕ
  pub problems : List Problem
  pub skipped : Bool
  pub reason : String

-- What a verification comes to: a result, or an error.
pub data Verified : Type 0 where
  ended : Result → Verified
  stopped : String → Verified

abbrev pub skip : String → Result
skip reason = record {
  level = restore;
  ok = false;
  at = 0;
  problems = [];
  skipped = true;
  reason = reason;
}

-- A result of a check that found `problems`. Every problem makes it fail.
abbrev pub of_problems : List Problem → Result
of_problems ps = record {
  level = restore;
  ok = is_nil ps;
  at = 0;
  problems = ps;
  skipped = false;
  reason = "";
}

-- What an assertion's query returns and what the configuration expects: the null value, a truth value, a
-- whole number, or text.
pub data Value : Type 0 where
  null : Value
  boolean : Bool → Value
  whole : ℕ → Value
  text : Text → Value

-- What a `Scalar` reports.
pub data Scalar : Type 0 where
  scalar : Value → Scalar
  unsupported_query : Scalar
  failed_query : String → Scalar

-- What a `Create` reports.
pub data Created : Type 0 where
  created : Created
  unsupported : String → Created
  refused : String → Created

-- `Provisioner` and `Sandbox`, over the state `S`. `drop` drops by name. `restore` gets the plaintext
-- and the error that ends it, and reports its own error with what it has read.
pub record Provisioner (S : Type 0) : Type 0 where
  pub probe : S → Probed
  pub create : String → List TableInfo → S → Created × S
  pub list : S → Option (List String)
  pub drop : String → S → Bool × S
  pub is_empty : String → S → Option Bool
  pub apply : String → Text → Option String → S → (Option String × Text) × S
  pub tables : String → S → Option (List String)
  pub count_rows : String → String → S → Option ℕ
  pub run_query : String → String → S → Scalar
