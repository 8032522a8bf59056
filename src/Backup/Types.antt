-- ===== src/Backup/Types.antt =====
-- internal/backup/backup.go: `Spec`, `Phase`, `Error`, and what a run reads of the dumper, of the
-- pipeline and of the clock.
use Prim.Native.String.{◌++◌}
use vaultd.Base.{ℕ, String, Bool, Option, List, Text, if◌then◌else◌, ◌=s=◌}
use vaultd.Store.Port.{StoreError, Store}
use vaultd.Manifest.Entry.{Manifest, TableInfo}
use vaultd.Manifest.Layout.{Layout, Stamp, data_extension, globals_extension}
use vaultd.Index.Cache.{IndexStore}
use vaultd.Index.Update.{Others}

-- `Phase`.
pub data Phase : Type 0 where
  probe : Phase
  dump : Phase
  upload : Phase
  manifest : Phase

abbrev pub phase_name : Phase → String
phase_name probe = "probe"
phase_name dump = "dump"
phase_name upload = "upload"
phase_name manifest = "manifest"

-- `Error`: its phase, and its text without the prefix that names the target and the phase.
pub record Failure : Type 0 where
  pub phase : Phase
  pub text : String

-- `Error.Error`.
abbrev pub message : String → Failure → String
message target f =
    "backup of " ++ (target ++ (" failed during " ++ (phase_name f.phase ++ (": " ++ f.text))))

-- `Spec`, with the pipeline as the two texts that the manifest records of it.
pub record Spec : Type 0 where
  pub target : String
  pub engine : String
  pub kind : String
  pub tier : String
  pub layout : Layout
  pub compression : String
  pub encryption : String

-- `Spec.kind`.
abbrev pub kind_of : Spec → String
kind_of spec = if spec.kind =s= "" then "full" else spec.kind

-- `Spec.extension` and `globalsExtension`.
abbrev pub extension : Spec → String
extension spec = data_extension spec.engine spec.compression spec.encryption

abbrev pub extension_globals : Spec → String
extension_globals spec = globals_extension spec.compression spec.encryption

-- `core.ServerInfo`.
pub record ServerInfo : Type 0 where
  pub engine : String
  pub version : String
  pub tables : List TableInfo

-- `pipeline.Sum` and `pipeline.Result`.
pub record Sum : Type 0 where
  pub bytes : ℕ
  pub sha256 : String

pub record Sums : Type 0 where
  pub plaintext : Sum
  pub ciphertext : Sum

-- What `probe` reports.
pub data Probed : Type 0 where
  found : ServerInfo → Probed
  unreachable : String → Probed

-- What `pipeline.Run` reports: the tables that the dumper wrote and the sums, or the error of the dump,
-- the error of the upload, and its own, with whether that is an exceeded deadline.
pub data Streamed : Type 0 where
  streamed : List TableInfo → Sums → Streamed
  broke : Option String → Option String → Bool → String → Streamed

-- `Runner`, over the state `S` of the bucket. `stream` is told whether it dumps the globals.
pub record Runner (S : Type 0) : Type 0 where
  pub store : Store S Text
  pub probe_server : S → Probed
  pub has_globals : Bool
  pub stream : Bool → String → S → Streamed × S
  pub index : Option (IndexStore S)
  pub others : Others S
  pub encode : Manifest → Text
  pub stamp : ℕ → Stamp
  pub new_id : ℕ → String
  pub describe : StoreError → String

-- What a run reads of the clock.
pub record Clock : Type 0 where
  pub started : ℕ
  pub finished : ℕ
  pub failed : ℕ
