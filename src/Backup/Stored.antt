-- ===== src/Backup/Stored.antt =====
-- internal/backup/backup.go: what a run that reports a manifest has stored, and what it has not overwritten.
use vaultd.Base.{ℕ, String, Bool, false, Option, some, List, Text, ◌≡◌, ◌≢◌}
use vaultd.Store.Port.{Stored}
use vaultd.Manifest.Entry.{Manifest, TableInfo, new_entry}
use vaultd.Manifest.Entry.{Object as StoredObject}
use vaultd.Manifest.Layout.{data_key, manifest_key, globals_key}
use vaultd.Backup.Types.{
  Spec, kind_of, extension, extension_globals, Runner, Clock, streamed, Sums, ServerInfo,
}
use vaultd.Backup.Runner.{Ran, stored, index_append}

module _ {S : Type 0} (r : Runner S) (spec : Spec) (c : Clock)
    (view : S → String → Option (Stored Text)) where
  abbrev pub data_at : ℕ → String
  data_at at = data_key spec.layout (r.stamp at) (kind_of spec) (extension spec)

  abbrev pub manifest_at : ℕ → String
  manifest_at at = manifest_key spec.layout (r.stamp at) (kind_of spec)

  abbrev pub globals_at : ℕ → String
  globals_at at = globals_key spec.layout (r.stamp at) (extension_globals spec)

  -- The pipeline writes no object but that of the key that it is given.
  abbrev pub StreamsTo : Type 0
  StreamsTo =
      (globals : Bool) (key : String) (s : S) (j : String)
      → j ≢ key
      → view (r.stream globals key s).1 j ≡ view s j

  -- Every object is as it was, but for one under this key.
  abbrev pub KeepsObjects : String → S → S → Type 0
  KeepsObjects key s u =
      (j : String) (o : Stored Text) → view s j ≡ some o → j ≢ key → view u j ≡ some o

  -- From the state `s`, the part of a run behind `reserve` has stored a backup with this manifest and this
  -- start: the dump went to the data key of the start and the manifest describes it, the manifest is
  -- stored under the manifest key of the start, and no object but these two and the globals was touched.
  -- The update of the index is what follows.
  pub record IsMade (at : ℕ) (s : S) (n : Manifest) (res : Ran × S) : Type 0 where
    pub before_index : S
    pub ended : res ≡ (stored n, index_append r r.index (new_entry n (manifest_at at)) before_index)
    pub start : n.started_at ≡ at
    pub place : n.object.key ≡ data_at at
    pub tables : List TableInfo
    pub sums : Sums
    pub behind_dump : S
    pub dumped : r.stream false (data_at at) s ≡ (streamed tables sums, behind_dump)
    pub sized : n.object.bytes ≡ sums.ciphertext.bytes
    pub summed : n.object.sha256 ≡ sums.ciphertext.sha256
    pub plain_sized : n.plaintext.bytes ≡ sums.plaintext.bytes
    pub plain_summed : n.plaintext.sha256 ≡ sums.plaintext.sha256
    pub nonempty : n.plaintext.bytes ≢ 0
    pub described :
        (o : Stored Text) × (view before_index (manifest_at at) ≡ some o) × (o.content ≡ r.encode n)
    pub kept :
        (j : String)
        → j ≢ data_at at
        → j ≢ manifest_at at
        → j ≢ globals_at at
        → view before_index j ≡ view s j

  module _ (at : ℕ) (s : S) (info : ServerInfo) (tables : List TableInfo) (sums : Sums) (d : S)
      (dumped : r.stream false (data_at at) s ≡ (streamed tables sums, d))
      (nonempty : sums.plaintext.bytes ≢ 0) where
    abbrev NotDump : S → Type 0
    NotDump t = (j : String) → j ≢ data_at at → j ≢ globals_at at → view t j ≡ view s j
