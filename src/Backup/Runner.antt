-- ===== src/Backup/Runner.antt =====
-- internal/backup/backup.go: `Runner.Run`, `reserve`, `exists`, `classify`, `recordFailure`.
use Prim.Native.String.{◌++◌}
use vaultd.Base.{
  ℕ, zero, suc, ◌+◌, String, Bool, true, false, not, ◌&&◌, Option, none, some, List, [], ◌∷◌,
  if◌then◌else◌, ◌==◌, is_nil,
}
use vaultd.Store.Port.{StoreError, not_found, failed, Answer, ok, err, ObjectInfo}
use vaultd.Manifest.Entry.{Manifest, Entry, TableInfo, new_entry, new_failure_entry}
use vaultd.Manifest.Entry.{Object as StoredObject}
use vaultd.Manifest.Layout.{data_key, manifest_key, globals_key}
use vaultd.Index.Cache.{IndexStore}
use vaultd.Index.Update.{append}
use vaultd.Backup.Types.{
  Phase, probe, dump, upload, manifest, phase_name, Failure, message, Spec, kind_of, extension,
  extension_globals, ServerInfo, Sums, Probed, found, unreachable, Streamed, streamed, broke,
  Runner, Clock,
}

abbrev pub second : ℕ
second = 1000000000

-- `reserveWindow`.
abbrev pub reserve_window : ℕ
reserve_window = 60

-- What `reserve` reports: a time whose keys are free, an error of the store, or that none is free.
pub data Reserved : Type 0 where
  reserved : ℕ → Reserved
  unknown : StoreError → Reserved
  all_taken : Reserved

-- How a run ends. A failure comes with the time that its record takes for the start of the run.
pub data Ran : Type 0 where
  stored : Manifest → Ran
  broken : Failure → ℕ → Ran

abbrev pub failure : Phase → String → Failure
failure phase text = record { phase = phase; text = text }

-- `classify`.
abbrev pub classify : Option String → Option String → Bool → String → Failure
classify (some e) put late text = failure dump e
classify none (some e) late text = failure upload e
classify none none true text = failure dump ("timed out: " ++ text)
classify none none false text = failure dump text

-- `tablesOf`.
abbrev pub tables_of : ServerInfo → List TableInfo → List TableInfo
tables_of info tables = if is_nil tables then info.tables else tables

module _ {S : Type 0} (r : Runner S) where
  -- `exists`.
  abbrev pub exists_answer : Answer ObjectInfo → Answer Bool
  exists_answer (ok i) = ok true
  exists_answer (err not_found) = ok false
  exists_answer (err failed) = err failed

  unfoldable pub exists : String → S → Answer Bool
  exists key s = exists_answer (r.store.head key s)

  -- One round of the loop of `reserve`; `later` is what the next rounds report.
  abbrev pub try_slot : ℕ → Answer Bool → Answer Bool → Reserved → Reserved
  try_slot at (err e) data_taken later = unknown e
  try_slot at (ok m) (err e) later = unknown e
  try_slot at (ok m) (ok d) later = if not m && not d then reserved at else later

  -- The loop of `reserve`, with the rounds that are left. The keys are only read, so that the second
  -- `exists` of a round is computed even where the first fails.
  unfoldable pub reserve_from : ℕ → Spec → ℕ → S → Reserved
  unfolding exists
  reserve_from zero spec at s = all_taken
  reserve_from (suc rounds) spec at s =
      try_slot at (exists (manifest_key spec.layout (r.stamp at) (kind_of spec)) s)
        (exists (data_key spec.layout (r.stamp at) (kind_of spec) (extension spec)) s)
        (reserve_from rounds spec (at + second) s)

  -- `reserve`.
  abbrev pub reserve : Spec → ℕ → S → Reserved
  reserve spec at s = reserve_from reserve_window spec at s

  abbrev pub reserve_text : Reserved → String
  reserve_text (reserved at) = ""
  reserve_text (unknown e) = "checking whether a key is free: " ++ r.describe e
  reserve_text all_taken = "every key in the window is already taken"

  -- The manifest of a run, but for its globals.
  abbrev pub manifest_of :
      Spec → Clock → ℕ → ServerInfo → List TableInfo → Sums → Option StoredObject → Manifest
  manifest_of spec c at info tables sums globals = record {
    id = r.new_id at;
    target = spec.target;
    engine = info.engine;
    server_version = info.version;
    started_at = at;
    finished_at = c.finished;
    kind = kind_of spec;
    tier = spec.tier;
    object = record {
      key = data_key spec.layout (r.stamp at) (kind_of spec) (extension spec);
      bytes = sums.ciphertext.bytes;
      sha256 = sums.ciphertext.sha256;
    };
    plaintext = record { bytes = sums.plaintext.bytes; sha256 = sums.plaintext.sha256 };
    globals = globals;
    compression = spec.compression;
    encryption = spec.encryption;
    tables = tables_of info tables;
    verify = none;
  }

  -- The index is a cache: an error of its update is dropped.
  abbrev pub index_append : Option (IndexStore S) → Entry → S → S
  index_append none e s = s
  index_append (some x) e s = (append x r.others e s).1

  -- The end of `Run`: the manifest, then the index.
  abbrev pub after_manifest : Manifest → String → ℕ → Answer ObjectInfo × S → Ran × S
  after_manifest m key at (err e, t) = (broken (failure manifest (r.describe e)) at, t)
  after_manifest m key at (ok i, t) = (stored m, index_append r.index (new_entry m key) t)

  abbrev pub put_manifest : Spec → ℕ → Manifest → S → Ran × S
  put_manifest spec at m t =
      after_manifest m (manifest_key spec.layout (r.stamp at) (kind_of spec)) at
        (r.store.put (manifest_key spec.layout (r.stamp at) (kind_of spec)) (r.encode m) t)

  -- The globals, and what follows them.
  abbrev pub after_globals :
      Spec → Clock → ℕ → ServerInfo → List TableInfo → Sums → Streamed × S → Ran × S
  after_globals spec c at info tables sums (broke d p late text, t) =
      (broken (classify d p late text) at, t)
  after_globals spec c at info tables sums (streamed ts gs, t) =
      put_manifest spec at
        (manifest_of spec c at info tables sums (
          some (record {
            key = globals_key spec.layout (r.stamp at) (extension_globals spec);
            bytes = gs.ciphertext.bytes;
            sha256 = gs.ciphertext.sha256;
          })))
        t

  abbrev pub with_globals :
      Bool → Spec → Clock → ℕ → ServerInfo → List TableInfo → Sums → S → Ran × S
  with_globals true spec c at info tables sums t =
      after_globals spec c at info tables sums
        (r.stream true (globals_key spec.layout (r.stamp at) (extension_globals spec)) t)
  with_globals false spec c at info tables sums t =
      put_manifest spec at (manifest_of spec c at info tables sums none) t

  -- The part of `Run` behind the dump.
  abbrev pub after_dump : Spec → Clock → ℕ → ServerInfo → Streamed × S → Ran × S
  after_dump spec c at info (broke d p late text, t) = (broken (classify d p late text) at, t)
  after_dump spec c at info (streamed tables sums, t) =
      if sums.plaintext.bytes == 0
      then (
        broken (failure dump "the dump produced no data") at,
        (r.store.delete (data_key spec.layout (r.stamp at) (kind_of spec) (extension spec) ∷ [])
            t).1,
      )
      else with_globals r.has_globals spec c at info tables sums t

  -- The part of `Run` behind `reserve`, whose result is assigned to `started` even if it failed.
  abbrev pub after_reserve : Spec → Clock → ServerInfo → Reserved → S → Ran × S
  after_reserve spec c info (reserved at) s =
      after_dump spec c at info
        (r.stream false (data_key spec.layout (r.stamp at) (kind_of spec) (extension spec)) s)
  after_reserve spec c info (unknown e) s =
      (broken (failure upload (reserve_text (unknown e))) 0, s)
  after_reserve spec c info all_taken s = (broken (failure upload (reserve_text all_taken)) 0, s)

  abbrev pub after_probe : Spec → Clock → Probed → S → Ran × S
  after_probe spec c (unreachable e) s = (broken (failure probe e) c.started, s)
  after_probe spec c (found info) s = after_reserve spec c info (reserve spec c.started s) s

  -- `recordFailure`: the entry that it appends.
  abbrev pub failure_entry : Spec → Clock → Failure → ℕ → Entry
  failure_entry spec c f started =
      new_failure_entry spec.target started c.failed (phase_name f.phase) (message spec.target f)

  -- The deferred call of `Run`.
  abbrev pub recorded : Spec → Clock → Ran × S → Ran × S
  recorded spec c (stored m, t) = (stored m, t)
  recorded spec c (broken f started, t) =
      (broken f started, index_append r.index (failure_entry spec c f started) t)

  -- `Run`.
  unfoldable pub run : Spec → Clock → S → Ran × S
  unfolding reserve_from
  run spec c s = recorded spec c (after_probe spec c (r.probe_server s) s)
