-- ===== src/Manifest/Layout.antt =====
-- internal/manifest/keys.go: the keys of a target's objects. `at.Format` is a parameter: what the four
-- formats give for a time. The elements of a key hold no empty, `.` or `..` component, so that
-- `path.Join` puts slashes between those that are not empty, and does nothing else.
use Prim.Native.String.{◌++◌}
use text.Mathlib.Text.{starts_with}
use vaultd.Base.{String, not, ◌&&◌, List, [], ◌∷◌, if◌then◌else◌, ◌=s=◌}

-- The parts of a timestamp, in UTC: `2006`, `01`, `02` and `TimeFormat`.
pub record Stamp : Type 0 where
  pub year : String
  pub month : String
  pub day : String
  pub full : String

-- `Layout`, its prefix without the slashes at its ends.
pub record Layout : Type 0 where
  pub prefix : String
  pub target : String

-- The elements behind the first of a `path.Join`.
abbrev join_rest : List String → String
join_rest [] = ""
join_rest (p ∷ ps) = "/" ++ (p ++ join_rest ps)

-- `path.Join` of elements that are not empty.
abbrev pub path_join : List String → String
path_join [] = ""
path_join (p ∷ ps) = p ++ join_rest ps

-- `Layout.join`.
abbrev pub layout_join : Layout → List String → String
layout_join l parts = if l.prefix =s= "" then path_join parts else path_join (l.prefix ∷ parts)

-- `TargetPrefix`.
abbrev pub target_prefix : Layout → String
target_prefix l = layout_join l (l.target ∷ []) ++ "/"

-- `Base`.
abbrev pub base : Layout → Stamp → String
base l at =
    layout_join l (l.target ∷ at.year ∷ at.month ∷ at.day ∷ (l.target ++ ("-" ++ at.full)) ∷ [])

-- `Data`.
abbrev pub data_key : Layout → Stamp → String → String → String
data_key l at kind ext = base l at ++ ("-" ++ (kind ++ ext))

-- `Manifest`.
abbrev pub manifest_key : Layout → Stamp → String → String
manifest_key l at kind = base l at ++ ("-" ++ (kind ++ ".manifest.json"))

-- `Globals`.
abbrev pub globals_key : Layout → Stamp → String → String
globals_key l at ext = base l at ++ ("-globals" ++ ext)

-- `Index`.
abbrev pub index_key : Layout → String
index_key l = layout_join l ("_index" ∷ (l.target ++ ".jsonl") ∷ [])

-- `Lock`.
abbrev pub lock_key : Layout → String
lock_key l = layout_join l ("_locks" ∷ (l.target ++ ".lock") ∷ [])

-- `dumpExtension`.
abbrev dump_extension : String → String
dump_extension engine =
    if engine =s= "postgres"
    then ".pgdump"
    else if engine =s= "mysql"
    then ".sql"
    else if engine =s= "mariadb"
    then ".sql"
    else if engine =s= "mongodb"
    then ".archive"
    else ".dump"

abbrev compression_suffix : String → String
compression_suffix compression =
    if starts_with compression "zstd"
    then ".zst"
    else if starts_with compression "gzip"
    then ".gz"
    else ""

abbrev encryption_suffix : String → String
encryption_suffix encryption =
    if not (encryption =s= "") && not (encryption =s= "none") then ".age" else ""

-- `pipelineSuffixes`.
abbrev pipeline_suffixes : String → String → String
pipeline_suffixes compression encryption =
    compression_suffix compression ++ encryption_suffix encryption

-- `DataExtension`.
abbrev pub data_extension : String → String → String → String
data_extension engine compression encryption =
    dump_extension engine ++ pipeline_suffixes compression encryption

-- `GlobalsExtension`.
abbrev pub globals_extension : String → String → String
globals_extension compression encryption = ".sql" ++ pipeline_suffixes compression encryption
