-- ===== src/Manifest/Entry.antt =====
-- internal/manifest/index.go and manifest.go: `Entry`, its methods, and how it is made from a
-- manifest or from a failure.
use vaultd.Base.{
  ℕ, String, Bool, true, false, Option, none, some, List, [], ◌∷◌, if◌then◌else◌, ◌=s=◌,
}

-- `Outcome`, the recorded end of a run.
pub data Outcome : Type 0 where
  succeeded failed : Outcome

-- `Object`.
pub record Object : Type 0 where
  pub key : String
  pub bytes : ℕ
  pub sha256 : String

-- `Plaintext`.
pub record Plaintext : Type 0 where
  pub bytes : ℕ
  pub sha256 : String

-- `Verify`, without its free-form details.
pub record Verify : Type 0 where
  pub level : String
  pub at : ℕ
  pub ok : Bool

-- `core.TableInfo`.
pub record TableInfo : Type 0 where
  pub name : String
  pub rows : ℕ
  pub rows_exact : Bool

-- `Manifest`: the fields that the index, the retention and the verification read.
pub record Manifest : Type 0 where
  pub id : String
  pub target : String
  pub engine : String
  pub server_version : String
  pub started_at : ℕ
  pub finished_at : ℕ
  pub kind : String
  pub tier : String
  pub object : Object
  pub plaintext : Plaintext
  pub globals : Option Object
  pub compression : String
  pub encryption : String
  pub tables : List TableInfo
  pub verify : Option Verify

-- `Entry`.
pub record Entry : Type 0 where
  pub id : String
  pub target : String
  pub engine : String
  pub outcome : Outcome
  pub kind : String
  pub tier : String
  pub started_at : ℕ
  pub finished_at : ℕ
  pub key : String
  pub manifest_key : String
  pub globals_key : String
  pub bytes : ℕ
  pub plaintext_bytes : ℕ
  pub sha256 : String
  pub verified_at : Option ℕ
  pub verify_level : String
  pub verify_ok : Option Bool
  pub phase : String
  pub error : String

-- `Entry.Succeeded`.
abbrev pub is_success : Entry → Bool
is_success e = elim e.outcome [ succeeded ↦ true | failed ↦ false ]

-- `Entry.Verified`.
abbrev pub is_verified : Entry → Bool
is_verified e = elim e.verify_ok [ none ↦ false | some b ↦ b ]

-- The loop of `Entry.Keys`.
abbrev nonempty_keys : List String → List String
nonempty_keys [] = []
nonempty_keys (k ∷ ks) = let rest = nonempty_keys ks in if k =s= "" then rest else k ∷ rest

-- `Entry.Keys`.
abbrev pub entry_keys : Entry → List String
entry_keys e = nonempty_keys (e.key ∷ e.manifest_key ∷ e.globals_key ∷ [])

abbrev globals_key_of : Option Object → String
globals_key_of none = ""
globals_key_of (some g) = g.key

abbrev verified_at_of : Option Verify → Option ℕ
verified_at_of none = none
verified_at_of (some v) = some v.at

abbrev verify_level_of : Option Verify → String
verify_level_of none = ""
verify_level_of (some v) = v.level

abbrev verify_ok_of : Option Verify → Option Bool
verify_ok_of none = none
verify_ok_of (some v) = some v.ok

-- `NewEntry`.
unfoldable pub new_entry : Manifest → String → Entry
new_entry m manifest_key = record {
  id = m.id;
  target = m.target;
  engine = m.engine;
  outcome = succeeded;
  kind = m.kind;
  tier = m.tier;
  started_at = m.started_at;
  finished_at = m.finished_at;
  key = m.object.key;
  manifest_key = manifest_key;
  globals_key = globals_key_of m.globals;
  bytes = m.object.bytes;
  plaintext_bytes = m.plaintext.bytes;
  sha256 = m.object.sha256;
  verified_at = verified_at_of m.verify;
  verify_level = verify_level_of m.verify;
  verify_ok = verify_ok_of m.verify;
  phase = "";
  error = "";
}

-- `NewFailureEntry`.
unfoldable pub new_failure_entry : String → ℕ → ℕ → String → String → Entry
new_failure_entry target started finished phase message = record {
  id = "";
  target = target;
  engine = "";
  outcome = failed;
  kind = "";
  tier = "";
  started_at = started;
  finished_at = finished;
  key = "";
  manifest_key = "";
  globals_key = "";
  bytes = 0;
  plaintext_bytes = 0;
  sha256 = "";
  verified_at = none;
  verify_level = "";
  verify_ok = none;
  phase = phase;
  error = message;
}
