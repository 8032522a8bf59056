-- ===== src/Config/Defaults.antt =====
-- internal/config/defaults.go: `ApplyDefaults`. The pointers of the program are options, and a copy is the
-- value itself. The trimming of the slashes of a prefix is a parameter.
use vaultd.Base.{
  String, true, ◌&&◌, Option, none, some, List, [], ◌∷◌, if◌then◌else◌, ◌==◌, ◌=s=◌, map,
}
use vaultd.Pipeline.Int.{ℤ, pos, negsuc}
use vaultd.Config.Types.{
  DayRule, Retention, Compression, Destination, VerifySpec, Target, VerifyTarget, Notifier, Server,
  Defaults, Config,
}

-- `4 * time.Hour`.
abbrev pub builtin_timeout : ℤ
builtin_timeout = pos 14400000000000

abbrev pub builtin_compression : Compression
builtin_compression = record { algo = "zstd"; level = pos 3; long = true }

-- `defaultLevels`.
abbrev pub default_level : String → ℤ
default_level algo = if algo =s= "zstd" then pos 3 else if algo =s= "gzip" then pos 6 else pos 0

-- A text that is set only where it is empty.
abbrev pub text_or : String → String → String
text_or s d = if s =s= "" then d else s

-- A number that is set only where it is 0.
abbrev pub int_or : ℤ → ℤ → ℤ
int_or (pos n) d = if n == 0 then d else pos n
int_or (negsuc n) d = negsuc n

abbrev pub option_or : {A : Type 0} → Option A → Option A → Option A
option_or none d = d
option_or (some a) d = some a

abbrev pub on_some : {A : Type 0} → (A → A) → Option A → Option A
on_some f none = none
on_some f (some a) = some (f a)

-- A copy of a slice, which is nil where it is empty.
abbrev pub copied : List String → Option (List String)
copied [] = none
copied (n ∷ ns) = some (n ∷ ns)

-- `Compression.applyDefaults`.
abbrev pub apply_compression : Compression → Compression
apply_compression c = record c {
  algo = text_or c.algo "zstd";
  level = int_or c.level (default_level (text_or c.algo "zstd"));
}

abbrev pub apply_day : DayRule → DayRule
apply_day d = record d { on = int_or d.on (pos 1) }

-- `Retention.applyDefaults`.
abbrev pub apply_retention : Retention → Retention
apply_retention r = record r {
  monthly = on_some apply_day r.monthly;
  min_keep = int_or r.min_keep (pos 1);
}

-- `VerifySpec.applyDefaults`.
abbrev pub apply_verify : VerifySpec → VerifySpec
apply_verify v = record v { level = text_or v.level "integrity" }

-- `applyDefaultsBlock`.
abbrev pub apply_block : Defaults → Defaults
apply_block d = record d {
  compression = on_some apply_compression (option_or d.compression (some builtin_compression));
  retention = on_some apply_retention d.retention;
  timeout = option_or d.timeout (some builtin_timeout);
  spool = text_or d.spool "none";
  on_overlap = text_or d.on_overlap "skip";
  row_estimate = text_or d.row_estimate "estimate";
}

-- `Target.applyDefaults`.
unfoldable pub apply_target : Defaults → Target → Target
apply_target d t = record t {
  compression = on_some apply_compression (option_or t.compression d.compression);
  encryption = option_or t.encryption d.encryption;
  retention = on_some apply_retention (option_or t.retention d.retention);
  timeout = option_or t.timeout d.timeout;
  notify = option_or t.notify (copied d.notify);
  spool = text_or t.spool d.spool;
  on_overlap = text_or t.on_overlap d.on_overlap;
  row_estimate = text_or t.row_estimate d.row_estimate;
  verify = on_some apply_verify t.verify;
}

-- `Destination.applyDefaults`.
abbrev apply_destination : (String → String) → Destination → Destination
apply_destination trim d = record d {
  region = if (d.provider =s= "r2") && (d.region =s= "") then "auto" else d.region;
  prefix = trim d.prefix;
}

abbrev apply_verify_target : VerifyTarget → VerifyTarget
apply_verify_target v = record v { max_concurrent = int_or v.max_concurrent (pos 1) }

abbrev apply_notifier : Notifier → Notifier
apply_notifier n = record n {
  kind = text_or n.kind "webhook";
  template = text_or n.template "generic";
}

abbrev apply_server : Server → Server
apply_server s = record s {
  listen = text_or s.listen ":8080";
  auth_mode = text_or s.auth_mode "token";
}

-- `ApplyDefaults`.
unfoldable apply_defaults : (String → String) → Config → Config
unfolding apply_target
apply_defaults trim c = record c {
  defaults = apply_block c.defaults;
  destinations = map (apply_destination trim) c.destinations;
  targets = map (apply_target (apply_block c.defaults)) c.targets;
  verify_targets = map apply_verify_target c.verify_targets;
  notifiers = map apply_notifier c.notifiers;
  server = apply_server c.server;
}
