-- ===== src/Tests/ConfigTests.antt =====
-- Runs and instances of the theorems about internal/config.
use vaultd.Base.{◌≤◌, min, String, true, false, none, some, [], ◌∷◌, ◌≡◌, refl, length, All}
use vaultd.Retention.Planner.{plan}
use vaultd.Pipeline.Int.{pos}
use vaultd.Config.Names.{name_matches}
use vaultd.Config.Types.{Defaults, accepted, Retention, Target, Config, Libraries}
use vaultd.Base.{is_some}
use vaultd.Config.Defaults.{apply_target, apply_block, option_or}
use vaultd.Config.Resolved.{apply_target-resolved}
use vaultd.Config.Stages.{validate_retention, policy_of}
use vaultd.Config.Targets.{targets_from, validate_targets, destinations_from}
use vaultd.Config.Validate.{validate}
use vaultd.Config.Retained.{validate_retention-plan}
use vaultd.Config.Accepted.{Pairs, IsSound, AreApart, validate-apart}
use vaultd.Tests.RetentionTests.{sort, sort-Sorts, civil, input}

abbrev weekly : Retention
weekly = record {
  hourly = none;
  daily = none;
  weekly = some (record { keep = pos 4; on = pos 0 });
  monthly = none;
  yearly = none;
  min_keep = pos 2;
}

weekly_accepted : accepted (validate_retention (some weekly)) ≡ true
unfolding validate_retention
weekly_accepted = refl

validate_retention-plan_example :
    min 1 (length input.backups) ≤ length (plan sort civil (policy_of (some weekly)) input).keep
validate_retention-plan_example =
    validate_retention-plan sort civil sort-Sorts (some weekly) input weekly_accepted

abbrev libraries : Libraries
libraries = record {
  parses_cron = λ s. true;
  parses_recipient = λ s. true;
  is_endpoint = λ s. true;
  is_pattern = λ s. true;
  trim = λ s. s;
  is_host_port = λ s. true;
  parse_url = λ s. some ("https", "h");
}

abbrev target : String → Target
target name = record {
  name = name;
  engine = "postgres";
  dsn = "postgres://h/db";
  uri = "";
  destination = "s3";
  schedule = "@daily";
  options = record {
    exclude_table_data = [];
    include_globals = none;
    on_non_innodb = "";
    oplog = none;
  };
  verify = none;
  compression = none;
  encryption = some (record { mode = "age"; recipients = "age1" ∷ []; passphrase = "" });
  retention = some weekly;
  timeout = none;
  notify = none;
  spool = "none";
  on_overlap = "skip";
  row_estimate = "estimate";
}

abbrev no_defaults : Defaults
no_defaults = record {
  compression = none;
  encryption = none;
  retention = none;
  timeout = none;
  notify = [];
  spool = "";
  on_overlap = "";
  row_estimate = "";
}

abbrev config : Config
config = record {
  version = pos 1;
  defaults = no_defaults;
  destinations =
      record {
        name = "s3";
        provider = "s3";
        bucket = "b";
        endpoint = "";
        region = "eu";
        prefix = "";
        storage_class = "";
        access_key_id = "";
        secret_access_key = "";
      }
      ∷ [];
  targets = target "users" ∷ target "orders" ∷ [];
  verify_targets = [];
  notifiers = [];
  server = record {
    listen = "";
    ui = false;
    metrics = false;
    auth_mode = "token";
    auth_token = "";
  };
}

config-accepted : accepted (validate libraries config) ≡ true
unfolding validate validate_targets targets_from destinations_from validate_retention name_matches
config-accepted = refl

-- Two targets of one name are refused.
duplicate_test :
    accepted (validate libraries (record config { targets = target "users" ∷ target "users" ∷ [] }))
    ≡ false
unfolding validate validate_targets targets_from destinations_from validate_retention name_matches
duplicate_test = refl

validate-apart_example : All (IsSound config) config.targets × Pairs AreApart config.targets
validate-apart_example = validate-apart libraries config config-accepted

apply_target-resolved_example :
    (apply_target no_defaults (apply_target no_defaults (target "users"))
      ≡ apply_target no_defaults (target "users"))
    × (is_some (apply_target (apply_block no_defaults) (target "users")).compression ≡ true)
    × (is_some (apply_target (apply_block no_defaults) (target "users")).timeout ≡ true)
    × ((apply_target (apply_block no_defaults) (target "users")).encryption
        ≡ option_or (target "users").encryption no_defaults.encryption)
apply_target-resolved_example = apply_target-resolved no_defaults (target "users")
