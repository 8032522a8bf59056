-- ===== src/Config/Types.antt =====
-- internal/config/types.go, and `Diagnostics` of diagnostics.go, as far as validate.go reads them. A value of an
-- enumeration is its text; a duration is a number of nanoseconds. A diagnostic has its field in place of its
-- text and of the number of the element in its list.
use vaultd.Base.{
  none, some, String, Bool, true, false, not, ◌&&◌, Option, List, [], ◌∷◌, if◌then◌else◌, ◌=s=◌,
  any_of, all_of, is_some,
}
use vaultd.Pipeline.Int.{ℤ}

-- `Diagnostic`.
pub record Diagnostic : Type 0 where
  pub is_error : Bool
  pub field : String

abbrev pub error_at : String → List Diagnostic
error_at f = record { is_error = true; field = f } ∷ []

abbrev pub warn_at : String → List Diagnostic
warn_at f = record { is_error = false; field = f } ∷ []

-- A guarded diagnostic.
abbrev pub when : Bool → List Diagnostic → List Diagnostic
when b ds = if b then ds else []

-- `Diagnostics` without an error.
abbrev pub accepted : List Diagnostic → Bool
accepted ds = all_of (λ (d : Diagnostic). not d.is_error) ds

-- `valid`.
abbrev pub valid : String → List String → Bool
valid value values = any_of (λ v. value =s= v) values

-- `Secret.Set`.
abbrev pub is_set : String → Bool
is_set s = not (s =s= "")

pub record TierRule : Type 0 where
  pub keep : ℤ

pub record DayRule : Type 0 where
  pub keep : ℤ
  pub on : ℤ

pub record Retention : Type 0 where
  pub hourly : Option TierRule
  pub daily : Option TierRule
  pub weekly : Option DayRule
  pub monthly : Option DayRule
  pub yearly : Option TierRule
  pub min_keep : ℤ

-- `Retention.Empty`.
abbrev pub is_empty : Retention → Bool
is_empty r =
    not (is_some r.hourly)
    && (not (is_some r.daily)
        && (not (is_some r.weekly) && (not (is_some r.monthly) && not (is_some r.yearly))))

pub record Compression : Type 0 where
  pub algo : String
  pub level : ℤ
  pub long : Bool

pub record Encryption : Type 0 where
  pub mode : String
  pub recipients : List String
  pub passphrase : String

pub record Destination : Type 0 where
  pub name : String
  pub provider : String
  pub bucket : String
  pub endpoint : String
  pub region : String
  pub prefix : String
  pub storage_class : String
  pub access_key_id : String
  pub secret_access_key : String

pub record Options : Type 0 where
  pub exclude_table_data : List String
  pub include_globals : Option Bool
  pub on_non_innodb : String
  pub oplog : Option Bool

-- A tolerance is a number of millionths.
pub record Assertion : Type 0 where
  pub kind : String
  pub tables : List String
  pub tolerance : Option ℤ
  pub sql : String
  pub has_expect : Bool
  pub value : Option ℤ

pub record VerifySpec : Type 0 where
  pub level : String
  pub schedule : String
  pub into : String
  pub assertions : List Assertion

pub record Target : Type 0 where
  pub name : String
  pub engine : String
  pub dsn : String
  pub uri : String
  pub destination : String
  pub schedule : String
  pub options : Options
  pub verify : Option VerifySpec
  pub compression : Option Compression
  pub encryption : Option Encryption
  pub retention : Option Retention
  pub timeout : Option ℤ
  pub notify : Option (List String)
  pub spool : String
  pub on_overlap : String
  pub row_estimate : String

-- `Notify` as a list, which a missing one leaves empty.
abbrev pub notified : Target → List String
notified t = elim t.notify [ none ↦ [] | some ns ↦ ns ]

pub record VerifyTarget : Type 0 where
  pub name : String
  pub engine : String
  pub dsn : String
  pub uri : String
  pub database_prefix : String
  pub max_concurrent : ℤ

pub record Notifier : Type 0 where
  pub name : String
  pub kind : String
  pub url : String
  pub secret : String
  pub events : List String
  pub template : String
  pub dedup_window : Option ℤ

-- `Server`, with its `ServerAuth`.
pub record Server : Type 0 where
  pub listen : String
  pub ui : Bool
  pub metrics : Bool
  pub auth_mode : String
  pub auth_token : String

-- `Defaults`.
pub record Defaults : Type 0 where
  pub compression : Option Compression
  pub encryption : Option Encryption
  pub retention : Option Retention
  pub timeout : Option ℤ
  pub notify : List String
  pub spool : String
  pub on_overlap : String
  pub row_estimate : String

pub record Config : Type 0 where
  pub version : ℤ
  pub defaults : Defaults
  pub destinations : List Destination
  pub targets : List Target
  pub verify_targets : List VerifyTarget
  pub notifiers : List Notifier
  pub server : Server

-- What the libraries say of a text: whether it parses as a schedule, as an age recipient, as an absolute
-- `http` or `https` address, as a pattern and as a `host:port`; and what `url.Parse` gives as the scheme and the
-- host.
pub record Libraries : Type 0 where
  pub parses_cron : String → Bool
  pub parses_recipient : String → Bool
  pub is_endpoint : String → Bool
  pub is_pattern : String → Bool
  pub trim : String → String
  pub is_host_port : String → Bool
  pub parse_url : String → Option (String × String)
