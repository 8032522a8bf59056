-- ===== src/Config/Stages.antt =====
-- internal/config/validate.go: the checks of a target's compression, encryption and retention; and
-- `App.Retention` of internal/app/app.go, which hands the declared retention to the planner.
use vaultd.Base.{
  ℕ, ◌+◌, ◌%◌, ◌^◌, String, Bool, true, false, not, ◌&&◌, ◌||◌, Option, none, some, List, [], ◌∷◌,
  ◌++◌, if◌then◌else◌, ◌==◌, ◌=s=◌, ltb, is_nil,
}
use vaultd.Pipeline.Int.{ℤ, pos, negsuc}
use vaultd.Config.Types.{
  Diagnostic, error_at, warn_at, when, valid, is_set, TierRule, DayRule, Retention, is_empty,
  Compression, Encryption, Libraries,
}
use vaultd.Retention.Types.{Rule, WeekRule, MonthRule, Policy}

-- `low <= n <= high`.
abbrev pub between : ℕ → ℕ → ℤ → Bool
between low high (pos n) = not (ltb n low) && not (ltb high n)
between low high (negsuc n) = false

abbrev compression_level : Compression → List Diagnostic
compression_level c =
    if c.algo =s= "zstd"
    then when (not (between 1 19 c.level)) (error_at "compression.level")
    else if c.algo =s= "gzip"
    then when (not (between 1 9 c.level)) (error_at "compression.level")
      ++ when c.long (warn_at "compression.long")
    else warn_at "compression.algo"

-- `validateCompression`.
abbrev pub validate_compression : Option Compression → List Diagnostic
validate_compression none = []
validate_compression (some c) =
    if valid c.algo ("zstd" ∷ "gzip" ∷ "none" ∷ [])
    then compression_level c
    else error_at "compression.algo"

abbrev validate_recipients : Libraries → List String → List Diagnostic
validate_recipients lib [] = []
validate_recipients lib (r ∷ rs) =
    when (not (lib.parses_recipient r)) (error_at "encryption.recipients")
    ++ validate_recipients lib rs

abbrev encryption_keys : Libraries → Encryption → List Diagnostic
encryption_keys lib e =
    if e.mode =s= "age"
    then when (is_nil e.recipients) (error_at "encryption.recipients")
      ++ (validate_recipients lib e.recipients
          ++ when (is_set e.passphrase) (error_at "encryption.passphrase"))
    else if e.mode =s= "passphrase"
    then when (not (is_set e.passphrase)) (error_at "encryption.passphrase")
      ++ when (not (is_nil e.recipients)) (error_at "encryption.recipients")
    else when (not (is_nil e.recipients) || is_set e.passphrase) (error_at "encryption")
      ++ warn_at "encryption"

-- `validateEncryption`.
abbrev pub validate_encryption : Libraries → Option Encryption → List Diagnostic
validate_encryption lib none = error_at "encryption"
validate_encryption lib (some e) =
    if valid e.mode ("age" ∷ "passphrase" ∷ "none" ∷ [])
    then encryption_keys lib e
    else error_at "encryption.mode"

-- `tierKeep`.
abbrev tier_keep : Option TierRule → ℤ
tier_keep none = pos 0
tier_keep (some t) = t.keep

abbrev day_keep : Option DayRule → ℤ
day_keep none = pos 0
day_keep (some t) = t.keep

abbrev pub is_negative : ℤ → Bool
is_negative (pos n) = false
is_negative (negsuc n) = true

-- The positive part, and the negative part.
abbrev pub magnitude : ℤ → ℕ
magnitude (pos n) = n
magnitude (negsuc n) = 0

abbrev lack : ℤ → ℕ
lack (pos n) = 0
lack (negsuc n) = n + 1

-- The keeps of the tiers, in the order of the rungs.
abbrev pub keeps : Retention → List ℤ
keeps r =
    tier_keep r.hourly
    ∷ tier_keep r.daily
    ∷ day_keep r.weekly
    ∷ day_keep r.monthly
    ∷ tier_keep r.yearly
    ∷ []

abbrev pub negative_keeps : List ℤ → List Diagnostic
negative_keeps [] = []
negative_keeps (k ∷ ks) = when (is_negative k) (error_at "retention.keep") ++ negative_keeps ks

abbrev total_keep : List ℤ → ℕ
total_keep [] = 0
total_keep (k ∷ ks) = magnitude k + total_keep ks

abbrev total_lack : List ℤ → ℕ
total_lack [] = 0
total_lack (k ∷ ks) = lack k + total_lack ks

-- Whether the sum of the tiers is 0, as an `int`.
abbrev pub sums_to_zero : List ℤ → Bool
sums_to_zero ks = total_keep ks % 2 ^ 64 == total_lack ks % 2 ^ 64

abbrev pub validate_day : ℕ → ℕ → String → Option DayRule → List Diagnostic
validate_day low high field none = []
validate_day low high field (some d) = when (not (between low high d.on)) (error_at field)

abbrev pub validate_tiers : Retention → List Diagnostic
validate_tiers r =
    validate_day 0 6 "retention.weekly.on" r.weekly
    ++ (validate_day 1 28 "retention.monthly.on" r.monthly
        ++ (negative_keeps (keeps r)
            ++ (when (sums_to_zero (keeps r)) (error_at "retention")
                ++ when (magnitude r.min_keep == 0) (error_at "retention.min_keep"))))

-- `validateRetention`.
unfoldable pub validate_retention : Option Retention → List Diagnostic
validate_retention none = warn_at "retention"
validate_retention (some r) = if is_empty r then warn_at "retention" else validate_tiers r

abbrev rule_of : Option TierRule → Rule
rule_of none = record { keep = 0 }
rule_of (some t) = record { keep = magnitude t.keep }

abbrev week_rule_of : Option DayRule → WeekRule
week_rule_of none = record { keep = 0; on = 0 }
week_rule_of (some d) = record { keep = magnitude d.keep; on = magnitude d.on }

abbrev month_rule_of : Option DayRule → MonthRule
month_rule_of none = record { keep = 0; on = 0 }
month_rule_of (some d) = record { keep = magnitude d.keep; on = magnitude d.on }

-- `App.Retention`. A negative number, which validation refuses, is taken for 0.
unfoldable pub policy_of : Option Retention → Policy
policy_of none = record {
  hourly = rule_of none;
  daily = rule_of none;
  weekly = week_rule_of none;
  monthly = month_rule_of none;
  yearly = rule_of none;
  min_keep = 1;
  location = none;
}
policy_of (some r) = record {
  hourly = rule_of r.hourly;
  daily = rule_of r.daily;
  weekly = week_rule_of r.weekly;
  monthly = month_rule_of r.monthly;
  yearly = rule_of r.yearly;
  min_keep = magnitude r.min_keep;
  location = none;
}
