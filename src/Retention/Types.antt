-- ===== src/Retention/Types.antt =====
-- internal/retention/retention.go: the types, and the methods of `Decision` and `Plan`.
use vaultd.Base.{
  ℕ, ◌+◌, ◌%◌, ◌^◌, String, Bool, not, ◌||◌, Option, List, [], ◌∷◌, ◌++◌, Text, codes, is_nil,
  if◌then◌else◌,
}

pub data Tier : Type 0 where
  hourly daily weekly monthly yearly : Tier

pub record Rule : Type 0 where
  pub keep : ℕ

-- Weekdays count from Sunday, 0.
pub record WeekRule : Type 0 where
  pub keep : ℕ
  pub on : ℕ

pub record MonthRule : Type 0 where
  pub keep : ℕ
  pub on : ℕ

pub record Policy : Type 0 where
  pub hourly : Rule
  pub daily : Rule
  pub weekly : WeekRule
  pub monthly : MonthRule
  pub yearly : Rule
  pub min_keep : ℕ
  pub location : Option String

pub record Backup : Type 0 where
  pub id : String
  pub at : ℕ
  pub verified : Bool
  pub bytes : ℕ
  pub keys : List String

pub record Decision : Type 0 where
  pub backup : Backup
  pub tiers : List Tier
  pub reason : Text

pub record Input : Type 0 where
  pub backups : List Backup
  pub now : ℕ
  pub last_run_failed : Bool

pub record Plan : Type 0 where
  pub keep : List Decision
  pub delete : List Decision
  pub blocked : Text

-- `Decision.Kept`.
abbrev pub kept : Decision → Bool
kept d = not (is_nil d.tiers) || not (is_nil d.reason)

abbrev tier_name : Tier → Text
tier_name Tier.hourly = codes "hourly"
tier_name Tier.daily = codes "daily"
tier_name Tier.weekly = codes "weekly"
tier_name Tier.monthly = codes "monthly"
tier_name Tier.yearly = codes "yearly"

-- `join`: the names with a plus sign between them.
join : List Tier → Text
join [] = []
join (t ∷ ts) =
    let rest = join ts in if is_nil ts then tier_name t else tier_name t ++ (codes "+" ++ rest)

-- `Decision.Why`.
unfoldable pub why : Decision → Text
unfolding join
why d =
    if is_nil d.tiers
    then d.reason
    else if is_nil d.reason
    then join d.tiers
    else join d.tiers ++ (codes ", " ++ d.reason)

-- The sum of an `int64`, as its bit pattern.
abbrev add_int64 : ℕ → ℕ → ℕ
add_int64 a b = (a + b) % 2 ^ 64

-- The loop of `Plan.Bytes`.
unfoldable bytes_from : ℕ → List Decision → ℕ
bytes_from total [] = total
bytes_from total (d ∷ ds) = bytes_from (add_int64 total d.backup.bytes) ds

-- `Plan.Bytes`.
unfoldable pub plan_bytes : Plan → ℕ
unfolding bytes_from
plan_bytes p = bytes_from 0 p.delete

-- The loop of `Plan.Keys`.
abbrev keys_of : List Decision → List String
keys_of [] = []
keys_of (d ∷ ds) = d.backup.keys ++ keys_of ds

-- `Plan.Keys`.
abbrev pub plan_keys : Plan → List String
plan_keys p = keys_of p.delete

abbrev pub ids_of : List Decision → List String
ids_of [] = []
ids_of (d ∷ ds) = d.backup.id ∷ ids_of ds

-- `Plan.KeptIDs`.
abbrev pub kept_ids : Plan → List String
kept_ids p = ids_of p.keep
