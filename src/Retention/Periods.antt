-- ===== src/Retention/Periods.antt =====
-- internal/retention/retention.go: which period a backup falls in, and which backup stands for a
-- period. `at.In(location)` is a parameter, `civil`: the rules of the time zones are data of the
-- system and not of the program.
use vaultd.Base.{
  ℕ, String, Bool, Option, none, some, List, [], ◌∷◌, ◌++◌, ◌==◌, if◌then◌else◌, Text, codes,
  codes_eq, pad2, pad4, take, leb,
}
use vaultd.Retention.Types.{Tier, hourly, daily, weekly, monthly, yearly, Policy, Backup}

-- What the program reads of a local time.
pub record Civil : Type 0 where
  pub year : ℕ
  pub month : ℕ
  pub day : ℕ
  pub hour : ℕ
  pub weekday : ℕ
  pub iso_year : ℕ
  pub iso_week : ℕ

-- A bucket is never empty: it is made with its first backup, the newest.
pub record Bucket : Type 0 where
  pub first : Backup
  pub others : List Backup

-- `Policy.keepOf`.
abbrev pub keep_of : Policy → Tier → ℕ
keep_of p hourly = p.hourly.keep
keep_of p daily = p.daily.keep
keep_of p weekly = p.weekly.keep
keep_of p monthly = p.monthly.keep
keep_of p yearly = p.yearly.keep

-- `Policy.rungs`.
abbrev pub rungs : List Tier
rungs = hourly ∷ daily ∷ weekly ∷ monthly ∷ yearly ∷ []

-- `Policy.location`.
abbrev pub location : Policy → String
location p = elim p.location [ none ↦ "UTC" | some l ↦ l ]

-- The key of a period, by the layout of its tier.
abbrev pub period_key : Tier → Civil → Text
period_key hourly c =
    pad4 c.year
    ++ (codes "-" ++ (pad2 c.month ++ (codes "-" ++ (pad2 c.day ++ (codes "T" ++ pad2 c.hour)))))
period_key daily c = pad4 c.year ++ (codes "-" ++ (pad2 c.month ++ (codes "-" ++ pad2 c.day)))
period_key weekly c = pad4 c.iso_year ++ (codes "-W" ++ pad2 c.iso_week)
period_key monthly c = pad4 c.year ++ (codes "-" ++ pad2 c.month)
period_key yearly c = pad4 c.year

-- The backup that was found, or the newest of the bucket.
abbrev pub or_first : Option Backup → Bucket → Backup
or_first none k = k.first
or_first (some b) k = b

module _ (civil : String → ℕ → Civil) where
  -- `bucketKey`.
  abbrev pub bucket_key : ℕ → Tier → String → Text
  bucket_key at t loc = period_key t (civil loc at)

  -- The loops of `representative`: the first backup of a bucket that passes a test.
  abbrev pub first_where : (Civil → Bool) → String → List Backup → Option Backup
  first_where p loc [] = none
  first_where p loc (b ∷ bs) =
      let rest = first_where p loc bs in if p (civil loc b.at) then some b else rest

  -- `Policy.representative`.
  unfoldable pub representative : Policy → Tier → Bucket → String → Backup
  representative p weekly k loc =
      or_first (first_where (λ c. c.weekday == p.weekly.on) loc (k.first ∷ k.others)) k
  representative p monthly k loc =
      or_first (first_where (λ c. c.day == p.monthly.on) loc (k.first ∷ k.others)) k
  representative p hourly k loc = k.first
  representative p daily k loc = k.first
  representative p yearly k loc = k.first

-- `buckets[key] = append(buckets[key], backup)`.
abbrev pub push : Option Bucket → Backup → Bucket
push none b = record { first = b; others = [] }
push (some k) b = record k { others = k.others ++ b ∷ [] }

unfoldable pub put_bucket : (Text → Option Bucket) → Text → Backup → Text → Option Bucket
put_bucket m key b j = if codes_eq j key then some (push (m key) b) else m j

unfoldable pub add_period : (Text → Option Bucket) → Text → List Text → List Text
add_period m key order = elim (m key) [ none ↦ order ++ key ∷ [] | some k ↦ order ]

module _ (civil : String → ℕ → Civil) (t : Tier) (loc : String) where
  -- The loop of `survivors`: the periods in the order in which they are met, and the buckets.
  unfoldable pub collect :
      List Text → (Text → Option Bucket) → List Backup → List Text × (Text → Option Bucket)
  collect order buckets [] = (order, buckets)
  collect order buckets (b ∷ bs) =
      let key = bucket_key civil b.at t loc in
      collect (add_period buckets key order) (put_bucket buckets key b) bs

  -- The second loop. Every period of the order has a bucket.
  unfoldable pub ids_from : Policy → (Text → Option Bucket) → List Text → List String
  ids_from p buckets [] = []
  ids_from p buckets (key ∷ keys) =
      let rest = ids_from p buckets keys in
      elim (buckets key) [ none ↦ rest | some k ↦ (representative civil p t k loc).id ∷ rest ]

-- `Policy.survivors`.
unfoldable pub survivors : (String → ℕ → Civil) → Policy → Tier → List Backup → String → List String
unfolding collect ids_from representative add_period put_bucket
survivors civil p t newest_first loc =
    if leb (keep_of p t) 0
    then []
    else (let (order, buckets) = collect civil t loc [] (λ _. none) newest_first in
        ids_from civil t loc p buckets (take (keep_of p t) order))
