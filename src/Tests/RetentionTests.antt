-- ===== src/Tests/RetentionTests.antt =====
-- Instances of the theorems about internal/retention at a policy that keeps two days, with three
-- backups, the middle one verified.
use mathlib.Core.List.{Permᴰ}
use mathlib.Core.List.Permᴰ
use vaultd.Base.{
  ℕ, ◌/◌, ◌%◌, ◌≤◌, String, true, false, none, List, [], ◌∷◌, leb, if◌then◌else◌, ◌≡◌, ◌↔◌, refl,
  inl, inr, In, All, Bool-cases, arith, leb→le, length, min, take, Text, decimal, codes,
}
use vaultd.Retention.Types.{
  daily, weekly, Policy, Backup, Decision, Input, why, plan_bytes, plan_keys, kept_ids,
}
use vaultd.Retention.Periods.{Civil, Bucket, period_key, survivors, location}
use vaultd.Retention.Planner.{Sorts, IsNewestFirst, plan, plan_sorted, empty}
use vaultd.Retention.Floor.{plan-floor}
use vaultd.Retention.Partition.{plan-partition, all_backups}
use vaultd.Retention.Safety.{plan-verified, plan-delete_justified}
use vaultd.Retention.Collect.{period, periods}
use vaultd.Retention.Tiers.{plan-tiers}
use vaultd.Retention.Calendar.{SamePeriod, period_key_iff}

insert : Backup → List Backup → List Backup
insert b [] = b ∷ []
insert b (c ∷ bs) = let rest = insert b bs in if leb c.at b.at then b ∷ c ∷ bs else c ∷ rest

-- Insertion sort, newest first.
unfoldable pub sort : List Backup → List Backup
unfolding insert
sort [] = []
sort (b ∷ bs) = insert b (sort bs)

insert-permutes : (b : Backup) (bs : List Backup) → Permᴰ (insert b bs) (b ∷ bs)
unfolding insert
insert-permutes b [] = Permᴰ.refl (b ∷ [])
insert-permutes b (c ∷ bs) = elim (Bool-cases (leb c.at b.at)) [
  | inl e ↦ rw e (Permᴰ.refl (b ∷ c ∷ bs))
  | inr e ↦ rw e (Permᴰ.trans (Permᴰ.cons refl (insert-permutes b bs)) (Permᴰ.swap refl refl))
]

sort-permutes : (bs : List Backup) → Permᴰ (sort bs) bs
unfolding sort
sort-permutes [] = Permᴰ.nil
sort-permutes (b ∷ bs) =
    Permᴰ.trans (insert-permutes b (sort bs)) (Permᴰ.cons refl (sort-permutes bs))

All-insert :
    (m : ℕ) (b : Backup) (bs : List Backup)
    → b.at ≤ m
    → All (λ (c : Backup). c.at ≤ m) bs
    → All (λ (c : Backup). c.at ≤ m) (insert b bs)
unfolding insert
All-insert m b [] h k = (h, tt)
All-insert m b (c ∷ bs) h k = elim (Bool-cases (leb c.at b.at)) [
  | inl e ↦ rw e (h, k)
  | inr e ↦ rw e (k.0, All-insert m b bs h k.1)
]

All-weaken :
    (m n : ℕ) (bs : List Backup)
    → m ≤ n
    → All (λ (c : Backup). c.at ≤ m) bs
    → All (λ (c : Backup). c.at ≤ n) bs
All-weaken m n [] h k = tt
All-weaken m n (b ∷ bs) h k = (omega (arith, k.0), All-weaken m n bs h k.1)

insert-newest : (b : Backup) (bs : List Backup) → IsNewestFirst bs → IsNewestFirst (insert b bs)
unfolding insert
insert-newest b [] h = (tt, tt)
insert-newest b (c ∷ bs) h = elim (Bool-cases (leb c.at b.at)) [
  | inl e ↦ rw e ((leb→le c.at b.at e, All-weaken c.at b.at bs (leb→le c.at b.at e) h.0), h)
  | inr e ↦
      let small : b.at ≤ c.at = ground arith in
      rw e (All-insert c.at b bs small h.0, insert-newest b bs h.1)
]

sort-newest : (bs : List Backup) → IsNewestFirst (sort bs)
unfolding sort
sort-newest [] = tt
sort-newest (b ∷ bs) = insert-newest b (sort bs) (sort-newest bs)

pub sort-Sorts : Sorts sort
sort-Sorts = record { permutes = sort-permutes; newest_first = sort-newest }

-- A calendar of days of 100 ticks, weeks of 7 days and months of 30.
abbrev pub civil : String → ℕ → Civil
civil loc at = record {
  year = 2026;
  month = at / 3000;
  day = at / 100 % 30;
  hour = at % 100;
  weekday = at / 100 % 7;
  iso_year = 2026;
  iso_week = at / 700;
}

abbrev pub policy : Policy
policy = record {
  hourly = record { keep = 0 };
  daily = record { keep = 2 };
  weekly = record { keep = 0; on = 0 };
  monthly = record { keep = 0; on = 1 };
  yearly = record { keep = 0 };
  min_keep = 1;
  location = none;
}

abbrev monday : Backup
monday = record { id = "a"; at = 110; verified = true; bytes = 5; keys = "ka" ∷ [] }

abbrev early : Backup
early = record { id = "z"; at = 105; verified = false; bytes = 4; keys = "kz" ∷ [] }

abbrev tuesday : Backup
tuesday = record { id = "b"; at = 220; verified = false; bytes = 6; keys = "kb" ∷ [] }

abbrev wednesday : Backup
wednesday = record { id = "c"; at = 330; verified = false; bytes = 7; keys = "kc" ∷ [] }

abbrev pub input : Input
input = record {
  backups = monday ∷ wednesday ∷ early ∷ tuesday ∷ [];
  now = 400;
  last_run_failed = false;
}

-- The last two days are kept by their tier, the verified backup by its reason.
kept_test : kept_ids (plan sort civil policy input) ≡ "c" ∷ "b" ∷ "a" ∷ []
unfolding plan plan_sorted survivors sort
kept_test = refl

deleted_test : plan_keys (plan sort civil policy input) ≡ "kz" ∷ []
unfolding plan plan_sorted survivors sort
deleted_test = refl

bytes_test : plan_bytes (plan sort civil policy input) ≡ 4
unfolding plan plan_sorted survivors sort plan_bytes
bytes_test = refl

why_test :
    why (record { backup = monday; tiers = daily ∷ weekly ∷ []; reason = [] })
    ≡ codes "daily+weekly"
unfolding why
why_test = refl

decimal_test : decimal 2026 ≡ codes "2026"
unfolding decimal
decimal_test = refl

plan-floor_example : min 1 4 ≤ length (plan sort civil policy input).keep
plan-floor_example = plan-floor sort civil sort-Sorts policy input

plan-partition_example : Permᴰ (all_backups (plan sort civil policy input)) input.backups
plan-partition_example = plan-partition sort civil sort-Sorts policy input

plan-verified_example :
    (d : Decision) × In d (plan sort civil policy input).keep
    × (d.backup.verified ≡ true)
    × (monday.at ≤ d.backup.at)
plan-verified_example = plan-verified sort civil sort-Sorts policy input monday (inl refl) refl

abbrev expired : Decision
expired = record { backup = early; tiers = []; reason = [] }

In-deleted : In expired (plan sort civil policy input).delete
unfolding plan plan_sorted survivors sort
In-deleted = inl refl

plan-delete_justified_example :
    (input.last_run_failed ≡ false)
    × (empty policy ≡ false)
    × (expired.tiers ≡ [])
    × (expired.reason ≡ [])
    × (policy.min_keep ≤ length (plan sort civil policy input).keep)
plan-delete_justified_example =
    plan-delete_justified sort civil sort-Sorts policy input expired In-deleted

abbrev last_day : Text
last_day = period_key daily (civil "UTC" 330)

In-periods : In last_day (take 2 (periods civil daily (location policy) (sort input.backups)))
unfolding sort
In-periods = inl refl

plan-tiers_example :
    (d : Decision) × In d (plan sort civil policy input).keep
    × (period civil daily (location policy) d.backup ≡ last_day)
    × In daily d.tiers
plan-tiers_example = plan-tiers sort civil policy input daily last_day refl In-periods

abbrev week : Bucket
week = record { first = wednesday; others = tuesday ∷ monday ∷ [] }

abbrev on_monday : Policy
on_monday = record policy { weekly = record { keep = 4; on = 1 } }

period_key_iff_example :
    (period_key daily (civil "UTC" 330) ≡ period_key daily (civil "UTC" 340))
    ↔ SamePeriod daily (civil "UTC" 330) (civil "UTC" 340)
period_key_iff_example =
    period_key_iff daily (civil "UTC" 330) (civil "UTC" 340) (omega arith) (omega arith)
