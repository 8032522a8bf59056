-- ===== src/Config/Retained.antt =====
-- About internal/config/validate.go with internal/app/app.go: what an accepted retention does to a plan.
use vaultd.Base.{
  ℕ, ◌≤◌, min, String, Bool, true, false, Option, none, some, List, [], ◌∷◌, ◌++◌, ◌==◌, length,
  ◌≡◌, refl, arith, Bool-cases, inl, inr,
}
use vaultd.Pipeline.Int.{ℤ}
use vaultd.Config.Types.{
  Diagnostic, accepted, when, error_at, Retention, is_empty, TierRule, DayRule,
}
use vaultd.Config.Stages.{
  validate_retention, validate_tiers, validate_day, negative_keeps, keeps, sums_to_zero, magnitude,
  policy_of,
}
use vaultd.Retention.Types.{Backup, Policy, Input}
use vaultd.Retention.Periods.{Civil}
use vaultd.Retention.Planner.{Sorts, plan, empty}
use vaultd.Retention.Floor.{plan-floor, plan-unlimited}

pub accepted-append :
    (xs ys : List Diagnostic)
    → accepted (xs ++ ys) ≡ true
    → (accepted xs ≡ true) × (accepted ys ≡ true)
accepted-append [] ys h = (refl, h)
accepted-append (x ∷ xs) ys h = elim (Bool-cases x.is_error) [
  | inl e ↦ absurd (ground (arith, simp e at h))
  | inr e ↦ rw e (accepted-append xs ys (simp e at h))
]

pub accepted-when : (b : Bool) (f : String) → accepted (when b (error_at f)) ≡ true → b ≡ false
accepted-when true f h = absurd (ground (arith, h))
accepted-when false f h = refl

-- What the checks of the tiers leave.
accepted-tiers :
    (r : Retention)
    → accepted (validate_tiers r) ≡ true
    → (accepted (negative_keeps (keeps r)) ≡ true)
      × (sums_to_zero (keeps r) ≡ false)
      × ((magnitude r.min_keep == 0) ≡ false)
accepted-tiers r h =
    let a = accepted-append (validate_day 0 6 "retention.weekly.on" r.weekly) _ h in
    let b = accepted-append (validate_day 1 28 "retention.monthly.on" r.monthly) _ a.1 in
    let c = accepted-append (negative_keeps (keeps r)) _ b.1 in
    let d = accepted-append (when (sums_to_zero (keeps r)) (error_at "retention")) _ c.1 in
    (
      c.0,
      accepted-when (sums_to_zero (keeps r)) "retention" d.0,
      accepted-when (magnitude r.min_keep == 0) "retention.min_keep" d.1,
    )

abbrev retention :
    Option TierRule
    → Option TierRule
    → Option DayRule
    → Option DayRule
    → Option TierRule
    → ℤ
    → Retention
retention h d w m y k = record {
  hourly = h;
  daily = d;
  weekly = w;
  monthly = m;
  yearly = y;
  min_keep = k;
}

no_tiers :
    (h d : Option TierRule) (w m : Option DayRule) (y : Option TierRule) (k : ℤ)
    → is_empty (retention h d w m y k) ≡ true
    → empty (policy_of (some (retention h d w m y k))) ≡ true
unfolding policy_of
no_tiers (some a) d w m y k e = absurd (ground (arith, e))
no_tiers none (some a) w m y k e = absurd (ground (arith, e))
no_tiers none none (some a) m y k e = absurd (ground (arith, e))
no_tiers none none none (some a) y k e = absurd (ground (arith, e))
no_tiers none none none none (some a) k e = absurd (ground (arith, e))
no_tiers none none none none none k e = refl

min_keep-floor :
    (sort : List Backup → List Backup) (civil : String → ℕ → Civil) (sorts : Sorts sort)
    (p : Policy) (i : Input)
    → (p.min_keep == 0) ≡ false
    → min 1 (length i.backups) ≤ length (plan sort civil p i).keep
min_keep-floor sort civil sorts p i h = ground (arith, plan-floor sort civil sorts p i, h)

-- If validation finds no error in the retention of a target, be it declared or not, then every plan for
-- backups of the target keeps at least one of them, if there is one and the sort only rearranges, newest
-- first.
pub validate_retention-plan :
    (sort : List Backup → List Backup) (civil : String → ℕ → Civil) (sorts : Sorts sort)
    (r : Option Retention) (i : Input)
    → accepted (validate_retention r) ≡ true
    → min 1 (length i.backups) ≤ length (plan sort civil (policy_of r) i).keep
unfolding validate_retention policy_of
validate_retention-plan sort civil sorts none i h =
    min_keep-floor sort civil sorts (policy_of none) i refl
validate_retention-plan sort civil sorts (some r) i h = elim (Bool-cases (is_empty r)) [
  | inl e ↦
      let none_declared = no_tiers r.hourly r.daily r.weekly r.monthly r.yearly r.min_keep e in
      omega (arith, plan-unlimited sort civil sorts (policy_of (some r)) i none_declared)
  | inr e ↦
      min_keep-floor sort civil sorts (policy_of (some r)) i (accepted-tiers r (simp e at h)).2
]
