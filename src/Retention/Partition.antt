-- ===== src/Retention/Partition.antt =====
-- internal/retention/retention.go: the backups of a plan, against those of its input.
use mathlib.Core.List.{map-append}
use mathlib.Core.List.Permᴰ
use vaultd.Base.{
  String, ℕ, Bool-cases, inl, inr, List, [], ◌∷◌, ◌++◌, map, Bool, Permᴰ, Text, is_nil, ◌≡◌, refl,
  ap, true, not, ◌&&◌, filter, filter-partition,
}
use mathlib.Core.List.{append-nil}
use vaultd.Retention.Types.{Tier, Policy, Backup, Decision, Input, Plan, kept}
use vaultd.Retention.Periods.{Civil}
use vaultd.Retention.Planner.{
  Sorts, plan, plan_sorted, split, decide, keep_decisions, freeze, failed_reason, unlimited_reason,
  empty,
}

abbrev pub backups_of : List Decision → List Backup
backups_of = map (λ (d : Decision). d.backup)

-- The backups of both halves of a plan.
abbrev pub all_backups : Plan → List Backup
all_backups p = backups_of p.keep ++ backups_of p.delete

backups_of-keep_decisions : (bs : List Backup) (t : Text) → backups_of (keep_decisions bs t) ≡ bs
backups_of-keep_decisions [] t = refl
backups_of-keep_decisions (b ∷ bs) t = ap (◌∷◌ b) (backups_of-keep_decisions bs t)

backups_of-decide :
    (tiers : String → List Tier) (r : String → Text) (bs : List Backup)
    → backups_of (map (decide tiers r) bs) ≡ bs
backups_of-decide tiers r [] = refl
backups_of-decide tiers r (b ∷ bs) = ap (◌∷◌ b) (backups_of-decide tiers r bs)

keep_all-all : (bs : List Backup) (t : Text) → backups_of (keep_decisions bs t) ++ [] ≡ bs
keep_all-all bs t =
    rw (append-nil (backups_of (keep_decisions bs t))) (backups_of-keep_decisions bs t)

split-all :
    (tiers : String → List Tier) (r : String → Text) (bs : List Backup)
    → Permᴰ (all_backups (split tiers r bs)) bs
split-all tiers r bs =
    let all = map (decide tiers r) bs in
    let moved = Permᴰ.map (λ (d : Decision). d.backup) (filter-partition kept all) in
    rw (backups_of-decide tiers r bs) at (
      rw
        (map-append (λ (d : Decision). d.backup) (filter kept all) (filter (λ d. not (kept d)) all))
        at moved)

freeze-all :
    (failed : Bool) (bs : List Backup) (p : Plan)
    → Permᴰ (all_backups p) bs
    → Permᴰ (all_backups (freeze failed bs p)) bs
freeze-all failed bs p h = elim (Bool-cases (failed && not (is_nil p.delete))) [
  | inl e ↦ rw (e, keep_all-all bs failed_reason) (Permᴰ.refl bs)
  | inr e ↦ rw e h
]

-- Every backup of the input is either kept or deleted, exactly once: both halves of a plan together
-- are a rearrangement of the input's backups, if the sort only rearranges, newest first.
pub plan-partition :
    (sort : List Backup → List Backup) (civil : String → ℕ → Civil) (sorts : Sorts sort)
    (p : Policy) (i : Input)
    → Permᴰ (all_backups (plan sort civil p i)) i.backups
unfolding plan plan_sorted
plan-partition sort civil sorts p i = Permᴰ.trans sorted (sorts.permutes i.backups)
  where
    none_left : (bs : List Backup) → is_nil bs ≡ true → Permᴰ [] bs
    none_left [] e = Permᴰ.nil
    none_left (b ∷ bs) e = cc

    sorted : Permᴰ (all_backups (plan sort civil p i)) (sort i.backups)
    sorted = elim (Bool-cases (is_nil (sort i.backups))) [
      | inl e ↦ rw e (none_left (sort i.backups) e)
      | inr e ↦ rw e (elim (Bool-cases (empty p)) [
        | inl f ↦
            rw (f, keep_all-all (sort i.backups) unlimited_reason) (Permᴰ.refl (sort i.backups))
        | inr f ↦ rw f (freeze-all i.last_run_failed (sort i.backups) _ (split-all _ _ _))
      ])
    ]
