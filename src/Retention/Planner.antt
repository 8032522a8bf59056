-- ===== src/Retention/Planner.antt =====
-- internal/retention/retention.go: `Policy.Plan`. `sort` stands for `sort.Slice`, which is not
-- stable: all that the proofs use of it is `Sorts`.
use mathlib.Core.List.{Permᴰ}
use vaultd.Base.{
  ℕ, ◌+◌, ◌≤◌, String, Bool, not, ◌&&◌, ◌||◌, Option, none, some, List, [], ◌∷◌, ◌++◌, map,
  if◌then◌else◌, leb, is_nil, Text, codes, decimal, empty_map, assign, count, filter, all_of, All,
}
use vaultd.Retention.Types.{Tier, Policy, Backup, Decision, Input, Plan, kept}
use vaultd.Retention.Periods.{Civil, keep_of, rungs, location, survivors}

-- No backup is followed by a later one.
abbrev pub IsNewestFirst : List Backup → Type 0
IsNewestFirst [] = Unit
IsNewestFirst (b ∷ bs) = All (λ (c : Backup). c.at ≤ b.at) bs × IsNewestFirst bs

-- What `sort.Slice` with `At.After` promises.
pub record Sorts (sort : List Backup → List Backup) : Type 0 where
  pub permutes : (bs : List Backup) → Permᴰ (sort bs) bs
  pub newest_first : (bs : List Backup) → IsNewestFirst (sort bs)

-- `Policy.empty`.
abbrev pub empty : Policy → Bool
empty p = all_of (λ t. leb (keep_of p t) 0) rungs

abbrev pub keep_decisions : List Backup → Text → List Decision
keep_decisions bs reason = map (λ b. record { backup = b; tiers = []; reason = reason }) bs

-- `keepAll`.
abbrev keep_all : List Backup → Text → Plan
keep_all bs reason = record { keep = keep_decisions bs reason; delete = []; blocked = [] }

-- The inner loop over the survivors of one tier.
unfoldable pub add_tier : Tier → (String → List Tier) → List String → String → List Tier
add_tier t tiers [] = tiers
add_tier t tiers (id ∷ ids) = add_tier t (assign tiers id (tiers id ++ t ∷ [])) ids

module _ (civil : String → ℕ → Civil) where
  -- The loop over the tiers.
  unfoldable pub tiers_from :
      Policy → List Backup → String → List Tier → (String → List Tier) → String → List Tier
  tiers_from p bs loc [] tiers = tiers
  tiers_from p bs loc (t ∷ ts) tiers =
      tiers_from p bs loc ts (add_tier t tiers (survivors civil p t bs loc))

-- `newestVerified`.
abbrev pub newest_verified : List Backup → Option Backup
newest_verified [] = none
newest_verified (b ∷ bs) = let rest = newest_verified bs in if b.verified then some b else rest

-- Whether the maps keep a backup.
abbrev pub is_kept : (String → List Tier) → (String → Text) → Backup → Bool
is_kept tiers reasons b = not (is_nil (tiers b.id)) || not (is_nil (reasons b.id))

-- `countKept`.
abbrev pub count_kept : List Backup → (String → List Tier) → (String → Text) → ℕ
count_kept bs tiers reasons = count (is_kept tiers reasons) bs

abbrev verified_reason : Text
verified_reason = codes "most recent verified backup"

abbrev pub floor_reason : ℕ → Text
floor_reason n = codes "min_keep floor of " ++ decimal n

abbrev pub unlimited_reason : Text
unlimited_reason = codes "no retention policy is configured, so nothing is ever deleted"

abbrev pub failed_reason : Text
failed_reason = codes "the most recent run of this target failed"

abbrev blocked_text : Text
blocked_text =
    codes "the most recent run of this target failed; retention is frozen until a backup succeeds"

-- Invariant 2.
abbrev pub verified_reasons : List Backup → (String → List Tier) → String → Text
verified_reasons bs tiers = elim (newest_verified bs) [
  | none ↦ empty_map []
  | some v ↦
      if is_nil (tiers v.id) then assign (empty_map []) v.id verified_reason else empty_map []
]

-- Invariant 1, the loop of the floor.
unfoldable pub floor_from :
    ℕ → (String → List Tier) → (String → Text) → ℕ → List Backup → String → Text
floor_from min_keep tiers reasons n [] = reasons
floor_from min_keep tiers reasons n (b ∷ bs) =
    let doomed = not (is_kept tiers reasons b) in
    let rest =
      floor_from min_keep tiers
        (if doomed then assign reasons b.id (floor_reason min_keep) else reasons)
        (if doomed then n + 1 else n) bs in
    if leb min_keep n then reasons else rest

abbrev pub decide : (String → List Tier) → (String → Text) → Backup → Decision
decide tiers reasons b = record { backup = b; tiers = tiers b.id; reason = reasons b.id }

-- The last loop: what is kept and what is not, in the order of the backups.
abbrev pub split : (String → List Tier) → (String → Text) → List Backup → Plan
split tiers reasons bs =
    let all = map (decide tiers reasons) bs in
    record { keep = filter kept all; delete = filter (λ d. not (kept d)) all; blocked = [] }

-- Invariant 3: a plan that deletes is blocked after a failed run.
abbrev pub freeze : Bool → List Backup → Plan → Plan
freeze failed bs p =
    if failed && not (is_nil p.delete)
    then record { keep = keep_decisions bs failed_reason; delete = []; blocked = blocked_text }
    else p

-- The plan of a policy that keeps something, for the sorted backups.
unfoldable pub plan_sorted : (String → ℕ → Civil) → Policy → Bool → List Backup → Plan
unfolding floor_from tiers_from add_tier
plan_sorted civil p failed bs =
    let tiers = tiers_from civil p bs (location p) rungs (empty_map []) in
    let reasons = verified_reasons bs tiers in
    freeze failed bs
      (split tiers (floor_from p.min_keep tiers reasons (count_kept bs tiers reasons) bs) bs)

-- `Policy.Plan`.
unfoldable pub plan : (List Backup → List Backup) → (String → ℕ → Civil) → Policy → Input → Plan
plan sort civil p i =
    let bs = sort i.backups in
    if is_nil bs
    then record { keep = []; delete = []; blocked = [] }
    else if empty p
    then keep_all bs unlimited_reason
    else plan_sorted civil p i.last_run_failed bs
