-- ===== src/Retention/Safety.antt =====
-- internal/retention/retention.go, invariants 2 and 3: the newest verified backup, and the plan after
-- a failed run.
use vaultd.Base.{
  ℕ, suc, ◌≤◌, ◌<◌, String, Bool, true, false, not, ◌&&◌, ◌||◌, Bool-cases, some, inl, inr, List,
  [], ◌∷◌, map, Text, is_nil, ◌≡◌, refl, In, In-filter, filter-In, In-perm, arith, =s=_self,
  empty_map, length, length-perm, length-append, ◌+◌, All-in, ap,
}
use mathlib.Core.List.Permᴰ
use vaultd.Retention.Types.{Tier, Policy, Backup, Decision, Input, Plan, kept}
use vaultd.Retention.Periods.{Civil, location, rungs}
use vaultd.Retention.Planner.{
  Sorts, IsNewestFirst, plan, plan_sorted, split, decide, keep_decisions, freeze, failed_reason,
  unlimited_reason, empty, newest_verified, verified_reasons, is_kept, tiers_from, floor_from,
  count_kept,
}
use vaultd.Retention.Floor.{floor_from-keeps, plan-floor}
use vaultd.Retention.Partition.{plan-partition, backups_of}

-- What a decision about a backup looks like in a list of decisions.
In-keep_decisions :
    (bs : List Backup) (t : Text) (b : Backup)
    → In b bs
    → In (record { backup = b; tiers = []; reason = t }) (keep_decisions bs t)
In-keep_decisions [] t b h = absurd h.1
In-keep_decisions (c ∷ bs) t b (inl e) =
    inl (ap (λ (x : Backup). record { backup = x; tiers = []; reason = t }) e)
In-keep_decisions (c ∷ bs) t b (inr h) = inr (In-keep_decisions bs t b h)

In-decide :
    (tiers : String → List Tier) (r : String → Text) (bs : List Backup) (b : Backup)
    → In b bs
    → In (decide tiers r b) (map (decide tiers r) bs)
In-decide tiers r [] b h = absurd h.1
In-decide tiers r (c ∷ bs) b (inl e) = inl (ap (decide tiers r) e)
In-decide tiers r (c ∷ bs) b (inr h) = inr (In-decide tiers r bs b h)

-- A backup that the maps keep stands in the plan.
pub In-split :
    (tiers : String → List Tier) (r : String → Text) (bs : List Backup) (b : Backup)
    → In b bs
    → is_kept tiers r b ≡ true
    → In (decide tiers r b) (split tiers r bs).keep
In-split tiers r bs b h k =
    In-filter kept (decide tiers r b) (map (decide tiers r) bs) (In-decide tiers r bs b h) k

-- The first verified backup of a list that is newest first is the newest one.
newest_verified-newest :
    (bs : List Backup) (b : Backup)
    → IsNewestFirst bs
    → In b bs
    → b.verified ≡ true
    → (v : Backup) × (newest_verified bs ≡ some v) × In v bs × (v.verified ≡ true) × (b.at ≤ v.at)
newest_verified-newest [] b s h t = absurd h.1
newest_verified-newest (c ∷ bs) b s (inl e) t =
    (c, rw (← e, t), inl refl, rw (← e) t, omega (arith, ap (λ (x : Backup). x.at) e))
newest_verified-newest (c ∷ bs) b s (inr h) t = elim (Bool-cases c.verified) [
  | inl e ↦ (c, rw e, inl refl, e, All-in (λ (x : Backup). x.at ≤ c.at) bs s.0 b h)
  | inr e ↦ let (v, p, i, q, l) = newest_verified-newest bs b s.1 h t in (v, rw e p, inr i, q, l)
]

verified_reasons-keep :
    (bs : List Backup) (tiers : String → List Tier) (v : Backup)
    → newest_verified bs ≡ some v
    → is_kept tiers (verified_reasons bs tiers) v ≡ true
verified_reasons-keep bs tiers v e =
    rw (e, verified_reasons)
      (elim (Bool-cases (is_nil (tiers v.id))) [ inl f ↦ rw (f, =s=_self v.id) | inr f ↦ rw f ])

-- A frozen plan keeps every backup.
freeze-keeps :
    (failed : Bool) (bs : List Backup) (p : Plan) (b : Backup) (d : Decision)
    → In b bs
    → In d p.keep
    → d.backup ≡ b
    → (d' : Decision) × In d' (freeze failed bs p).keep × (d'.backup ≡ b)
freeze-keeps failed bs p b d h k e = elim (Bool-cases (failed && not (is_nil p.delete))) [
  | inl f ↦ (
    record { backup = b; tiers = []; reason = failed_reason },
    rw f (In-keep_decisions bs failed_reason b h),
    refl,
  )
  | inr f ↦ (d, rw f k, e)
]

plan_sorted-verified :
    (civil : String → ℕ → Civil) (p : Policy) (failed : Bool) (bs : List Backup) (v : Backup)
    → newest_verified bs ≡ some v
    → In v bs
    → (d : Decision) × In d (plan_sorted civil p failed bs).keep × (d.backup ≡ v)
unfolding plan_sorted
plan_sorted-verified civil p failed bs v e h =
    let tiers = tiers_from civil p bs (location p) rungs (empty_map []) in
    let r = verified_reasons bs tiers in
    let r' = floor_from p.min_keep tiers r (count_kept bs tiers r) bs in
    freeze-keeps failed bs (split tiers r' bs) v (decide tiers r' v) h
      (In-split tiers r' bs v h (
        floor_from-keeps tiers p.min_keep r (count_kept bs tiers r) bs v
          (verified_reasons-keep bs tiers v e)))
      refl

-- If any backup of the input is verified, the plan keeps a verified backup that is no older than
-- it, whatever the tiers, the floor and the last run are, if the sort only rearranges, newest
-- first.
pub plan-verified :
    (sort : List Backup → List Backup) (civil : String → ℕ → Civil) (sorts : Sorts sort)
    (p : Policy) (i : Input) (b : Backup)
    → In b i.backups
    → b.verified ≡ true
    → (d : Decision) × In d (plan sort civil p i).keep
      × (d.backup.verified ≡ true)
      × (b.at ≤ d.backup.at)
unfolding plan
plan-verified sort civil sorts p i b h t =
    let (v, e, k, q, l) =
      newest_verified-newest (sort i.backups) b (sorts.newest_first i.backups)
        (In-perm b (Permᴰ.symm (sorts.permutes i.backups)) h) t in
    elim (Bool-cases (is_nil (sort i.backups))) [
      | inl n ↦ absurd (not_nil (sort i.backups) v k n)
      | inr n ↦ rw n (elim (Bool-cases (empty p)) [
        | inl f ↦ rw f (
          record { backup = v; tiers = []; reason = unlimited_reason },
          In-keep_decisions (sort i.backups) unlimited_reason v k,
          q,
          l,
        )
        | inr f ↦
            let (d, m, s) = plan_sorted-verified civil p i.last_run_failed (sort i.backups) v e k in
            rw f (d, m, rw s q, rw s l)
      ])
    ]
  where
    not_nil : (bs : List Backup) (v : Backup) → In v bs → is_nil bs ≡ true → ⊥
    not_nil [] v k n = k.1
    not_nil (c ∷ bs) v k n = cc

length-backups_of : (ds : List Decision) → length (backups_of ds) ≡ length ds
length-backups_of [] = refl
length-backups_of (d ∷ ds) = ap suc (length-backups_of ds)

length-In : (d : Decision) (ds : List Decision) → In d ds → 0 < length ds
length-In d [] h = absurd h.1
length-In d (e ∷ ds) h = omega arith

-- A split deletes nothing that a tier or a reason keeps.
split-delete :
    (tiers : String → List Tier) (r : String → Text) (bs : List Backup) (d : Decision)
    → In d (split tiers r bs).delete
    → (d.tiers ≡ []) × (d.reason ≡ [])
split-delete tiers r bs d h =
    nothing d.tiers d.reason (filter-In (λ d. not (kept d)) d (map (decide tiers r) bs) h).1
  where
    nothing :
        (ts : List Tier) (t : Text)
        → not (not (is_nil ts) || not (is_nil t)) ≡ true
        → (ts ≡ []) × (t ≡ [])
    nothing [] [] e = (refl, refl)
    nothing [] (c ∷ t) e = cc
    nothing (t ∷ ts) [] e = cc
    nothing (t ∷ ts) (c ∷ u) e = cc

freeze-delete :
    (failed : Bool) (bs : List Backup) (p : Plan) (d : Decision)
    → In d (freeze failed bs p).delete
    → (failed ≡ false) × In d p.delete
freeze-delete true bs p d h = absurd (none_left p.delete refl h)
  where
    none_left : (ds : List Decision) → ds ≡ p.delete → In d (freeze true bs p).delete → ⊥
    none_left [] e m = (rw (← e) at m).1
    none_left (c ∷ ds) e m = (rw (← e) at m).1
freeze-delete false bs p d h = (refl, h)

-- The counts of both halves of a plan.
plan-length :
    (sort : List Backup → List Backup) (civil : String → ℕ → Civil) (sorts : Sorts sort)
    (p : Policy) (i : Input)
    → length (plan sort civil p i).keep + length (plan sort civil p i).delete ≡ length i.backups
plan-length sort civil sorts p i =
    let q = plan sort civil p i in
    omega (
      arith,
      length-perm (plan-partition sort civil sorts p i),
      length-append (backups_of q.keep) (backups_of q.delete),
      length-backups_of q.keep,
      length-backups_of q.delete,
    )

plan-delete_cause :
    (sort : List Backup → List Backup) (civil : String → ℕ → Civil) (p : Policy) (i : Input)
    (d : Decision)
    → In d (plan sort civil p i).delete
    → (i.last_run_failed ≡ false) × (empty p ≡ false) × (d.tiers ≡ []) × (d.reason ≡ [])
unfolding plan plan_sorted
plan-delete_cause sort civil p i d h = elim (Bool-cases (is_nil (sort i.backups))) [
  | inl n ↦ absurd (rw n at h).1
  | inr n ↦ elim (Bool-cases (empty p)) [
    | inl f ↦ absurd (rw f at (rw n at h)).1
    | inr f ↦
        let (a, b) = freeze-delete i.last_run_failed (sort i.backups) _ d (rw f at (rw n at h)) in
        let (u, v) = split-delete _ _ (sort i.backups) d b in (a, f, u, v)
  ]
]

-- A plan deletes a backup only if the last run did not fail, the policy keeps something in some
-- tier, no tier and no other reason keeps that backup, and at least `min_keep` backups stay.
pub plan-delete_justified :
    (sort : List Backup → List Backup) (civil : String → ℕ → Civil) (sorts : Sorts sort)
    (p : Policy) (i : Input) (d : Decision)
    → In d (plan sort civil p i).delete
    → (i.last_run_failed ≡ false)
      × (empty p ≡ false)
      × (d.tiers ≡ [])
      × (d.reason ≡ [])
      × (p.min_keep ≤ length (plan sort civil p i).keep)
plan-delete_justified sort civil sorts p i d h =
    let (a, b, c, e) = plan-delete_cause sort civil p i d h in
    (
      a,
      b,
      c,
      e,
      omega (
        arith,
        plan-floor sort civil sorts p i,
        plan-length sort civil sorts p i,
        length-In d (plan sort civil p i).delete h,
      ),
    )
