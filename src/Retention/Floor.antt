-- ===== src/Retention/Floor.antt =====
-- internal/retention/retention.go, invariant 1: the floor of `Policy.Plan`.
use vaultd.Base.{
  ◌∙◌, ℕ, suc, ◌+◌, ◌≤◌, min, String, Bool, true, not, List, [], ◌∷◌, Text, arith, ◌≡◌, refl, ◌⊎◌,
  inl, inr, Bool-cases, count, count-lt, count-all, ◌&&◌, empty_map, length, leb, is_nil, assign,
  In, length-perm, =s=_self, ap,
}
use vaultd.Retention.Types.{Tier, Policy, Backup, Input, Plan}
use vaultd.Retention.Periods.{Civil, location, rungs}
use vaultd.Retention.Planner.{
  is_kept, floor_reason, floor_from, Sorts, plan, plan_sorted, split, keep_decisions, freeze,
  failed_reason, unlimited_reason, empty, count_kept, verified_reasons, tiers_from,
}

module _ (tiers : String → List Tier) where
  is_kept-assign :
      (r : String → Text) (id : String) (n : ℕ) (b : Backup)
      → is_kept tiers r b ≡ true
      → is_kept tiers (assign r id (floor_reason n)) b ≡ true
  is_kept-assign r id n b h = ground arith

  is_kept-assign_self :
      (r : String → Text) (n : ℕ) (b : Backup)
      → is_kept tiers (assign r b.id (floor_reason n)) b ≡ true
  is_kept-assign_self r n b = ground (arith, =s=_self b.id)

  -- A reason is never taken back.
  pub floor_from-keeps :
      (m : ℕ) (r : String → Text) (n : ℕ) (bs : List Backup) (b : Backup)
      → is_kept tiers r b ≡ true
      → is_kept tiers (floor_from m tiers r n bs) b ≡ true
  unfolding floor_from
  floor_from-keeps m r n [] b h = h
  floor_from-keeps m r n (c ∷ bs) b h = elim (Bool-cases (leb m n)) [
    | inl e ↦ rw e h
    | inr e ↦ rw e (elim (Bool-cases (is_kept tiers r c)) [
      | inl k ↦ rw k (floor_from-keeps m r n bs b h)
      | inr k ↦ rw k (
          floor_from-keeps m (assign r c.id (floor_reason m)) (n + 1) bs b
            (is_kept-assign r c.id m b h))
    ])
  ]

  -- Enough backups are kept, or all that the loop has seen.
  floor_from-reaches :
      (m : ℕ) (r : String → Text) (n : ℕ) (bs all : List Backup)
      → n ≤ count (is_kept tiers r) all
      → ((b : Backup) → In b bs → In b all)
      → (m ≤ count (is_kept tiers (floor_from m tiers r n bs)) all)
        ⊎ ((b : Backup) → In b bs → is_kept tiers (floor_from m tiers r n bs) b ≡ true)
  unfolding floor_from
  floor_from-reaches m r n [] all h sub = inr (λ b i. absurd i.1)
  floor_from-reaches m r n (c ∷ bs) all h sub = elim (Bool-cases (leb m n)) [
    | inl e ↦ rw e (inl (ground arith))
    | inr e ↦ rw e (elim (Bool-cases (is_kept tiers r c)) [
      | inl k ↦ rw k (with_head r n k (floor_from-reaches m r n bs all h (λ b i. sub b (inr i))))
      | inr k ↦
          let r' = assign r c.id (floor_reason m) in
          rw k (
            with_head r' (n + 1) (is_kept-assign_self r m c) (
              floor_from-reaches m r' (n + 1) bs all
                (omega (
                  arith,
                  count-lt (is_kept tiers r) (is_kept tiers r') (λ b. is_kept-assign r c.id m b) c
                      all (sub c (inl refl)) k (is_kept-assign_self r m c),
                ))
                (λ b i. sub b (inr i))))
    ])
  ]
    where
      with_head :
          (s : String → Text) (k : ℕ)
          → is_kept tiers s c ≡ true
          → ((m ≤ count (is_kept tiers (floor_from m tiers s k bs)) all)
              ⊎ ((b : Backup) → In b bs → is_kept tiers (floor_from m tiers s k bs) b ≡ true))
          → (m ≤ count (is_kept tiers (floor_from m tiers s k bs)) all)
            ⊎ ((b : Backup) → In b (c ∷ bs) → is_kept tiers (floor_from m tiers s k bs) b ≡ true)
      with_head s k hc (inl g) = inl g
      with_head s k hc (inr g) =
          inr (λ b i. elim i [ inl e ↦ rw e (floor_from-keeps m s k bs c hc) | inr i' ↦ g b i' ])

  -- So the loop keeps the smaller of the floor and the number of backups.
  floor_from-floor :
      (m : ℕ) (r : String → Text) (bs : List Backup)
      → min m (length bs)
        ≤ count (is_kept tiers (floor_from m tiers r (count_kept bs tiers r) bs)) bs
  floor_from-floor m r bs =
      elim (floor_from-reaches m r (count_kept bs tiers r) bs bs (omega arith) (λ b i. i)) [
        | inl h ↦ omega arith
        | inr h ↦ omega (
          arith,
          count-all (is_kept tiers (floor_from m tiers r (count_kept bs tiers r) bs)) bs h,
        )
      ]

  length-keep :
      (r : String → Text) (bs : List Backup)
      → length (split tiers r bs).keep ≡ count (is_kept tiers r) bs
  length-keep r [] = refl
  length-keep r (b ∷ bs) = ground (arith, length-keep r bs)

length-keep_decisions : (bs : List Backup) (t : Text) → length (keep_decisions bs t) ≡ length bs
length-keep_decisions [] t = refl
length-keep_decisions (b ∷ bs) t = ap suc (length-keep_decisions bs t)

freeze-floor :
    (failed : Bool) (bs : List Backup) (p : Plan) (n : ℕ)
    → n ≤ length p.keep
    → n ≤ length bs
    → n ≤ length (freeze failed bs p).keep
freeze-floor failed bs p n h k = elim (Bool-cases (failed && not (is_nil p.delete))) [
  | inl e ↦ rw e (omega (arith, length-keep_decisions bs failed_reason))
  | inr e ↦ rw e h
]

plan_sorted-floor :
    (civil : String → ℕ → Civil) (p : Policy) (failed : Bool) (bs : List Backup)
    → min p.min_keep (length bs) ≤ length (plan_sorted civil p failed bs).keep
unfolding plan_sorted
plan_sorted-floor civil p failed bs =
    let tiers = tiers_from civil p bs (location p) rungs (empty_map []) in
    let r = verified_reasons bs tiers in
    let r' = floor_from p.min_keep tiers r (count_kept bs tiers r) bs in
    freeze-floor failed bs (split tiers r' bs) (min p.min_keep (length bs))
      (omega (arith, floor_from-floor tiers p.min_keep r bs, length-keep tiers r' bs)) (omega arith)

-- Whatever the tiers say, a plan keeps at least as many backups as the smaller of `min_keep` and
-- the number of backups there are, if the sort only rearranges, newest first.
pub plan-floor :
    (sort : List Backup → List Backup) (civil : String → ℕ → Civil) (sorts : Sorts sort)
    (p : Policy) (i : Input)
    → min p.min_keep (length i.backups) ≤ length (plan sort civil p i).keep
unfolding plan
plan-floor sort civil sorts p i = elim (Bool-cases (is_nil (sort i.backups))) [
  | inl e ↦ rw e (omega (arith, same, nil_length (sort i.backups) e))
  | inr e ↦ rw e (elim (Bool-cases (empty p)) [
    | inl f ↦ rw f (omega (arith, same, length-keep_decisions (sort i.backups) unlimited_reason))
    | inr f ↦
        rw f (omega (arith, same, plan_sorted-floor civil p i.last_run_failed (sort i.backups)))
  ])
]
  where
    same : length (sort i.backups) ≡ length i.backups
    same = length-perm (sorts.permutes i.backups)

    nil_length : (bs : List Backup) → is_nil bs ≡ true → length bs ≡ 0
    nil_length [] e = refl
    nil_length (b ∷ bs) e = cc

-- A policy without tiers keeps every backup.
pub plan-unlimited :
    (sort : List Backup → List Backup) (civil : String → ℕ → Civil) (sorts : Sorts sort)
    (p : Policy) (i : Input)
    → empty p ≡ true
    → length (plan sort civil p i).keep ≡ length i.backups
unfolding plan
plan-unlimited sort civil sorts p i h = elim (Bool-cases (is_nil (sort i.backups))) [
  | inl e ↦
      rw e (omega (arith, length-perm (sorts.permutes i.backups), nil_size (sort i.backups) e))
  | inr e ↦
      rw (e, h)
        (length-keep_decisions (sort i.backups) unlimited_reason
          ∙ length-perm (sorts.permutes i.backups))
]
  where
    nil_size : (bs : List Backup) → is_nil bs ≡ true → length bs ≡ 0
    nil_size [] e = refl
    nil_size (b ∷ bs) e = cc
