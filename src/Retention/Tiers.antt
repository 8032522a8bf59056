-- ===== src/Retention/Tiers.antt =====
-- internal/retention/retention.go: the loop over the tiers, from the survivors of a tier to the plan.
use vaultd.Base.{
  ℕ, suc, zero, String, true, false, Bool-cases, Option-cases, Option, none, some, inl, inr, List,
  [], ◌∷◌, ◌++◌, map, Text, is_nil, ◌≡◌, refl, In, filter-In, In-filter, take, leb, codes_eq,
  codes_eq_iff, arith, ap, sym, ◌∙◌, assign, subst, ◌=s=◌, =s=_iff, In-append_left, In-append_right,
  empty_map,
}
use vaultd.Retention.Types.{
  Tier, hourly, daily, weekly, monthly, yearly, Policy, Backup, Decision, Input,
}
use vaultd.Retention.Periods.{
  Civil, Bucket, collect, ids_from, survivors, representative, keep_of, rungs, location,
}
use vaultd.Retention.Planner.{
  add_tier, tiers_from, plan, plan_sorted, is_kept, decide, floor_from, verified_reasons,
  count_kept, empty,
}
use vaultd.Retention.Collect.{
  distinct, period, periods, members, collect-order, collect-bucket, extend,
}
use vaultd.Retention.Representative.{contents, representative-In}
use vaultd.Retention.Safety.{In-split}

In-take : (k : Text) (n : ℕ) (ks : List Text) → In k (take n ks) → In k ks
In-take k zero ks h = absurd h.1
In-take k (suc n) [] h = absurd h.1
In-take k (suc n) (j ∷ ks) (inl e) = inl e
In-take k (suc n) (j ∷ ks) (inr h) = inr (In-take k n ks h)

In-take_pos : (k : Text) (n : ℕ) (ks : List Text) → In k (take n ks) → leb n 0 ≡ false
In-take_pos k zero ks h = absurd h.1
In-take_pos k (suc n) ks h = ground arith

In-distinct : (k : Text) (ks : List Text) → In k (distinct ks) → In k ks
In-distinct k [] h = h
In-distinct k (j ∷ ks) (inl e) = inl e
In-distinct k (j ∷ ks) (inr h) = inr (In-distinct k ks (filter-In _ k (distinct ks) h).0)

module _ (civil : String → ℕ → Civil) (t : Tier) (loc : String) where
  In-periods :
      (k : Text) (bs : List Backup)
      → In k (map (period civil t loc) bs)
      → (b : Backup) × In b bs × (period civil t loc b ≡ k)
  In-periods k [] h = absurd h.1
  In-periods k (b ∷ bs) (inl e) = (b, inl refl, sym e)
  In-periods k (b ∷ bs) (inr h) = let (c, i, e) = In-periods k bs h in (c, inr i, e)

  In-members :
      (k : Text) (bs : List Backup) (b : Backup)
      → In b (members civil t loc k bs)
      → In b bs × (period civil t loc b ≡ k)
  In-members k bs b h =
      let r = filter-In (λ b. codes_eq k (period civil t loc b)) b bs h in
      (r.0, sym ((codes_eq_iff k (period civil t loc b)).0 r.1))

  -- A period that is met has a bucket, which holds its backups.
  bucket-some :
      (ms : List Backup) (b : Backup)
      → In b ms
      → (q : Bucket) × (extend civil t loc none ms ≡ some q) × (contents q ≡ ms)
  bucket-some [] b h = absurd h.1
  bucket-some (c ∷ ms) b h = (record { first = c; others = ms }, refl, refl)

  In-ids_from :
      (p : Policy) (m : Text → Option Bucket) (ks : List Text) (k : Text) (q : Bucket)
      → In k ks
      → m k ≡ some q
      → In (representative civil p t q loc).id (ids_from civil t loc p m ks)
  unfolding ids_from
  In-ids_from p m [] k q h e = absurd h.1
  In-ids_from p m (j ∷ ks) k q (inl f) e = rw (sym (ap m f) ∙ e, ids_from) (inl refl)
  In-ids_from p m (j ∷ ks) k q (inr h) e = elim (Option-cases (m j)) [
    | inl n ↦ rw (n, ids_from) (In-ids_from p m ks k q h e)
    | inr (q', n) ↦ rw (n, ids_from) (inr (In-ids_from p m ks k q h e))
  ]

  -- Every one of the tier's most recent periods has a survivor.
  survivors-cover :
      (p : Policy) (bs : List Backup) (k : Text)
      → In k (take (keep_of p t) (periods civil t loc bs))
      → (b : Backup) × In b bs × (period civil t loc b ≡ k) × In b.id (survivors civil p t bs loc)
  unfolding survivors
  survivors-cover p bs k h =
      let (b, i, e) = In-periods k bs (In-distinct k _ (In-take k (keep_of p t) _ h)) in
      let m : In b (members civil t loc k bs) = In-filter _ b bs i ((codes_eq_iff k _).1 (sym e)) in
      let (q, f, c) = bucket-some (members civil t loc k bs) b m in
      let rep = representative civil p t q loc in
      let (u, v) = In-members k bs rep (subst (In rep) c (representative-In civil p t q loc)) in
      (
        rep,
        u,
        v,
        rw (In-take_pos k (keep_of p t) _ h) (
            In-ids_from p (collect civil t loc [] (λ _. none) bs).1 _ k q
              (rw (collect-order civil t loc bs) h) (collect-bucket civil t loc bs k ∙ f)),
      )

add_tier-keeps :
    (s t : Tier) (tiers : String → List Tier) (ids : List String) (id : String)
    → In s (tiers id)
    → In s (add_tier t tiers ids id)
unfolding add_tier
add_tier-keeps s t tiers [] id h = h
add_tier-keeps s t tiers (j ∷ ids) id h =
    add_tier-keeps s t (assign tiers j (tiers j ++ t ∷ [])) ids id (elim (Bool-cases (id =s= j)) [
      | inl e ↦
          rw e (
            In-append_left s (tiers j) (t ∷ [])
              (subst (λ x. In s (tiers x)) ((=s=_iff id j).0 e) h))
      | inr e ↦ rw e h
    ])

In-add_tier :
    (t : Tier) (tiers : String → List Tier) (ids : List String) (id : String)
    → In id ids
    → In t (add_tier t tiers ids id)
unfolding add_tier
In-add_tier t tiers [] id h = absurd h.1
In-add_tier t tiers (j ∷ ids) id (inl e) =
    add_tier-keeps t t (assign tiers j (tiers j ++ t ∷ [])) ids id
      (rw ((=s=_iff id j).1 e) (In-append_right t (tiers j) (t ∷ []) (inl refl)))
In-add_tier t tiers (j ∷ ids) id (inr h) =
    In-add_tier t (assign tiers j (tiers j ++ t ∷ [])) ids id h

module _ (civil : String → ℕ → Civil) (p : Policy) (bs : List Backup) (loc : String) where
  tiers_from-keeps :
      (s : Tier) (ts : List Tier) (tiers : String → List Tier) (id : String)
      → In s (tiers id)
      → In s (tiers_from civil p bs loc ts tiers id)
  unfolding tiers_from
  tiers_from-keeps s [] tiers id h = h
  tiers_from-keeps s (t ∷ ts) tiers id h =
      tiers_from-keeps s ts (add_tier t tiers (survivors civil p t bs loc)) id
        (add_tier-keeps s t tiers (survivors civil p t bs loc) id h)

  -- A survivor of a tier is labelled with it.
  tiers_from-In :
      (t : Tier) (ts : List Tier) (tiers : String → List Tier) (id : String)
      → In t ts
      → In id (survivors civil p t bs loc)
      → In t (tiers_from civil p bs loc ts tiers id)
  unfolding tiers_from
  tiers_from-In t [] tiers id h k = absurd h.1
  tiers_from-In t (s ∷ ts) tiers id (inl e) k =
      tiers_from-keeps t ts (add_tier s tiers (survivors civil p s bs loc)) id (
        subst (λ x. In t (add_tier x tiers (survivors civil p x bs loc) id)) e
          (In-add_tier t tiers (survivors civil p t bs loc) id k))
  tiers_from-In t (s ∷ ts) tiers id (inr h) k =
      tiers_from-In t ts (add_tier s tiers (survivors civil p s bs loc)) id h k

In-rungs : (t : Tier) → In t rungs
In-rungs hourly = inl refl
In-rungs daily = inr (inl refl)
In-rungs weekly = inr (inr (inl refl))
In-rungs monthly = inr (inr (inr (inl refl)))
In-rungs yearly = inr (inr (inr (inr (inl refl))))

is_kept_tier :
    (t : Tier) (tiers : String → List Tier) (r : String → Text) (b : Backup)
    → In t (tiers b.id)
    → is_kept tiers r b ≡ true
is_kept_tier t tiers r b h = elim (Bool-cases (is_nil (tiers b.id))) [
  | inl e ↦ absurd (not_in (tiers b.id) e h)
  | inr e ↦ rw e
]
  where
    not_in : (ts : List Tier) → is_nil ts ≡ true → In t ts → ⊥
    not_in [] e m = m.1
    not_in (s ∷ ts) e m = cc

-- A tier with a positive count makes a policy that is not empty.
keep_of-empty : (p : Policy) (t : Tier) → leb (keep_of p t) 0 ≡ false → empty p ≡ false
keep_of-empty p hourly h = ground arith
keep_of-empty p daily h = ground arith
keep_of-empty p weekly h = ground arith
keep_of-empty p monthly h = ground arith
keep_of-empty p yearly h = ground arith

-- After a run that did not fail, every tier keeps a backup of each of its most recent periods that
-- hold a backup, as many periods as the tier says: the kept decision has a backup of that period
-- and names the tier.
pub plan-tiers :
    (sort : List Backup → List Backup) (civil : String → ℕ → Civil) (p : Policy) (i : Input)
    (t : Tier) (k : Text)
    → i.last_run_failed ≡ false
    → In k (take (keep_of p t) (periods civil t (location p) (sort i.backups)))
    → (d : Decision) × In d (plan sort civil p i).keep
      × (period civil t (location p) d.backup ≡ k)
      × In t d.tiers
unfolding plan plan_sorted
plan-tiers sort civil p i t k ok h =
    let bs = sort i.backups in
    let tiers = tiers_from civil p bs (location p) rungs (empty_map []) in
    let r = verified_reasons bs tiers in
    let r' = floor_from p.min_keep tiers r (count_kept bs tiers r) bs in
    let (b, m, e, s) = survivors-cover civil t (location p) p bs k h in
    let l : In t (tiers b.id) =
      tiers_from-In civil p bs (location p) t rungs (empty_map []) b.id (In-rungs t) s in
    (
      decide tiers r' b,
      rw (in_cons bs b m, keep_of-empty p t (In-take_pos k (keep_of p t) _ h), ok)
          (In-split tiers r' bs b m (is_kept_tier t tiers r' b l)),
      e,
      l,
    )
  where
    in_cons : (bs : List Backup) (b : Backup) → In b bs → is_nil bs ≡ false
    in_cons [] b m = absurd m.1
    in_cons (c ∷ bs) b m = refl
