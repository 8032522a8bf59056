-- ===== src/Retention/Representative.antt =====
-- internal/retention/retention.go: `representative`, against the named day of its tier.
use vaultd.Base.{
  ℕ, String, Bool, true, false, Bool-cases, Option-cases, Option, none, some, inl, inr, List, [],
  ◌∷◌, ◌≡◌, ◌==◌, ==_iff, refl, sym, subst, In,
}
use vaultd.Retention.Types.{Tier, hourly, daily, weekly, monthly, yearly, Policy, Backup}
use vaultd.Retention.Periods.{Civil, Bucket, first_where, or_first, representative}

-- The backups of a bucket, newest first.
abbrev pub contents : Bucket → List Backup
contents k = k.first ∷ k.others

or_first-some : (o : Option Backup) (k : Bucket) (b : Backup) → o ≡ some b → or_first o k ≡ b
or_first-some none k b e = cc
or_first-some (some c) k b e = cc

or_first-none : (o : Option Backup) (k : Bucket) → o ≡ none → or_first o k ≡ k.first
or_first-none none k e = refl
or_first-none (some c) k e = cc

-- The named day of a tier, where the policy names one.
abbrev IsNamedDay : Policy → Tier → Civil → Type 0
IsNamedDay p hourly c = ⊥
IsNamedDay p daily c = ⊥
IsNamedDay p weekly c = c.weekday ≡ p.weekly.on
IsNamedDay p monthly c = c.day ≡ p.monthly.on
IsNamedDay p yearly c = ⊥

module _ (civil : String → ℕ → Civil) where
  first_where-In :
      (p : Civil → Bool) (loc : String) (bs : List Backup) {b : Backup}
      → first_where civil p loc bs ≡ some b
      → In b bs × (p (civil loc b.at) ≡ true)
  first_where-In p loc [] e = cc
  first_where-In p loc (c ∷ bs) {b} e = elim (Bool-cases (p (civil loc c.at))) [
    | inl f ↦ found f (rw f at e)
    | inr f ↦ let r = first_where-In p loc bs (rw f at e) in (inr r.0, r.1)
  ]
    where
      found :
          p (civil loc c.at) ≡ true → some c ≡ some b → In b (c ∷ bs) × (p (civil loc b.at) ≡ true)
      found f g = let h : b ≡ c = cc in (inl h, rw h f)

  first_where-none :
      (p : Civil → Bool) (loc : String) (bs : List Backup) (b : Backup)
      → first_where civil p loc bs ≡ none
      → In b bs
      → p (civil loc b.at) ≡ false
  first_where-none p loc [] b e h = absurd h.1
  first_where-none p loc (c ∷ bs) b e (inl q) =
      rw q (elim (Bool-cases (p (civil loc c.at))) [ inl f ↦ absurd (cc (rw f at e)) | inr f ↦ f ])
  first_where-none p loc (c ∷ bs) b e (inr h) = elim (Bool-cases (p (civil loc c.at))) [
    | inl f ↦ absurd (cc (rw f at e))
    | inr f ↦ first_where-none p loc bs b (rw f at e) h
  ]

  or_first-In :
      (p : Civil → Bool) (loc : String) (k : Bucket)
      → In (or_first (first_where civil p loc (contents k)) k) (contents k)
  or_first-In p loc k = elim (Option-cases (first_where civil p loc (contents k))) [
    | inl e ↦ inl (or_first-none _ k e)
    | inr (b, e) ↦
        subst (λ x. In x (contents k)) (sym (or_first-some _ k b e))
          (first_where-In p loc (contents k) e).0
  ]

  -- The representative is one of the backups of the bucket.
  pub representative-In :
      (p : Policy) (t : Tier) (k : Bucket) (loc : String)
      → In (representative civil p t k loc) (contents k)
  unfolding representative
  representative-In p hourly k loc = inl refl
  representative-In p daily k loc = inl refl
  representative-In p weekly k loc = or_first-In (λ c. c.weekday == p.weekly.on) loc k
  representative-In p monthly k loc = or_first-In (λ c. c.day == p.monthly.on) loc k
  representative-In p yearly k loc = inl refl

  or_first-passes :
      (p : Civil → Bool) (loc : String) (k : Bucket) (b : Backup)
      → In b (contents k)
      → p (civil loc b.at) ≡ true
      → p (civil loc (or_first (first_where civil p loc (contents k)) k).at) ≡ true
  or_first-passes p loc k b h t = elim (Option-cases (first_where civil p loc (contents k))) [
    | inl e ↦ absurd (cc (t, first_where-none p loc (contents k) b e h))
    | inr (c, e) ↦ rw (or_first-some _ k c e) (first_where-In p loc (contents k) e).1
  ]

  -- If a bucket holds a backup of the day that the policy names for the tier, then the bucket's
  -- representative is of that day too, and it is one of the bucket's backups.
  representative-IsNamedDay :
      (p : Policy) (t : Tier) (k : Bucket) (loc : String) (b : Backup)
      → In b (contents k)
      → IsNamedDay p t (civil loc b.at)
      → IsNamedDay p t (civil loc (representative civil p t k loc).at)
        × In (representative civil p t k loc) (contents k)
  unfolding representative
  representative-IsNamedDay p t k loc b h d = (named p t d, representative-In p t k loc)
    where
      named :
          (p : Policy) (t : Tier)
          → IsNamedDay p t (civil loc b.at)
          → IsNamedDay p t (civil loc (representative civil p t k loc).at)
      named p hourly d = absurd d
      named p daily d = absurd d
      named p weekly d =
          (==_iff _ _).0
            (or_first-passes (λ c. c.weekday == p.weekly.on) loc k b h ((==_iff _ _).1 d))
      named p monthly d =
          (==_iff _ _).0 (or_first-passes (λ c. c.day == p.monthly.on) loc k b h ((==_iff _ _).1 d))
      named p yearly d = absurd d
