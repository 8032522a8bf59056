-- ===== src/Retention/Calendar.antt =====
-- internal/retention/retention.go: `bucketKey`, against the calendar components that each tier reads.
use vaultd.Base.{ℕ, ◌<◌, ◌≡◌, ◌↔◌, ◌++◌, [], ◌∷◌, Text, arith, pad2, pad4, lt→ltb, ap}
use vaultd.Retention.Types.{Tier, hourly, daily, weekly, monthly, yearly}
use vaultd.Retention.Periods.{Civil, period_key}

-- The components of a date of the years 0 to 9999.
pub record IsDate (c : Civil) : Type 0 where
  pub year_small : c.year < 10000
  pub month_small : c.month < 100
  pub day_small : c.day < 100
  pub hour_small : c.hour < 100
  pub iso_year_small : c.iso_year < 10000
  pub iso_week_small : c.iso_week < 100

-- Two local times lie in one period of a tier.
abbrev pub SamePeriod : Tier → Civil → Civil → Type 0
SamePeriod hourly c d =
    (c.year ≡ d.year) × (c.month ≡ d.month) × (c.day ≡ d.day) × (c.hour ≡ d.hour)
SamePeriod daily c d = (c.year ≡ d.year) × (c.month ≡ d.month) × (c.day ≡ d.day)
SamePeriod weekly c d = (c.iso_year ≡ d.iso_year) × (c.iso_week ≡ d.iso_week)
SamePeriod monthly c d = (c.year ≡ d.year) × (c.month ≡ d.month)
SamePeriod yearly c d = c.year ≡ d.year

head_eq : (a b : ℕ) (s t : Text) → a ∷ s ≡ b ∷ t → (a ≡ b) × (s ≡ t)
head_eq a b s t e = (cc, cc)

-- A padded number can be read back from the front of a text.
pad2_split :
    (a b : ℕ) (s t : Text) → a < 100 → b < 100 → pad2 a ++ s ≡ pad2 b ++ t → (a ≡ b) × (s ≡ t)
pad2_split a b s t h k e =
    let (p, f) = head_eq _ _ _ _ e in let (q, g) = head_eq _ _ _ _ f in (omega arith, g)

pad4_split :
    (a b : ℕ) (s t : Text) → a < 10000 → b < 10000 → pad4 a ++ s ≡ pad4 b ++ t → (a ≡ b) × (s ≡ t)
pad4_split a b s t h k e =
    let (p, f) = head_eq _ _ _ _ (rw (lt→ltb a 10000 h, lt→ltb b 10000 k) at e) in
    let (q, g) = head_eq _ _ _ _ f in
    let (r, i) = head_eq _ _ _ _ g in let (u, j) = head_eq _ _ _ _ i in (omega arith, j)

pad2_eq : (a b : ℕ) → a < 100 → b < 100 → pad2 a ≡ pad2 b → a ≡ b
pad2_eq a b h k e = (pad2_split a b [] [] h k (ap (λ x. x ++ []) e)).0

pad4_eq : (a b : ℕ) → a < 10000 → b < 10000 → pad4 a ≡ pad4 b → a ≡ b
pad4_eq a b h k e = (pad4_split a b [] [] h k (ap (λ x. x ++ []) e)).0

key_same :
    (t : Tier) (c d : Civil)
    → IsDate c
    → IsDate d
    → period_key t c ≡ period_key t d
    → SamePeriod t c d
key_same hourly c d h k e =
    let (y, e1) = pad4_split c.year d.year _ _ h.year_small k.year_small e in
    let (m, e2) =
      pad2_split c.month d.month _ _ h.month_small k.month_small (head_eq _ _ _ _ e1).1 in
    let (x, e3) = pad2_split c.day d.day _ _ h.day_small k.day_small (head_eq _ _ _ _ e2).1 in
    (y, m, x, pad2_eq c.hour d.hour h.hour_small k.hour_small (head_eq _ _ _ _ e3).1)
key_same daily c d h k e =
    let (y, e1) = pad4_split c.year d.year _ _ h.year_small k.year_small e in
    let (m, e2) =
      pad2_split c.month d.month _ _ h.month_small k.month_small (head_eq _ _ _ _ e1).1 in
    (y, m, pad2_eq c.day d.day h.day_small k.day_small (head_eq _ _ _ _ e2).1)
key_same weekly c d h k e =
    let (y, e1) = pad4_split c.iso_year d.iso_year _ _ h.iso_year_small k.iso_year_small e in
    let e2 = (head_eq _ _ _ _ (head_eq _ _ _ _ e1).1).1 in
    (y, pad2_eq c.iso_week d.iso_week h.iso_week_small k.iso_week_small e2)
key_same monthly c d h k e =
    let (y, e1) = pad4_split c.year d.year _ _ h.year_small k.year_small e in
    (y, pad2_eq c.month d.month h.month_small k.month_small (head_eq _ _ _ _ e1).1)
key_same yearly c d h k e = pad4_eq c.year d.year h.year_small k.year_small e

same_key : (t : Tier) (c d : Civil) → SamePeriod t c d → period_key t c ≡ period_key t d
same_key hourly c d s = rw (s.0, s.1, s.2, s.3)
same_key daily c d s = rw (s.0, s.1, s.2)
same_key weekly c d s = rw (s.0, s.1)
same_key monthly c d s = rw (s.0, s.1)
same_key yearly c d s = rw s

-- Two dates of the years 0 to 9999 have one bucket key exactly when they agree in every calendar
-- component that the tier is about: the day and the hour for hourly, the ISO week for weekly, and
-- so on.
pub period_key_iff :
    (t : Tier) (c d : Civil)
    → IsDate c
    → IsDate d
    → (period_key t c ≡ period_key t d) ↔ SamePeriod t c d
period_key_iff t c d h k = (key_same t c d h k, same_key t c d)
