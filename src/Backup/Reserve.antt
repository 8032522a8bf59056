-- ===== src/Backup/Reserve.antt =====
-- internal/backup/backup.go: the time that `reserve` finds.
use vaultd.Base.{
  ℕ, zero, suc, ◌+◌, ◌*◌, ◌≤◌, ◌<◌, Bool, true, false, ◌≡◌, ◌⊎◌, inl, inr, refl, arith,
}
use vaultd.Store.Port.{Answer, ok, err}
use vaultd.Manifest.Layout.{data_key, manifest_key}
use vaultd.Backup.Types.{Spec, kind_of, extension, Runner}
use vaultd.Backup.Runner.{
  second, reserve_window, Reserved, reserved, all_taken, exists, try_slot, reserve_from, reserve,
}

module _ {S : Type 0} (r : Runner S) (spec : Spec) (s : S) where
  abbrev manifest_taken : ℕ → Answer Bool
  manifest_taken at = exists r (manifest_key spec.layout (r.stamp at) (kind_of spec)) s

  abbrev data_taken : ℕ → Answer Bool
  data_taken at = exists r (data_key spec.layout (r.stamp at) (kind_of spec) (extension spec)) s

  -- No object has the keys of a run that starts at this time.
  abbrev pub IsFree : ℕ → Type 0
  IsFree at =
      (exists r (manifest_key spec.layout (r.stamp at) (kind_of spec)) s ≡ ok false)
      × (exists r (data_key spec.layout (r.stamp at) (kind_of spec) (extension spec)) s ≡ ok false)

  -- An object has one of them.
  abbrev pub IsTaken : ℕ → Type 0
  IsTaken at =
      (exists r (manifest_key spec.layout (r.stamp at) (kind_of spec)) s ≡ ok true)
      ⊎ (exists r (data_key spec.layout (r.stamp at) (kind_of spec) (extension spec)) s ≡ ok true)

  -- What a round found, by the answers of its two calls.
  try_slot-reserved :
      (at : ℕ) (m d : Answer Bool) (later : Reserved) (b : ℕ)
      → try_slot r at m d later ≡ reserved b
      → ((b ≡ at) × (m ≡ ok false) × (d ≡ ok false)) ⊎ (later ≡ reserved b)
  try_slot-reserved at (err e) d later b h = absurd (cc h)
  try_slot-reserved at (ok m) (err e) later b h = absurd (cc h)
  try_slot-reserved at (ok true) (ok d) later b h = inr h
  try_slot-reserved at (ok false) (ok true) later b h = inr h
  try_slot-reserved at (ok false) (ok false) later b h = inl (cc h, refl, refl)

  try_slot-all_taken :
      (at : ℕ) (m d : Answer Bool) (later : Reserved)
      → try_slot r at m d later ≡ all_taken
      → ((m ≡ ok true) ⊎ (d ≡ ok true)) × (later ≡ all_taken)
  try_slot-all_taken at (err e) d later h = absurd (cc h)
  try_slot-all_taken at (ok m) (err e) later h = absurd (cc h)
  try_slot-all_taken at (ok true) (ok d) later h = (inl refl, h)
  try_slot-all_taken at (ok false) (ok true) later h = (inr refl, h)
  try_slot-all_taken at (ok false) (ok false) later h = absurd (cc h)

  reserve_from-IsFree :
      (rounds at b : ℕ)
      → reserve_from r rounds spec at s ≡ reserved b
      → IsFree b × (at ≤ b) × (b < at + rounds * second)
  unfolding reserve_from
  reserve_from-IsFree zero at b h = absurd (cc h)
  reserve_from-IsFree (suc rounds) at b h =
      elim (try_slot-reserved at (manifest_taken at) (data_taken at)
        (reserve_from r rounds spec (at + second) s) b h) [
          | inl (e, m, d) ↦ (rw e (m, d), omega (arith, e), omega (arith, e))
          | inr l ↦
              let (f, a, z) = reserve_from-IsFree rounds (at + second) b l in
              (f, omega (arith, a), omega (arith, z))
        ]

  reserve_from-IsTaken :
      (rounds at k : ℕ)
      → reserve_from r rounds spec at s ≡ all_taken
      → k < rounds
      → IsTaken (at + k * second)
  unfolding reserve_from
  reserve_from-IsTaken zero at k h lt = absurd (omega (arith, lt))
  reserve_from-IsTaken (suc rounds) at zero h lt =
      let same : at + zero * second ≡ at = omega arith in rw same (try_slot-all_taken at _ _ _ h).0
  reserve_from-IsTaken (suc rounds) at (suc k) h lt =
      let same : at + suc k * second ≡ (at + second) + k * second = omega arith in
      rw same (
        reserve_from-IsTaken rounds (at + second) k (try_slot-all_taken at _ _ _ h).1
          (omega (arith, lt)))

  -- `reserve` gives a time in the minute from the start of the run at which neither the manifest nor
  -- the data of a run exist; and it reports that every key is taken only if at each second of that
  -- minute one of the two exists.
  pub reserve-IsFree :
      (at : ℕ)
      → ((b : ℕ)
          → reserve r spec at s ≡ reserved b
          → IsFree b × (at ≤ b) × (b < at + reserve_window * second))
        × (reserve r spec at s ≡ all_taken
            → (k : ℕ) → k < reserve_window
            → IsTaken (at + k * second))
  reserve-IsFree at = (
    λ b h. reserve_from-IsFree reserve_window at b h,
    λ h k lt. reserve_from-IsTaken reserve_window at k h lt,
  )
