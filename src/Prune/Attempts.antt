-- ===== src/Prune/Attempts.antt =====
-- internal/prune/prune.go: `LastRunFailed` and `OldestKept`.
use vaultd.Base.{
  ℕ, ◌≤◌, Bool, true, false, not, ◌||◌, List, [], ◌∷◌, if◌then◌else◌, ltb, ◌==◌, ◌≡◌, ◌≢◌, ◌⊎◌, inl,
  inr, refl, In, All, arith, ltb→lt,
}
use vaultd.Manifest.Entry.{Entry, is_success}
use vaultd.Retention.Types.{Decision, Plan}
use vaultd.Prune.Runner.{latest_from, last_run_failed, oldest_from, oldest_kept}

-- The latest of the entries.
abbrev pub IsLatest : Entry → List Entry → Type 0
IsLatest l es = In l es × All (λ (e : Entry). e.finished_at ≤ l.finished_at) es

All-le_trans :
    (a b : ℕ) (es : List Entry)
    → a ≤ b
    → All (λ (e : Entry). e.finished_at ≤ a) es
    → All (λ (e : Entry). e.finished_at ≤ b) es
All-le_trans a b [] h k = tt
All-le_trans a b (e ∷ es) h k = (omega (arith, k.0), All-le_trans a b es h k.1)

-- What is said of the result `r` of the loop over `es` from `l`.
abbrev Latest : Entry → List Entry → Entry → Type 0
Latest l es r =
    ((r ≡ l) ⊎ In r es)
    × (l.finished_at ≤ r.finished_at)
    × All (λ (e : Entry). e.finished_at ≤ r.finished_at) es

Latest-later :
    (l e r : Entry) (es : List Entry)
    → ltb l.finished_at e.finished_at ≡ true
    → Latest e es r
    → Latest l (e ∷ es) r
Latest-later l e r es t (i, le, a) = (inr i, omega (arith, ltb→lt _ _ t), (le, a))

Latest-stays :
    (l e r : Entry) (es : List Entry)
    → ltb l.finished_at e.finished_at ≡ false
    → Latest l es r
    → Latest l (e ∷ es) r
Latest-stays l e r es f (i, le, a) =
    let small : e.finished_at ≤ l.finished_at = ground arith in
    (elim i [ inl q ↦ inl q | inr q ↦ inr (inr q) ], le, (omega arith, a))

latest_from-Latest : (l : Entry) (es : List Entry) → Latest l es (latest_from l es)
unfolding latest_from
latest_from-Latest l [] = (inl refl, omega arith, tt)
latest_from-Latest l (e ∷ es) =
    step (ltb l.finished_at e.finished_at) refl (latest_from-Latest e es) (latest_from-Latest l es)
  where
    step :
        (b : Bool)
        → ltb l.finished_at e.finished_at ≡ b
        → Latest e es (latest_from e es)
        → Latest l es (latest_from l es)
        → Latest l (e ∷ es) (latest_from (if b then e else l) es)
    step true q h k = Latest-later l e _ es q h
    step false q h k = Latest-stays l e _ es q k

-- Some attempt in the index ended last, and `LastRunFailed` reports whether it is one that failed; without any
-- attempt it reports that none did.
pub last_run_failed-IsLatest :
    (es : List Entry)
    → ((es ≡ []) × (last_run_failed es ≡ false))
      ⊎ ((l : Entry) × IsLatest l es × (last_run_failed es ≡ not (is_success l)))
unfolding last_run_failed
last_run_failed-IsLatest [] = inl (refl, refl)
last_run_failed-IsLatest (e ∷ es) =
    let (i, le, a) = latest_from-Latest e es in inr (latest_from e es, (i, (le, a)), refl)

-- What is said of the result `r` of the loop of `OldestKept` over `ds` from `o`.
abbrev Oldest : ℕ → List Decision → ℕ → Type 0
Oldest o ds r = (r ≤ o) × (r ≢ 0) × All (λ (d : Decision). r ≤ d.backup.at) ds

oldest_from-Oldest :
    (o : ℕ) (ds : List Decision)
    → o ≢ 0
    → All (λ (d : Decision). d.backup.at ≢ 0) ds
    → Oldest o ds (oldest_from o ds)
unfolding oldest_from
oldest_from-Oldest o [] n h = (omega arith, n, tt)
oldest_from-Oldest o (d ∷ ds) n h =
    step ((o == 0) || ltb d.backup.at o) refl (oldest_from-Oldest d.backup.at ds h.0 h.1)
      (oldest_from-Oldest o ds n h.1)
  where
    step :
        (b : Bool)
        → ((o == 0) || ltb d.backup.at o) ≡ b
        → Oldest d.backup.at ds (oldest_from d.backup.at ds)
        → Oldest o ds (oldest_from o ds)
        → Oldest o (d ∷ ds) (oldest_from (if b then d.backup.at else o) ds)
    step true q (le, z, a) k =
        let small : d.backup.at ≤ o = ground arith in (omega arith, z, (le, a))
    step false q k (le, z, a) =
        let small : o ≤ d.backup.at = ground arith in (le, z, (omega arith, a))

-- If a plan keeps something, and no kept backup has the zero time, then `OldestKept` is not the zero
-- time and no kept backup is older.
oldest_kept-le :
    (p : Plan) (d : Decision)
    → In d p.keep
    → All (λ (e : Decision). e.backup.at ≢ 0) p.keep
    → (oldest_kept p ≢ 0) × All (λ (e : Decision). oldest_kept p ≤ e.backup.at) p.keep
unfolding oldest_kept oldest_from
oldest_kept-le p d i h = go p.keep i h
  where
    go :
        (ds : List Decision)
        → In d ds
        → All (λ (e : Decision). e.backup.at ≢ 0) ds
        → (oldest_from 0 ds ≢ 0) × All (λ (e : Decision). oldest_from 0 ds ≤ e.backup.at) ds
    go [] i h = absurd i.1
    go (e ∷ ds) i h = let (le, z, a) = oldest_from-Oldest e.backup.at ds h.0 h.1 in (z, (le, a))
