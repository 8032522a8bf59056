-- ===== src/Scheduler/LastRun.antt =====
-- internal/scheduler: the last runs that the index records, and their refresh.
use vaultd.Base.{
  ℕ, ◌≤◌, ◌<◌, String, Bool, Option, none, some, List, [], ◌∷◌, ltb, Text, ◌≡◌, ◌⊎◌, inl, inr, refl,
  sym, ap, ◌∙◌, arith, In, All, Bool-cases, some_eq, ltb→lt,
}
use vaultd.Manifest.Entry.{Entry}
use vaultd.Index.Cache.{Outcome, IndexError, done, fails}
use vaultd.Scheduler.Job.{Job, Kind, run_time, later_of, last_from, last_run}
use vaultd.Scheduler.Dispatch.{Scheduler, or_zero, newer, merged, read_all, refresh}

-- The time of a run of the entry is at most `r`, if it has one.
abbrev AtMost : ℕ → Option ℕ → Type 0
AtMost r o = (t : ℕ) → o ≡ some t → t ≤ r

-- `r` is the time of the latest run among the entries, or the zero time.
record IsLastRun (kind : Kind) (es : List Entry) (r : ℕ) : Type 0 where
  pub latest : All (λ (e : Entry). AtMost r (run_time kind e)) es
  attained : (r ≡ 0) ⊎ ((e : Entry) × In e es × (run_time kind e ≡ some r))

later_of_le : (last : ℕ) (o : Option ℕ) → (last ≤ later_of last o) × AtMost (later_of last o) o
later_of_le last none = (omega arith, λ t e. absurd (cc e))
later_of_le last (some at) = elim (Bool-cases (ltb last at)) [
  | inl f ↦
      let more : last < at = ltb→lt last at f in
      rw f (omega (arith, more), λ t e. omega (arith, some_eq e))
  | inr f ↦
      let small : at ≤ last = ground arith in
      rw f (omega arith, λ t e. omega (arith, small, some_eq e))
]

later_of-attained :
    (last : ℕ) (o : Option ℕ) → (later_of last o ≡ last) ⊎ (o ≡ some (later_of last o))
later_of-attained last none = inl refl
later_of-attained last (some at) = elim (Bool-cases (ltb last at)) [
  | inl f ↦ rw f (inr refl)
  | inr f ↦ rw f (inl refl)
]

last_from-le :
    (kind : Kind) (last : ℕ) (es : List Entry)
    → (last ≤ last_from kind last es)
      × All (λ (e : Entry). AtMost (last_from kind last es) (run_time kind e)) es
unfolding last_from
last_from-le kind last [] = (omega arith, tt)
last_from-le kind last (e ∷ es) =
    let (a, b) = later_of_le last (run_time kind e) in
    let (c, d) = last_from-le kind (later_of last (run_time kind e)) es in
    (omega (arith, a, c), (λ t q. omega (arith, b t q, c), d))

last_from-attained :
    (kind : Kind) (last : ℕ) (es : List Entry)
    → (last_from kind last es ≡ last)
      ⊎ ((e : Entry) × In e es × (run_time kind e ≡ some (last_from kind last es)))
unfolding last_from
last_from-attained kind last [] = inl refl
last_from-attained kind last (e ∷ es) =
    step (later_of-attained last (run_time kind e))
      (last_from-attained kind (later_of last (run_time kind e)) es)
  where
    now : ℕ
    now = later_of last (run_time kind e)

    step :
        (later_of last (run_time kind e) ≡ last)
          ⊎ (run_time kind e ≡ some (later_of last (run_time kind e)))
        → (last_from kind (later_of last (run_time kind e)) es ≡ later_of last (run_time kind e))
          ⊎ ((f : Entry) × In f es
              × (run_time kind f ≡ some (last_from kind (later_of last (run_time kind e)) es)))
        → (last_from kind (later_of last (run_time kind e)) es ≡ last)
          ⊎ ((f : Entry) × In f (e ∷ es)
              × (run_time kind f ≡ some (last_from kind (later_of last (run_time kind e)) es)))
    step a (inr (f, i, q)) = inr (f, inr i, q)
    step (inl a) (inl b) = inl (b ∙ a)
    step (inr a) (inl b) = inr (e, inl refl, a ∙ ap some (sym b))

-- When the index can be read, `lastRun` reports the latest time at which it records a run of the kind,
-- a failed backup included, and the zero time if there is none.
last_run-IsLastRun :
    (kind : Kind) (es : List Entry) (cached : Bool)
    → (r : ℕ) × (last_run kind (done (es, cached)) ≡ done r) × IsLastRun kind es r
unfolding last_run
last_run-IsLastRun kind es cached = (
  last_from kind 0 es,
  refl,
  record { latest = (last_from-le kind 0 es).1; attained = last_from-attained kind 0 es },
)

newer-ge : (c a : Option ℕ) → (or_zero c ≤ or_zero (newer c a)) × (or_zero a ≤ or_zero (newer c a))
newer-ge c none = (omega arith, omega arith)
newer-ge none (some at) = (omega arith, omega arith)
newer-ge (some c) (some at) = elim (Bool-cases (ltb c at)) [
  | inl f ↦ let more : c < at = ltb→lt c at f in rw f (omega (arith, more), omega arith)
  | inr f ↦ let small : at ≤ c = ground arith in rw f (omega arith, omega (arith, small))
]

module _ (read : String → Option (Outcome (List Entry × Bool))) where
  -- A `refresh` that fails changes nothing, and one that succeeds moves no job's last run backwards.
  refresh-forwards :
      (js : List Job) (s : Scheduler)
      → ((e : IndexError) × (refresh read js s ≡ (some e, s)))
        ⊎ (((refresh read js s).0 ≡ none)
            × ((key : Text) → or_zero (s.last key) ≤ or_zero ((refresh read js s).1.last key)))
  unfolding refresh
  refresh-forwards js s = step (read_all read js (λ key. none))
    where
      step :
          (o : Outcome (Text → Option ℕ))
          → ((e : IndexError) × (merged o s ≡ (some e, s)))
            ⊎ (((merged o s).0 ≡ none)
                × ((key : Text) → or_zero (s.last key) ≤ or_zero ((merged o s).1.last key)))
      step (fails e) = inl (e, refl)
      step (done last) = inr (refl, λ key. (newer-ge (s.last key) (last key)).0)
