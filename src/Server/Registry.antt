-- ===== src/Server/Registry.antt =====
-- internal/server/runs.go: the registry that `begin`, `finish` and `append` keep.
use vaultd.Base.{
  ℕ, String, true, false, Option, none, some, [], ◌∷◌, ◌++◌, ◌=s=◌, =s=_iff, ◌≡◌, ◌≢◌, inl, inr,
  refl, sym, ap, ◌∙◌, In, Bool-cases, some_eq, assign, assign_self, assign_other,
}
use vaultd.Server.Runs.{
  Run, Runs, RunState, LogLine, in_flight, begin, finish, finish_run, finished, append, log_to,
}

-- The run of a target that is marked active is known, is of that target, and is in flight.
pub record IsActiveRun (r : Runs) (target id : String) : Type 0 where
  pub run : Run
  pub known : r.by_id id ≡ some run
  pub of_target : run.target ≡ target
  pub unfinished : in_flight run.state ≡ true
  pub listed : In id r.order

abbrev pub IsConsistent : Runs → Type 0
IsConsistent r = (target id : String) → r.active target ≡ some id → IsActiveRun r target id

-- A `begin` on a consistent registry for a target that is active starts nothing: it returns the run
-- of that target that is in flight, and changes nothing.
begin-refuses :
    (fuel : ℕ) (target kind id active : String) (now : ℕ) (r : Runs)
    → IsConsistent r
    → r.active target ≡ some active
    → (run : Run) × (run.target ≡ target)
      × (in_flight run.state ≡ true)
      × (begin fuel target kind id now r ≡ some (some run, false, r))
unfolding begin
begin-refuses fuel target kind id active now r h a =
    let k = h target active a in (k.run, k.of_target, k.unfinished, rw (a, k.known) refl)

module _ (r : Runs) (consistent : IsConsistent r) (id : String) where
  -- Another active run is not touched by a change of the run `id`.
  other_run :
      (run : Run) (s : Runs) (g i : String)
      → s.by_id ≡ assign r.by_id id (some run)
      → s.order ≡ r.order
      → i ≢ id
      → r.active g ≡ some i
      → IsActiveRun s g i
  other_run run s g i e f ne a =
      let k = consistent g i a in
      record {
        run = k.run;
        known = rw e (assign_other r.by_id id i (some run) ne ∙ k.known);
        of_target = k.of_target;
        unfinished = k.unfinished;
        listed = rw f k.listed;
      }

  -- A `finish` of a known run keeps a consistent registry consistent, and releases the target of
  -- the run.
  finish-IsConsistent :
      (state : RunState) (detail backup_id : String) (error : Option String) (now : ℕ) (run : Run)
      → r.by_id id ≡ some run
      → ((finish id state detail backup_id error now r).active run.target ≡ none)
        × IsConsistent (finish id state detail backup_id error now r)
  unfolding finish
  finish-IsConsistent state detail backup_id error now run e = rw e (
    assign_self r.active run.target none,
    λ g i a. elim (Bool-cases (g =s= run.target)) [
      | inl f ↦ absurd (cc (rw f at a))
      | inr f ↦
          let was : r.active g ≡ some i = rw f at a in
          let apart : i ≢ id = λ q.
            let k = consistent g i was in
            let same : k.run ≡ run = some_eq (sym k.known ∙ (ap r.by_id q ∙ e)) in
            let is : (g =s= run.target) ≡ true =
              (=s=_iff g run.target).1 (sym k.of_target ∙ ap (λ (x : Run). x.target) same) in
            cc (is, f) in
          other_run (finished state detail backup_id error now run)
            (finish_run id state detail backup_id error now (some run) r) g i refl refl apart was
    ],
  )

  -- An `append` keeps a consistent registry consistent: the runs of the active targets are known,
  -- in flight and listed.
  append-IsConsistent : (line : LogLine) → IsConsistent (append id line r)
  unfolding append
  append-IsConsistent line = step (r.by_id id) refl
    where
      step : (o : Option Run) → r.by_id id ≡ o → IsConsistent (log_to id line o r)
      step none e g i a = consistent g i a
      step (some run) e g i a = elim (Bool-cases (i =s= id)) [
        | inr f ↦
            other_run (record run { log = run.log ++ line ∷ [] }) (log_to id line (some run) r) g i
              refl refl (λ q. cc ((=s=_iff i id).1 q, f)) a
        | inl f ↦
            let same : i ≡ id = (=s=_iff i id).0 f in
            let k = consistent g i a in
            let is : k.run ≡ run = some_eq (sym k.known ∙ (ap r.by_id same ∙ e)) in
            record {
              run = record run { log = run.log ++ line ∷ [] };
              known = rw f refl;
              of_target = ap (λ (x : Run). x.target) (sym is) ∙ k.of_target;
              unfinished = ap (λ (x : Run). in_flight x.state) (sym is) ∙ k.unfinished;
              listed = k.listed;
            }
      ]
