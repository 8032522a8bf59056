-- ===== src/Server/Begin.antt =====
-- internal/server/runs.go: when `begin` starts a run, and when its `trim` does not return.
use vaultd.Base.{
  ℕ, ◌≤◌, ◌<◌, String, Bool, true, false, Option, none, some, List, [], ◌∷◌, ◌++◌, ◌=s=◌, =s=_iff,
  =s=_self, ◌≡◌, ◌≢◌, inl, inr, refl, sym, ap, ◌∙◌, subst, arith, length, count, In, Bool-cases,
  some_eq, assign, assign_self, assign_other, In-append_left, In-append_right,
}
use vaultd.Server.Runs.{Run, Runs, run_history, in_flight, is_running, begin, started, with_trimmed}
use vaultd.Server.Trimming.{IsTrimmed, trim-returns, trim-hangs, count-same, count-append}
use vaultd.Server.Registry.{IsActiveRun, IsConsistent}

count-fresh :
    (by_id : String → Option Run) (id : String) (run : Run) (order : List String)
    → (In id order → ⊥)
    → count (is_running (assign by_id id (some run))) order ≡ count (is_running by_id) order
count-fresh by_id id run order fresh = count-same _ _ order (λ x i. elim (Bool-cases (x =s= id)) [
  | inl e ↦
      let same : x ≡ id = (=s=_iff x id).0 e in absurd (fresh (subst (λ y. In y order) same i))
  | inr e ↦ rw e refl
])

abbrev in_flight_run : Option Run → Bool
in_flight_run none = false
in_flight_run (some run) = in_flight run.state

unfinished_runs :
    (by_id : String → Option Run) (id : String) (run : Run)
    → by_id id ≡ some run
    → in_flight run.state ≡ true
    → is_running by_id id ≡ true
unfinished_runs by_id id run e f = rw e f

-- What a `begin` that starts a run did.
pub record Begun (fuel : ℕ) (target kind id : String) (now : ℕ) (r s : Runs) : Type 0 where
  pub returned : begin fuel target kind id now r ≡ some (some (started target kind id now), true, s)
  pub known : s.by_id id ≡ some (started target kind id now)
  now_active : s.active target ≡ some id
  others_active : (g : String) → g ≢ target → s.active g ≡ r.active g
  pub others_kept :
      (i : String)
      → is_running r.by_id i ≡ true
      → In i r.order
      → (s.by_id i ≡ r.by_id i) × In i s.order
  bounded : length s.order ≤ run_history
  pub consistent : IsConsistent s

module _ (target kind id : String) (now : ℕ) (r : Runs) (fresh : In id r.order → ⊥) where
  abbrev run_of : Run
  run_of = started target kind id now

  abbrev with_run : String → Option Run
  with_run = assign r.by_id id (some run_of)

  room :
      count (is_running r.by_id) r.order < run_history
      → count (is_running with_run) (r.order ++ id ∷ []) ≤ run_history
  room h =
      let one : count (is_running with_run) (id ∷ []) ≤ 1 = ground arith in
      omega (
        arith,
        h,
        one,
        count-append (is_running with_run) r.order (id ∷ []),
        count-fresh r.by_id id run_of r.order fresh,
      )

  crowd :
      run_history ≤ count (is_running r.by_id) r.order
      → run_history < count (is_running with_run) (r.order ++ id ∷ [])
  crowd h =
      let new : is_running with_run id ≡ true = known_new_run in
      let one : 1 ≤ count (is_running with_run) (id ∷ []) = ground arith in
      omega (
        arith,
        h,
        one,
        count-append (is_running with_run) r.order (id ∷ []),
        count-fresh r.by_id id run_of r.order fresh,
      )
    where
      known_new_run : is_running with_run id ≡ true
      known_new_run = rw (=s=_self id) refl

  -- With `runHistory` runs in flight or more, a `begin` for a target without an active run, with an
  -- id that is not in use, never returns: no number of rounds of the loop of `trim` is enough.
  pub begin-hangs :
      r.active target ≡ none
      → run_history ≤ count (is_running r.by_id) r.order
      → (fuel : ℕ) → begin fuel target kind id now r ≡ none
  unfolding begin
  begin-hangs idle h fuel = rw (idle, trim-hangs fuel with_run (r.order ++ id ∷ []) (crowd h)) refl

  module _ (consistent : IsConsistent r) where
    new_id : (t : String) (i : String) → r.active t ≡ some i → i ≢ id
    new_id t i a e = fresh (subst (λ x. In x r.order) e (consistent t i a).listed)

    module _ (result : (String → Option Run) × List String)
        (t : IsTrimmed with_run (r.order ++ id ∷ []) result) where
      abbrev after : Runs
      after = with_trimmed (assign r.active target (some id)) result

      known_new : is_running with_run id ≡ true
      known_new = rw (=s=_self id) refl

      begun_known : result.0 id ≡ some run_of
      begun_known = t.kept id known_new ∙ assign_self r.by_id id (some run_of)

      this-IsActiveRun : IsActiveRun after target id
      this-IsActiveRun = record {
        run = run_of;
        known = begun_known;
        of_target = refl;
        unfinished = refl;
        listed = t.listed id known_new (In-append_right id r.order (id ∷ []) (inl refl));
      }

      other_run_kept :
          (i : String)
          → is_running r.by_id i ≡ true
          → In i r.order
          → (result.0 i ≡ r.by_id i) × In i result.1
      other_run_kept i runs listed =
          let same : with_run i ≡ r.by_id i =
            assign_other r.by_id id i (some run_of)
              (λ e. fresh (subst (λ x. In x r.order) e listed)) in
          let still : is_running with_run i ≡ true = ap in_flight_run same ∙ runs in
          (t.kept i still ∙ same, t.listed i still (In-append_left i r.order (id ∷ []) listed))

      other-IsActiveRun : (g i : String) → r.active g ≡ some i → IsActiveRun after g i
      other-IsActiveRun g i a =
          let old = consistent g i a in
          let same : with_run i ≡ some old.run =
            assign_other r.by_id id i (some run_of) (new_id g i a) ∙ old.known in
          let runs : is_running with_run i ≡ true =
            unfinished_runs with_run i old.run same old.unfinished in
          record {
            run = old.run;
            known = t.kept i runs ∙ same;
            of_target = old.of_target;
            unfinished = old.unfinished;
            listed = t.listed i runs (In-append_left i r.order (id ∷ []) old.listed);
          }

      begun-IsConsistent : IsConsistent after
      begun-IsConsistent g i a = elim (Bool-cases (g =s= target)) [
        | inl e ↦
            let is : g ≡ target = (=s=_iff g target).0 e in
            let same : id ≡ i = some_eq (rw e at a) in
            subst (λ x. IsActiveRun after g x) same
              (subst (λ x. IsActiveRun after x id) (sym is) this-IsActiveRun)
        | inr e ↦ other-IsActiveRun g i (rw e at a)
      ]

    -- A `begin` on a consistent registry, for a target without an active run, with fewer than
    -- `runHistory` runs in flight and an id that is not in use, returns. It starts the run, which
    -- is in the registry and active for its target. Every other target has the active run that it had, and
    -- every listed run in flight stays listed, with its record unchanged. The registry stays consistent,
    -- and at most `runHistory` runs are left.
    pub begin-Begun :
        r.active target ≡ none
        → count (is_running r.by_id) r.order < run_history
        → (s : Runs) × Begun (length (r.order ++ id ∷ [])) target kind id now r s
    unfolding begin
    begin-Begun idle h =
        let (result, q, t) = trim-returns with_run (r.order ++ id ∷ []) (room h) in
        (
          after result t,
          record {
            returned = rw (idle, q) refl;
            known = begun_known result t;
            now_active = assign_self r.active target (some id);
            others_active = λ g ne. assign_other r.active target g (some id) ne;
            others_kept = other_run_kept result t;
            bounded = t.short;
            consistent = begun-IsConsistent result t;
          },
        )
