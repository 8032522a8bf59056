-- ===== src/Tests/ServerTests.antt =====
-- Instances of the theorems about internal/server.
use vaultd.Base.{
  ◌+◌, ◌-◌, ◌/◌, ◌*◌, ◌≤◌, String, sym, some_eq, ◌=s=◌, =s=_iff, if◌then◌else◌, true, false, Option,
  none, some, List, [], ◌∷◌, ◌≡◌, refl, inl, inr, arith, count, In, any_of, subst, assign,
  Bool-cases,
}
use vaultd.Server.Throttle.{
  second, Throttle, Attempts, blocked, authenticate, too_many, unauthorized,
}
use vaultd.Server.Sweep.{IsSound, authenticate-IsSound}
use vaultd.Server.Lockout.{authenticate-locks, wait_after}
use vaultd.Server.Runs.{Run, Runs, run_history, is_running, begin, started}
use vaultd.Server.Registry.{IsActiveRun, IsConsistent}
use vaultd.Server.Begin.{begin-hangs, Begun, begin-Begun}

-- A host with seven failures, the last at the second 100.
abbrev guesses : Attempts
guesses = record { count = 7; last = 100 * second; until = 110 * second }

abbrev guessing : Throttle
guessing = record { seen = λ h. some guesses; swept = 0 }

guessing-IsSound : IsSound (120 * second) guessing
guessing-IsSound host r e =
    rw (← some_eq e) (record { seen_before = omega arith; capped = omega arith })

authenticate-IsSound_example :
    IsSound (130 * second) (authenticate "h" false (130 * second) guessing).1
authenticate-IsSound_example =
    authenticate-IsSound "h" false (120 * second) (130 * second) guessing (omega arith)
      guessing-IsSound

refused : (authenticate "h" false (120 * second) guessing).0 ≡ unauthorized
unfolding authenticate blocked
refused = refl

authenticate-locks_example :
    (authenticate "h" true (125 * second) (authenticate "h" false (120 * second) guessing).1).0
    ≡ too_many ((120 * second + wait_after 2 - 125 * second) / second + 1)
authenticate-locks_example =
    authenticate-locks "h" true (120 * second) (125 * second) 2 guessing guessing-IsSound refused
      refl (omega arith) (omega arith)

guessing-IsSound_early : IsSound (105 * second) guessing
guessing-IsSound_early host r e =
    rw (← some_eq e) (record { seen_before = omega arith; capped = omega arith })

told_to_wait : (authenticate "h" true (105 * second) guessing).0 ≡ too_many 6
unfolding authenticate blocked
told_to_wait = refl

-- Fifty ids.
abbrev fifty : List String
fifty =
    "r0" ∷ "r1" ∷ "r2" ∷ "r3" ∷ "r4" ∷ "r5" ∷ "r6" ∷ "r7" ∷ "r8" ∷ "r9" ∷ "r10" ∷ "r11" ∷ "r12"
    ∷ "r13" ∷ "r14" ∷ "r15" ∷ "r16" ∷ "r17" ∷ "r18" ∷ "r19" ∷ "r20" ∷ "r21" ∷ "r22" ∷ "r23" ∷ "r24"
    ∷ "r25" ∷ "r26" ∷ "r27" ∷ "r28" ∷ "r29" ∷ "r30" ∷ "r31" ∷ "r32" ∷ "r33" ∷ "r34" ∷ "r35" ∷ "r36"
    ∷ "r37" ∷ "r38" ∷ "r39" ∷ "r40" ∷ "r41" ∷ "r42" ∷ "r43" ∷ "r44" ∷ "r45" ∷ "r46" ∷ "r47" ∷ "r48"
    ∷ "r49" ∷ []

abbrev busy : String → Option Run
busy id = some (started id "backup" id 0)

-- As many runs in flight as the registry remembers.
abbrev crowded : Runs
crowded = record {
  by_id = busy;
  order = fifty;
  active = λ t. if any_of (λ i. i =s= t) fifty then some t else none;
}

In-any_of : (a : String) (xs : List String) → In a xs → any_of (λ x. x =s= a) xs ≡ true
In-any_of a [] h = absurd h.1
In-any_of a (x ∷ xs) (inl e) = rw ((=s=_iff x a).1 (sym e)) refl
In-any_of a (x ∷ xs) (inr h) = ground (arith, In-any_of a xs h)

new_is_fresh : In "new" fifty → ⊥
new_is_fresh h = cc (In-any_of "new" fifty h)

crowded_full : run_history ≤ count (is_running busy) fifty
crowded_full = omega arith

abbrev two : List String
two = "r0" ∷ "r1" ∷ []

few_runs : count (is_running busy) two ≤ run_history
few_runs = omega arith

begin-hangs_example : begin 1000 "db" "backup" "new" 7 crowded ≡ none
begin-hangs_example = begin-hangs "db" "backup" "new" 7 crowded new_is_fresh refl crowded_full 1000

-- A registry with a run of another target in flight.
abbrev other_busy : Runs
other_busy = record {
  by_id = assign (λ i. none) "o" (some (started "web" "backup" "o" 3));
  order = "o" ∷ [];
  active = assign (λ t. none) "web" (some "o");
}

other_busy-IsConsistent : IsConsistent other_busy
other_busy-IsConsistent t i a = elim (Bool-cases (t =s= "web")) [
  | inr e ↦ absurd (cc (rw e at a))
  | inl e ↦
      let same : ◌≡◌ {A = String} "o" i = some_eq (rw e at a) in
      let is : t ≡ "web" = (=s=_iff t "web").0 e in
      subst (λ x. IsActiveRun other_busy t x) same
        (record {
          run = started "web" "backup" "o" 3;
          known = refl;
          of_target = sym is;
          unfinished = refl;
          listed = inl refl;
        })
]

begin-Begun_example : (s : Runs) × Begun 2 "db" "backup" "a" 7 other_busy s
begin-Begun_example =
    begin-Begun "db" "backup" "a" 7 other_busy a_is_fresh other_busy-IsConsistent refl (omega arith)
  where
    a_is_fresh : In {A = String} "a" ("o" ∷ []) → ⊥
    a_is_fresh h = cc (In-any_of "a" ("o" ∷ []) h)

-- One run, in flight.
