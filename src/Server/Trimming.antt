-- ===== src/Server/Trimming.antt =====
-- internal/server/runs.go: the loop of `trim`.
use vaultd.Base.{
  ℕ, zero, suc, ◌+◌, ◌≤◌, ◌<◌, String, Bool, true, false, Option, none, some, List, [], ◌∷◌, ◌++◌,
  ltb, ◌=s=◌, =s=_iff, ◌≡◌, ◌≢◌, inl, inr, refl, sym, ap, ◌∙◌, subst, arith, length, length-append,
  count, count-le-length, In, Bool-cases, assign, assign_other, In-append_left, In-append_right,
}
use vaultd.Server.Runs.{Run, run_history, is_running, trim_from}

pub count-append :
    (p : String → Bool) (xs ys : List String) → count p (xs ++ ys) ≡ count p xs + count p ys
count-append p [] ys = omega arith
count-append p (x ∷ xs) ys = ground (arith, count-append p xs ys)

pub count-same :
    (p q : String → Bool) (xs : List String)
    → ((x : String) → In x xs → p x ≡ q x)
    → count p xs ≡ count q xs
count-same p q [] h = refl
count-same p q (x ∷ xs) h = rw (h x (inl refl), count-same p q xs (λ y i. h y (inr i))) refl

append_assoc : (xs ys : List String) (x : String) → (xs ++ ys) ++ x ∷ [] ≡ xs ++ (ys ++ x ∷ [])
append_assoc [] ys x = refl
append_assoc (y ∷ xs) ys x = ap (λ zs. y ∷ zs) (append_assoc xs ys x)

-- Forgetting a run that is not in flight changes no answer of `is_running`.
is_running-drop :
    (by_id : String → Option Run) (oldest id : String)
    → is_running by_id oldest ≡ false
    → is_running (assign by_id oldest none) id ≡ is_running by_id id
is_running-drop by_id oldest id h = elim (Bool-cases (id =s= oldest)) [
  | inl e ↦ let same : id ≡ oldest = (=s=_iff id oldest).0 e in rw (e, same, h) refl
  | inr e ↦ rw e refl
]

count-drop :
    (by_id : String → Option Run) (oldest : String) (order : List String)
    → is_running by_id oldest ≡ false
    → count (is_running (assign by_id oldest none)) order ≡ count (is_running by_id) order
count-drop by_id oldest order h = count-same _ _ order (λ id i. is_running-drop by_id oldest id h)

count-rotate :
    (p : String → Bool) (x : String) (xs : List String) → count p (xs ++ x ∷ []) ≡ count p (x ∷ xs)
count-rotate p x xs = ground (arith, count-append p xs (x ∷ []))

-- With more than `runHistory` runs in flight the loop of `trim` never ends: no number of rounds is
-- enough.
pub trim-hangs :
    (fuel : ℕ) (by_id : String → Option Run) (order : List String)
    → run_history < count (is_running by_id) order
    → trim_from fuel by_id order ≡ none
unfolding trim_from
trim-hangs zero by_id order h =
    let long : ltb run_history (length order) ≡ true =
      ground (arith, count-le-length (is_running by_id) order) in
    rw long refl
trim-hangs (suc fuel) by_id [] h = absurd (omega (arith, h))
trim-hangs (suc fuel) by_id (oldest ∷ order) h =
    let small = count-le-length (is_running by_id) (oldest ∷ order) in
    let long : ltb run_history (length (oldest ∷ order)) ≡ true = ground (arith, small) in
    elim (Bool-cases (is_running by_id oldest)) [
      | inl e ↦
          rw (long, e)
            (trim-hangs fuel by_id (order ++ oldest ∷ [])
              (rw (count-rotate (is_running by_id) oldest order) h))
      | inr e ↦
          rw (long, e)
            (trim-hangs fuel (assign by_id oldest none) order
              (rw (count-drop by_id oldest order e) (rw e at h)))
    ]

-- What `trim` leaves of a registry: at most `runHistory` runs, and every run that is in flight.
pub record IsTrimmed (by_id : String → Option Run) (order : List String)
    (result : (String → Option Run) × List String) : Type 0 where
  pub short : length result.1 ≤ run_history
  pub kept : (id : String) → is_running by_id id ≡ true → result.0 id ≡ by_id id
  pub listed : (id : String) → is_running by_id id ≡ true → In id order → In id result.1

abbrev Trims : ℕ → (String → Option Run) → List String → Type 0
Trims fuel by_id order =
    (result : (String → Option Run) × List String) × (trim_from fuel by_id order ≡ some result)
    × IsTrimmed by_id order result

Trims-short :
    (fuel : ℕ) (by_id : String → Option Run) (order : List String)
    → length order ≤ run_history
    → Trims fuel by_id order
unfolding trim_from
Trims-short fuel by_id order h = (
  (by_id, order),
  go fuel order h,
  record { short = h; kept = λ id r. refl; listed = λ id r i. i },
)
  where
    go :
        (fuel : ℕ) (order : List String)
        → length order ≤ run_history
        → trim_from fuel by_id order ≡ some (by_id, order)
    go zero order h =
        let short : ltb run_history (length order) ≡ false = ground arith in rw short refl
    go (suc fuel) [] h = refl
    go (suc fuel) (x ∷ order) h =
        let short : ltb run_history (length (x ∷ order)) ≡ false = ground arith in rw short refl

In-rotate : (id x : String) (order : List String) → In id (x ∷ order) → In id (order ++ x ∷ [])
In-rotate id x order (inl e) = In-append_right id order (x ∷ []) (inl e)
In-rotate id x order (inr i) = In-append_left id order (x ∷ []) i

not_dropped :
    (by_id : String → Option Run) (oldest id : String)
    → is_running by_id oldest ≡ false
    → is_running by_id id ≡ true
    → id ≢ oldest
not_dropped by_id oldest id h r e = cc (h, r, ap (is_running by_id) e)

-- One round of the loop: the oldest run goes to the back, or is forgotten.
Trims-rotated :
    (fuel : ℕ) (by_id : String → Option Run) (x : String) (order : List String)
    → ltb run_history (length (x ∷ order)) ≡ true
    → is_running by_id x ≡ true
    → Trims fuel by_id (order ++ x ∷ [])
    → Trims (suc fuel) by_id (x ∷ order)
unfolding trim_from
Trims-rotated fuel by_id x order e r (result, q, t) = (
  result,
  rw (e, r) q,
  record {
    short = t.short;
    kept = t.kept;
    listed = λ id a i. t.listed id a (In-rotate id x order i);
  },
)

Trims-dropped :
    (fuel : ℕ) (by_id : String → Option Run) (x : String) (order : List String)
    → ltb run_history (length (x ∷ order)) ≡ true
    → is_running by_id x ≡ false
    → Trims fuel (assign by_id x none) order
    → Trims (suc fuel) by_id (x ∷ order)
unfolding trim_from
Trims-dropped fuel by_id x order e r (result, q, t) = (
  result,
  rw (e, r) q,
  record {
    short = t.short;
    kept = λ id a.
        t.kept id (is_running-drop by_id x id r ∙ a)
        ∙ assign_other by_id x id none (not_dropped by_id x id r a);
    listed = λ id a i. t.listed id (is_running-drop by_id x id r ∙ a) (tail id a i);
  },
)
  where
    tail : (id : String) → is_running by_id id ≡ true → In id (x ∷ order) → In id order
    tail id a (inl q) = absurd (not_dropped by_id x id r a q)
    tail id a (inr i) = i

-- The first ids are still to be looked at, the last were all in flight.
Trims-from :
    (fuel : ℕ) (by_id : String → Option Run) (xs ys : List String)
    → length xs ≤ fuel
    → count (is_running by_id) xs + length ys ≤ run_history
    → Trims fuel by_id (xs ++ ys)
Trims-from fuel by_id [] ys f h = Trims-short fuel by_id ys (omega (arith, h))
Trims-from zero by_id (x ∷ xs) ys f h = absurd (omega (arith, f))
Trims-from (suc fuel) by_id (x ∷ xs) ys f h =
    elim (Bool-cases (ltb run_history (length (x ∷ (xs ++ ys))))) [
      | inr e ↦ Trims-short (suc fuel) by_id (x ∷ (xs ++ ys)) (ground arith)
      | inl e ↦ elim (Bool-cases (is_running by_id x)) [
        | inl r ↦
            let room = rw r at h in
            Trims-rotated fuel by_id x (xs ++ ys) e r (
              subst (Trims fuel by_id) (sym (append_assoc xs ys x)) (
                Trims-from fuel by_id xs (ys ++ x ∷ []) (omega (arith, f))
                  (omega (arith, room, length-append ys (x ∷ [])))))
        | inr r ↦
            let room = rw r at h in
            Trims-dropped fuel by_id x (xs ++ ys) e r (
              Trims-from fuel (assign by_id x none) xs ys (omega (arith, f))
                (omega (arith, room, count-drop by_id x xs r)))
      ]
    ]

-- With at most `runHistory` runs in flight `trim` returns after one pass over the order at most. It
-- leaves at most `runHistory` runs, among them every run in flight, unchanged.
pub trim-returns :
    (by_id : String → Option Run) (order : List String)
    → count (is_running by_id) order ≤ run_history
    → Trims (length order) by_id order
trim-returns by_id order h =
    subst (Trims (length order) by_id) (append-nil order)
      (Trims-from (length order) by_id order [] (omega arith) (omega (arith, h)))
  where
    append-nil : (xs : List String) → xs ++ [] ≡ xs
    append-nil [] = refl
    append-nil (x ∷ xs) = ap (λ ys. x ∷ ys) (append-nil xs)
