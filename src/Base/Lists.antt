-- ===== src/Base/Lists.antt =====
-- Lists measured by native numbers, predicates over lists by recursion, and Boolean filters.
use Prim.Native.Nat.{ℕ, zero, suc, ◌+◌, ◌≤◌}
use mathlib.Core.Path.{◌≡◌, refl}
use mathlib.Core.Logic.{◌⊎◌, inl, inr}
use mathlib.Core.Bool.{Bool, true, false}
use mathlib.Core.List.{List, [], ◌∷◌, ◌++◌}
use native.Mathlib.Omega.{arith}
use vaultd.Base.Tests.{if◌then◌else◌, Bool-cases}

module _ {ℓ} {A : Type ℓ} where
  abbrev pub length : List A → ℕ
  length [] = 0
  length (x ∷ xs) = suc (length xs)

  pub length-append : (xs ys : List A) → length (xs ++ ys) ≡ length xs + length ys
  length-append [] ys = omega arith
  length-append (x ∷ xs) ys = omega (arith, length-append xs ys)

  abbrev pub take : ℕ → List A → List A
  take zero xs = []
  take (suc n) [] = []
  take (suc n) (x ∷ xs) = x ∷ take n xs

  -- The elements that pass a test, in order.
  abbrev pub filter : (A → Bool) → List A → List A
  filter p [] = []
  filter p (x ∷ xs) = let rest = filter p xs in if p x then x ∷ rest else rest

  abbrev pub all_of : (A → Bool) → List A → Bool
  all_of p [] = true
  all_of p (x ∷ xs) = let rest = all_of p xs in if p x then rest else false

  abbrev pub any_of : (A → Bool) → List A → Bool
  any_of p [] = false
  any_of p (x ∷ xs) = let rest = any_of p xs in if p x then true else rest

  -- How many elements pass a test.
  abbrev pub count : (A → Bool) → List A → ℕ
  count p [] = 0
  count p (x ∷ xs) = let rest = count p xs in if p x then suc rest else rest

  -- Membership, with the place kept.
  abbrev pub In : A → List A → Type ℓ
  In a [] = Unit {ℓ} × ⊥
  In a (x ∷ xs) = (a ≡ x) ⊎ In a xs

abbrev pub All {ℓ κ} : {A : Type ℓ} → (A → Type κ) → List A → Type κ
All P [] = Unit
All P (x ∷ xs) = P x × All P xs

module _ {ℓ} {A : Type ℓ} where
  length-filter : (p : A → Bool) (xs : List A) → length (filter p xs) ≡ count p xs
  length-filter p [] = refl
  length-filter p (x ∷ xs) = ground (arith, length-filter p xs)

  pub count-le-length : (p : A → Bool) (xs : List A) → count p xs ≤ length xs
  count-le-length p [] = omega arith
  count-le-length p (x ∷ xs) = ground (arith, count-le-length p xs)

  pub In-append_right : (a : A) (xs ys : List A) → In a ys → In a (xs ++ ys)
  In-append_right a [] ys h = h
  In-append_right a (x ∷ xs) ys h = inr (In-append_right a xs ys h)

  pub In-append_left : (a : A) (xs ys : List A) → In a xs → In a (xs ++ ys)
  In-append_left a [] ys h = absurd h.1
  In-append_left a (x ∷ xs) ys (inl e) = inl e
  In-append_left a (x ∷ xs) ys (inr h) = inr (In-append_left a xs ys h)

  pub In-filter : (p : A → Bool) (a : A) (xs : List A) → In a xs → p a ≡ true → In a (filter p xs)
  In-filter p a [] h t = absurd h.1
  In-filter p a (x ∷ xs) (inl e) t = rw (← e, t) (inl refl)
  In-filter p a (x ∷ xs) (inr h) t = elim (Bool-cases (p x)) [
    | inl e ↦ rw e (inr (In-filter p a xs h t))
    | inr e ↦ rw e (In-filter p a xs h t)
  ]

  filter-In_step :
      (p : A → Bool) (a x : A) (xs : List A)
      → (In a (filter p xs) → In a xs × (p a ≡ true))
      → In a (filter p (x ∷ xs))
      → In a (x ∷ xs) × (p a ≡ true)
  filter-In_step p a x xs ih h = elim (Bool-cases (p x)) [
    | inl e ↦ kept e (rw e at h)
    | inr e ↦ let r = ih (rw e at h) in (inr r.0, r.1)
  ]
    where
      kept : p x ≡ true → In a (x ∷ filter p xs) → In a (x ∷ xs) × (p a ≡ true)
      kept e (inl q) = (inl q, rw q e)
      kept e (inr q) = let r = ih q in (inr r.0, r.1)

  pub filter-In : (p : A → Bool) (a : A) (xs : List A) → In a (filter p xs) → In a xs × (p a ≡ true)
  filter-In p a [] h = absurd h.1
  filter-In p a (x ∷ xs) h = filter-In_step p a x xs (filter-In p a xs) h

  pub All-in {κ} : (P : A → Type κ) (xs : List A) → All P xs → (a : A) → In a xs → P a
  All-in P [] h a i = absurd i.1
  All-in P (x ∷ xs) h a (inl e) = rw e h.0
  All-in P (x ∷ xs) h a (inr i) = All-in P xs h.1 a i

module _ {ℓ} {A : Type ℓ} (p q : A → Bool) (imp : (a : A) → p a ≡ true → q a ≡ true) where
  count_mono : (xs : List A) → count p xs ≤ count q xs
  count_mono [] = omega arith
  count_mono (x ∷ xs) = ground (arith, imp x, count_mono xs)

  -- One more element passes.
  pub count-lt :
      (a : A) (xs : List A) → In a xs → p a ≡ false → q a ≡ true → suc (count p xs) ≤ count q xs
  count-lt a [] h f t = absurd h.1
  count-lt a (x ∷ xs) (inl e) f t =
      let fx : p x ≡ false = rw (← e) f in
      let tx : q x ≡ true = rw (← e) t in ground (arith, count_mono xs)
  count-lt a (x ∷ xs) (inr h) f t = ground (arith, imp x, count-lt a xs h f t)

module _ {ℓ} {A : Type ℓ} where
  pub count-all :
      (p : A → Bool) (xs : List A) → ((a : A) → In a xs → p a ≡ true) → count p xs ≡ length xs
  count-all p [] h = refl
  count-all p (x ∷ xs) h = ground (arith, h x (inl refl), count-all p xs (λ a i. h a (inr i)))
