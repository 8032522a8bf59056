-- ===== src/Pipeline/Int.antt =====
-- Decimal integers, as `strconv.Itoa` writes and `strconv.Atoi` reads them.
use vaultd.Base.{
  ℕ, zero, suc, ◌+◌, ◌-◌, ◌*◌, ◌/◌, ◌%◌, ◌≤◌, ◌<◌, Bool, true, false, ◌&&◌, Option, none, some, [],
  ◌∷◌, if◌then◌else◌, ltb, leb, ◌==◌, Text, digit, decimal, decimal_from, ◌≡◌, refl, subst, ap, ◌∙◌,
  arith, Bool-cases, ltb→lt, inl, inr,
}

-- An `int`.
pub data ℤ : Type 0 where
  pos : ℕ → ℤ
  negsuc : ℕ → ℤ

-- `strconv.Itoa`.
unfoldable pub itoa : ℤ → Text
itoa (pos n) = decimal n
itoa (negsuc n) = 45 ∷ decimal (n + 1)

-- The digits that are left, with the value of those before them.
unfoldable pub digits_from : ℕ → Text → Option ℕ
digits_from acc [] = some acc
digits_from acc (d ∷ ds) =
    let rest = digits_from (acc * 10 + (d - 48)) ds in if leb 48 d && leb d 57 then rest else none

-- At least one digit.
unfoldable pub digits : Text → Option ℕ
unfolding digits_from
digits [] = none
digits (d ∷ ds) = digits_from 0 (d ∷ ds)

abbrev int_bound : ℕ
int_bound = 9223372036854775808

-- The range of a 64-bit `int`.
abbrev pub positive : Option ℕ → Option ℤ
positive none = none
positive (some n) = if ltb n int_bound then some (pos n) else none

abbrev pub negative : Option ℕ → Option ℤ
negative none = none
negative (some zero) = some (pos 0)
negative (some (suc n)) = if ltb n int_bound then some (negsuc n) else none

-- `strconv.Atoi`, without its error's text.
unfoldable pub atoi : Text → Option ℤ
unfolding digits
atoi [] = none
atoi (c ∷ s) =
    if c == 45
    then negative (digits s)
    else if c == 43
    then positive (digits s)
    else positive (digits (c ∷ s))

digits_from-digit :
    (acc n : ℕ) (out : Text) → digits_from acc (digit n ∷ out) ≡ digits_from (acc * 10 + n % 10) out
unfolding digits_from
digits_from-digit acc n out =
    let low : leb 48 (48 + n % 10) ≡ true = ground arith in
    let high : leb (48 + n % 10) 57 ≡ true = ground arith in
    let same : 48 + n % 10 - 48 ≡ n % 10 = omega arith in rw (low, high, same) refl

digits_from-decimal_from :
    (fuel n : ℕ) (out : Text)
    → n < fuel
    → digits_from 0 (decimal_from fuel n out) ≡ digits_from n out
unfolding decimal_from
digits_from-decimal_from zero n out h = absurd (omega (arith, h))
digits_from-decimal_from (suc fuel) n out h = elim (Bool-cases (ltb n 10)) [
  | inl e ↦
      let small : n < 10 = ltb→lt n 10 e in
      let same : 0 * 10 + n % 10 ≡ n = omega (arith, small) in
      rw e (digits_from-digit 0 n out ∙ ap (λ k. digits_from k out) same)
  | inr e ↦
      let same : n / 10 * 10 + n % 10 ≡ n = omega arith in
      let big : 10 ≤ n = ground arith in
      rw e (
        digits_from-decimal_from fuel (n / 10) (digit n ∷ out) (omega (arith, h, big))
        ∙ (digits_from-digit (n / 10) n out ∙ ap (λ k. digits_from k out) same))
]

decimal_from-starts :
    (fuel n : ℕ) (out : Text)
    → (m : ℕ) × ((rest : Text) × (decimal_from (suc fuel) n out ≡ digit m ∷ rest))
unfolding decimal_from
decimal_from-starts zero n out = elim (Bool-cases (ltb n 10)) [
  | inl e ↦ (n, (out, rw e refl))
  | inr e ↦ (n, (out, rw e refl))
]
decimal_from-starts (suc fuel) n out = elim (Bool-cases (ltb n 10)) [
  | inl e ↦ (n, (out, rw e refl))
  | inr e ↦
      let ih = decimal_from-starts fuel (n / 10) (digit n ∷ out) in (ih.0, (ih.1.0, rw e ih.1.1))
]

decimal-starts : (n : ℕ) → (m : ℕ) × ((rest : Text) × (decimal n ≡ digit m ∷ rest))
unfolding decimal
decimal-starts n = decimal_from-starts n n []

digits-decimal : (n : ℕ) → digits (decimal n) ≡ some n
unfolding digits decimal digits_from
digits-decimal n =
    let s = decimal-starts n in
    let read = digits_from-decimal_from (suc n) n [] (omega arith) in
    let whole : digits (decimal n) ≡ digits_from 0 (decimal n) = rw s.1.1 refl in whole ∙ read

-- What the range of an `int` is.
abbrev pub in_range : ℤ → Bool
in_range (pos n) = ltb n int_bound
in_range (negsuc n) = ltb n int_bound

pub itoa-starts : (i : ℤ) → (c : ℕ) × ((rest : Text) × (itoa i ≡ c ∷ rest))
unfolding itoa
itoa-starts (pos n) = let s = decimal-starts n in (digit s.0, (s.1.0, s.1.1))
itoa-starts (negsuc n) = (45, (decimal (n + 1), refl))

pub atoi-itoa : (i : ℤ) → in_range i ≡ true → atoi (itoa i) ≡ some i
unfolding atoi itoa
atoi-itoa (negsuc n) h =
    let e : n + 1 ≡ suc n = omega arith in rw (digits-decimal (n + 1), e, h) refl
atoi-itoa (pos n) h =
    let s = decimal-starts n in
    let low : (digit s.0 == 45) ≡ false = ground arith in
    let plus : (digit s.0 == 43) ≡ false = ground arith in
    let read : digits (digit s.0 ∷ s.1.0) ≡ some n =
      subst (λ t. digits t ≡ some n) s.1.1 (digits-decimal n) in
    rw (s.1.1, low, plus, read, h) refl
