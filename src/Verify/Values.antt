-- ===== src/Verify/Values.antt =====
-- internal/verify/assert.go: `valuesEqual`, on values that are null, truth values, whole numbers that are
-- not negative, or text.
use vaultd.Base.{
  ℕ, zero, suc, ◌+◌, ◌*◌, ◌/◌, ◌%◌, ◌<◌, Bool, true, false, ◌&&◌, ◌||◌, Option, none, some,
  if◌then◌else◌, ◌==◌, ltb, Text, codes, codes_eq, decimal, ◌≡◌, ◌↔◌, lt→ltb, ==_iff,
}
use vaultd.Verify.Types.{Value, null, boolean, whole, text}

-- The whole numbers that a `float64` holds exactly.
abbrev exact_bound : ℕ
exact_bound = 9007199254740992

-- Round to the nearest, ties to even, of a number whose `step`-th part is `q` with the remainder `r`.
abbrev nearest : ℕ → ℕ → ℕ → ℕ
nearest step q r =
    if ltb (r * 2) step || ((r * 2 == step) && (q % 2 == 0)) then q * step else (q + 1) * step

abbrev float_from : ℕ → ℕ → ℕ → ℕ
float_from zero step n = n
float_from (suc fuel) step n =
    let rest = float_from fuel (step * 2) n in
    if ltb (n / step) exact_bound then nearest step (n / step) (n % step) else rest

-- `float64` of a number below 2^64, which is below 2^53 after 11 halvings.
unfoldable pub float64 : ℕ → ℕ
float64 n = if ltb n exact_bound then n else float_from 12 1 n

-- `asNumber`.
unfoldable pub as_number : Value → Option ℕ
unfolding float64
as_number null = none
as_number (boolean b) = none
as_number (whole n) = some (float64 n)
as_number (text t) = none

-- `renderValue`.
abbrev render_value : Value → Text
render_value null = codes "null"
render_value (boolean true) = codes "true"
render_value (boolean false) = codes "false"
render_value (whole n) = decimal n
render_value (text t) = t

abbrev same_bool : Bool → Bool → Bool
same_bool true b = b
same_bool false true = false
same_bool false false = true

abbrev equal_other : Value → Value → Bool
equal_other (boolean a) (boolean b) = same_bool a b
equal_other got want = codes_eq (render_value got) (render_value want)

abbrev equal_numbers : Option ℕ → Option ℕ → Bool → Bool
equal_numbers (some a) (some b) other = a == b
equal_numbers (some a) none other = other
equal_numbers none b other = other

-- `valuesEqual`.
unfoldable pub values_equal : Value → Value → Bool
unfolding as_number
values_equal got want = equal_numbers (as_number got) (as_number want) (equal_other got want)

-- Two whole numbers below 2^53 are equal to an assertion exactly when they are the same number.
values_equal_iff :
    (a b : ℕ)
    → a < exact_bound
    → b < exact_bound
    → (values_equal (whole a) (whole b) ≡ true) ↔ (a ≡ b)
unfolding values_equal as_number float64
values_equal_iff a b ha hb = rw (lt→ltb a exact_bound ha, lt→ltb b exact_bound hb) (==_iff a b)
