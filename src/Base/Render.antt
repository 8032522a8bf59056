-- ===== src/Base/Render.antt =====
-- Text that the program builds, as lists of code points: literals, decimal numbers, padding.
use Prim.Native.Nat.{ℕ, zero, suc, ◌+◌, ◌/◌, ◌%◌}
use Prim.Native.Char.{code}
use Prim.Native.String.{String}
use mathlib.Core.List.{List, [], ◌∷◌}
use vaultd.Base.Tests.{ltb, if◌then◌else◌}

abbrev pub Text : Type 0
Text = List ℕ

-- The code points of a literal.
abbrev pub codes : String → Text
codes String.[] = []
codes (String.◌∷◌ c s) = code c ∷ codes s

abbrev pub digit : ℕ → ℕ
digit n = 48 + n % 10

-- `%d`, the least significant digit last; `fuel` bounds the number of digits.
unfoldable pub decimal_from : ℕ → ℕ → Text → Text
decimal_from zero n out = out
decimal_from (suc fuel) n out =
    let rest = decimal_from fuel (n / 10) (digit n ∷ out) in
    if ltb n 10 then digit n ∷ out else rest

unfoldable pub decimal : ℕ → Text
unfolding decimal_from
decimal n = decimal_from (suc n) n []

-- `%02d` of a number below 100.
abbrev pub pad2 : ℕ → Text
pad2 n = digit (n / 10) ∷ digit n ∷ []

-- `%04d`.
abbrev pub pad4 : ℕ → Text
pad4 n =
    if ltb n 10000
    then digit (n / 1000) ∷ digit (n / 100) ∷ digit (n / 10) ∷ digit n ∷ []
    else decimal n
