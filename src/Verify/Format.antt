-- ===== src/Verify/Format.antt =====
-- internal/verify/format.go: `window` and the validators of a dump's format.
use vaultd.Base.{
  ℕ, zero, suc, ◌+◌, ◌-◌, Bool, true, false, not, ◌&&◌, ◌||◌, String, List, [], ◌∷◌, ◌++◌,
  if◌then◌else◌, ◌==◌, ◌=s=◌, ltb, Text, codes, length, take, Option, none, some, min,
}

abbrev pub head_bytes : ℕ
head_bytes = 512

abbrev pub tail_bytes : ℕ
tail_bytes = 4096

abbrev pub drop {ℓ} : {A : Type ℓ} → ℕ → List A → List A
drop zero xs = xs
drop (suc n) [] = []
drop (suc n) (x ∷ xs) = drop n xs

-- `window`.
pub record Window : Type 0 where
  pub head : Text
  pub tail : Text
  pub total : ℕ

abbrev pub empty_window : Window
empty_window = record { head = []; tail = []; total = 0 }

-- The cut of an overlong tail.
abbrev pub last_bytes : ℕ → Text → Text
last_bytes n t = if ltb n (length t) then drop (length t - n) t else t

-- `window.Write`.
unfoldable pub write : Text → Window → Window
write p w = record {
  head =
      if ltb (length w.head) head_bytes
      then w.head ++ take (min (length p) (head_bytes - length w.head)) p
      else w.head;
  tail = last_bytes tail_bytes (w.tail ++ p);
  total = w.total + length p;
}

-- The writes of `io.Copy`, one for every piece of the stream.
unfoldable pub write_all : List Text → Window → Window
write_all [] w = w
write_all (p ∷ ps) w = write_all ps (write p w)

-- `bytes.HasPrefix`.
abbrev has_prefix : Text → Text → Bool
has_prefix t [] = true
has_prefix [] (x ∷ xs) = false
has_prefix (y ∷ t) (x ∷ xs) = let rest = has_prefix t xs in if y == x then rest else false

-- `strings.Contains`.
abbrev contains : Text → Text → Bool
contains [] needle = has_prefix [] needle
contains (c ∷ t) needle = has_prefix (c ∷ t) needle || contains t needle

-- The three kinds of validator.
pub data Validator : Type 0 where
  magic : Text → String → Validator
  sql_dump : Validator
  any_dump : Validator

-- `ValidatorFor`.
abbrev pub validator_for : String → Validator
validator_for engine =
    if engine =s= "postgres"
    then magic (codes "PGDMP") "a pg_dump custom-format archive"
    else if engine =s= "mongodb"
    then magic (109 ∷ 226 ∷ 153 ∷ 129 ∷ []) "a mongodump archive"
    else if (engine =s= "mysql") || (engine =s= "mariadb")
    then sql_dump
    else any_dump

-- The error of a format that does not fit.
pub data FormatError : Type 0 where
  empty_backup : FormatError
  wrong_start : String → FormatError
  cut_short : FormatError

abbrev validate_sql : Window → Option FormatError
validate_sql w =
    if not (contains w.head (codes "MySQL dump")) && not (contains w.head (codes "MariaDB dump"))
    then some (wrong_start "a mysqldump or mariadb-dump file")
    else if contains w.tail (codes "Dump completed")
    then none
    else some cut_short

abbrev validate_start : Validator → Window → Option FormatError
validate_start (magic start what) w =
    if has_prefix w.head start then none else some (wrong_start what)
validate_start sql_dump w = validate_sql w
validate_start any_dump w = none

-- `Validate`, which refuses an empty stream first.
unfoldable pub validate : Validator → Window → Option FormatError
validate v w = if w.total == 0 then some empty_backup else validate_start v w
