-- ===== src/Verify/Assert.antt =====
-- internal/verify/assert.go: the checks of a restored database against the manifest. A tolerance is a number
-- of millionths, and its product with a row count is exact, without the rounding of a `float64`.
use Prim.Native.Char.{code}
use vaultd.Base.{
  ℕ, ◌+◌, ◌-◌, ◌*◌, String, Bool, true, false, not, ◌||◌, Option, none, some, List, [], ◌∷◌, ◌++◌,
  if◌then◌else◌, ◌==◌, ◌=s=◌, ltb, leb, length, map, any_of, is_nil,
}
use vaultd.Manifest.Entry.{Manifest, TableInfo}
use vaultd.Verify.Types.{
  AssertionType, table_count, row_count, query, max_age, other_type, Check, Value, Scalar, scalar,
  unsupported_query, failed_query, Provisioner,
}
use vaultd.Verify.Values.{values_equal}

-- `Assertion`.
pub record Assertion : Type 0 where
  pub kind : AssertionType
  pub tables : List String
  pub tolerance : Option ℕ
  pub sql : String
  pub expect : Value
  pub max_age : ℕ

abbrev million : ℕ
million = 1000000

-- `estimateTolerance`.
abbrev estimate_tolerance : ℕ
estimate_tolerance = 200000

abbrev pub check : AssertionType → String → Bool → Check
check kind table ok = record { kind = kind; table = table; ok = ok }

-- `unqualified`: the part behind the first dot, or the whole name.
abbrev after_dot : String → Option String
after_dot String.[] = none
after_dot (String.◌∷◌ c s) = if code c == 46 then some s else after_dot s

abbrev unqualified : String → String
unqualified name = elim (after_dot name) [ none ↦ name | some table ↦ table ]

-- `hasRowCounts`.
abbrev has_row_counts : List TableInfo → Bool
has_row_counts ts = any_of (λ (t : TableInfo). t.rows_exact || ltb 0 t.rows) ts

abbrev pub named : String → TableInfo → Bool
named name t = (t.name =s= name) || (unqualified t.name =s= name)

-- The first table that a name matches.
abbrev find_table : String → List TableInfo → Option TableInfo
find_table name [] = none
find_table name (t ∷ ts) = let rest = find_table name ts in if named name t then some t else rest

abbrev found_tables : List TableInfo → List String → List TableInfo
found_tables ts [] = []
found_tables ts (n ∷ ns) =
    let rest = found_tables ts ns in elim (find_table n ts) [ none ↦ rest | some t ↦ t ∷ rest ]

abbrev missing_tables : List TableInfo → List String → List String
missing_tables ts [] = []
missing_tables ts (n ∷ ns) =
    let rest = missing_tables ts ns in elim (find_table n ts) [ none ↦ n ∷ rest | some t ↦ rest ]

-- `selectTables`.
abbrev select_tables : List TableInfo → List String → List TableInfo × List String
select_tables ts names =
    if is_nil names then (ts, []) else (found_tables ts names, missing_tables ts names)

-- `toleranceFor`, without its second result, which only the text reads.
abbrev tolerance_for : Assertion → TableInfo → ℕ
tolerance_for a t = elim a.tolerance [
  | some n ↦ n
  | none ↦ if t.rows_exact then 0 else estimate_tolerance
]

abbrev drift : ℕ → ℕ → ℕ
drift want got = (want - got) + (got - want)

-- `withinTolerance`.
abbrev within_tolerance : ℕ → ℕ → ℕ → Bool
within_tolerance want got tolerance =
    if want == got
    then true
    else if tolerance == 0
    then false
    else leb (drift want got * million) (tolerance * want)

-- `maxAgeCheck`: a backup that finished after `now` has a negative age.
abbrev max_age_check : Manifest → Assertion → ℕ → Check
max_age_check m a now = check max_age "" (not (ltb (m.finished_at + a.max_age) now))

module _ {S : Type 0} (p : Provisioner S) (box : String) (s : S) where
  -- `tableCountCheck`.
  abbrev table_count_check : Manifest → Check
  table_count_check m =
      check table_count ""
        (elim (p.tables box s) [ none ↦ false | some ts ↦ length ts == length m.tables ])

  -- The body of the second loop of `rowCountChecks`.
  abbrev rows_check : Assertion → TableInfo → Check
  rows_check a t = check row_count t.name (elim (p.count_rows box t.name s) [
    | none ↦ false
    | some got ↦ within_tolerance t.rows got (tolerance_for a t)
  ])

  -- `rowCountChecks`.
  abbrev row_count_checks : Manifest → Assertion → List Check
  row_count_checks m a =
      if has_row_counts m.tables
      then map (λ n. check row_count n false) (select_tables m.tables a.tables).1
        ++ map (rows_check a) (select_tables m.tables a.tables).0
      else check row_count "" false ∷ []

  abbrev pub answered : Assertion → Scalar → Bool
  answered a (scalar value) = values_equal value a.expect
  answered a unsupported_query = false
  answered a (failed_query e) = false

  -- `queryCheck`.
  abbrev query_check : Assertion → Check
  query_check a = check query "" (answered a (p.run_query box a.sql s))

  -- The `switch` of `runAssertions`.
  abbrev checks_of : AssertionType → Manifest → Assertion → ℕ → List Check
  checks_of table_count m a now = table_count_check m ∷ []
  checks_of row_count m a now = row_count_checks m a
  checks_of query m a now = query_check a ∷ []
  checks_of max_age m a now = max_age_check m a now ∷ []
  checks_of (other_type t) m a now = check (other_type t) "" false ∷ []

  -- `runAssertions`. `cancelled` says whether the context has ended before the assertions that are left:
  -- `none` is its error.
  unfoldable pub run_assertions :
      (List Assertion → Bool) → Manifest → List Assertion → ℕ → Option (List Check)
  run_assertions cancelled m [] now = some []
  run_assertions cancelled m (a ∷ later) now =
      let rest = run_assertions cancelled m later now in
      if cancelled (a ∷ later)
      then none
      else elim rest [ none ↦ none | some cs ↦ some (checks_of a.kind m a now ++ cs) ]
