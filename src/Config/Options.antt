-- ===== src/Config/Options.antt =====
-- internal/config/validate.go: the checks of a target's options and of its assertions.
use vaultd.Base.{
  String, Bool, false, not, ◌&&◌, ◌||◌, Option, none, some, List, [], ◌∷◌, ◌++◌, if◌then◌else◌,
  ◌=s=◌, ltb, is_nil, is_some,
}
use vaultd.Pipeline.Int.{ℤ}
use vaultd.Config.Types.{Diagnostic, error_at, warn_at, when, valid, Assertion, Target, Libraries}
use vaultd.Config.Stages.{between, magnitude}

abbrev bad_patterns : Libraries → List String → List Diagnostic
bad_patterns lib [] = []
bad_patterns lib (p ∷ ps) =
    when (not (lib.is_pattern p)) (error_at "targets.options.exclude_table_data")
    ++ bad_patterns lib ps

-- `validateOptions`.
abbrev pub validate_options : Libraries → Target → List Diagnostic
validate_options lib t =
    when
      ((not (is_nil t.options.exclude_table_data) || is_some t.options.include_globals)
        && not (t.engine =s= "postgres"))
      (error_at "targets.options")
    ++ (bad_patterns lib t.options.exclude_table_data
        ++ (when
              (not (t.options.on_non_innodb =s= "")
                && (not ((t.engine =s= "mysql") || (t.engine =s= "mariadb"))
                    || not (valid t.options.on_non_innodb ("warn" ∷ "fail" ∷ "lock" ∷ []))))
              (error_at "targets.options.on_non_innodb")
            ++ when (is_some t.options.oplog && not (t.engine =s= "mongodb"))
                (error_at "targets.options.oplog")))

abbrev outside_unit : Option ℤ → Bool
outside_unit none = false
outside_unit (some n) = not (between 0 1000000 n)

abbrev is_zero : Option ℤ → Bool
is_zero none = false
is_zero (some n) = between 0 0 n

abbrev pub is_positive : Option ℤ → Bool
is_positive none = false
is_positive (some n) = ltb 0 (magnitude n)

abbrev validate_row_count : Target → Assertion → List Diagnostic
validate_row_count t a =
    when (outside_unit a.tolerance) (error_at "targets.verify.assertions.tolerance")
    ++ (when (t.row_estimate =s= "off") (error_at "targets.verify.assertions")
        ++ (when (is_nil a.tables && not (is_nil t.options.exclude_table_data))
              (warn_at "targets.verify.assertions.tables")
            ++ when (is_zero a.tolerance && (t.row_estimate =s= "estimate"))
                (warn_at "targets.verify.assertions.tolerance")))

abbrev validate_query : Libraries → Target → Assertion → List Diagnostic
validate_query lib t a =
    when (lib.trim a.sql =s= "") (error_at "targets.verify.assertions.sql")
    ++ (when (not a.has_expect) (error_at "targets.verify.assertions.expect")
        ++ when (t.engine =s= "mongodb") (error_at "targets.verify.assertions"))

-- `validateAssertion`.
abbrev validate_assertion : Libraries → Target → Assertion → List Diagnostic
validate_assertion lib t a =
    if a.kind =s= "row_count"
    then validate_row_count t a
    else if a.kind =s= "query"
    then validate_query lib t a
    else if a.kind =s= "max_age"
    then when (not (is_positive a.value)) (error_at "targets.verify.assertions.value")
    else if a.kind =s= "table_count"
    then when (not (is_nil a.tables)) (warn_at "targets.verify.assertions.tables")
    else error_at "targets.verify.assertions.type"

abbrev pub validate_assertions : Libraries → Target → List Assertion → List Diagnostic
validate_assertions lib t [] = []
validate_assertions lib t (a ∷ rest) = validate_assertion lib t a ++ validate_assertions lib t rest
