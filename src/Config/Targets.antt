-- ===== src/Config/Targets.antt =====
-- internal/config/validate.go: the checks of the version, the destinations and the targets.
use vaultd.Base.{
  String, Bool, true, false, not, ◌&&◌, Option, none, some, List, [], ◌∷◌, ◌++◌, if◌then◌else◌,
  ◌=s=◌, is_nil, is_some, any_of, map,
}
use vaultd.Pipeline.Int.{ℤ}
use vaultd.Config.Names.{name_matches}
use vaultd.Config.Types.{
  notified, Diagnostic, error_at, warn_at, when, valid, is_set, Destination, VerifySpec, Target,
  VerifyTarget, Notifier, Config, Libraries,
}
use vaultd.Config.Options.{is_positive, validate_options, validate_assertions}
use vaultd.Config.Stages.{between, validate_compression, validate_encryption, validate_retention}

abbrev pub engines : List String
engines = "postgres" ∷ "mysql" ∷ "mariadb" ∷ "mongodb" ∷ []

-- `validateVersion`: the schema version is 1.
abbrev pub validate_version : ℤ → List Diagnostic
validate_version v = when (not (between 1 1 v)) (error_at "version")

-- The `switch` over a name, with the names that came before it.
abbrev pub validate_name : String → List String → String → List Diagnostic
validate_name field seen name =
    if name =s= ""
    then error_at field
    else if valid name seen
    then error_at field
    else when (not (name_matches name)) (error_at field)

abbrev needs_address : Destination → List Diagnostic
needs_address d =
    if valid d.provider ("r2" ∷ "minio" ∷ "gcs-interop" ∷ [])
    then when (d.endpoint =s= "") (error_at "destinations.endpoint")
    else if d.provider =s= "s3"
    then when (d.region =s= "") (error_at "destinations.region")
    else []

abbrev differ : Bool → Bool → Bool
differ true b = not b
differ false b = b

abbrev validate_credentials : Destination → List Diagnostic
validate_credentials d =
    if differ (is_set d.access_key_id) (is_set d.secret_access_key)
    then error_at "destinations"
    else when (not (is_set d.access_key_id) && not (d.provider =s= "s3")) (warn_at "destinations")

-- The body of the loop of `validateDestinations`.
abbrev validate_destination : Libraries → List String → Destination → List Diagnostic
validate_destination lib seen d =
    validate_name "destinations.name" seen d.name
    ++ (when (not (valid d.provider ("s3" ∷ "r2" ∷ "minio" ∷ "gcs-interop" ∷ [])))
          (error_at "destinations.provider")
        ++ (when (d.bucket =s= "") (error_at "destinations.bucket")
            ++ (needs_address d
                ++ (when (not (d.endpoint =s= "") && not (lib.is_endpoint d.endpoint))
                      (error_at "destinations.endpoint")
                    ++ (when ((d.provider =s= "r2") && not (d.storage_class =s= ""))
                          (warn_at "destinations.storage_class")
                        ++ validate_credentials d)))))

unfoldable pub destinations_from : Libraries → List String → List Destination → List Diagnostic
destinations_from lib seen [] = []
destinations_from lib seen (d ∷ ds) =
    validate_destination lib seen d ++ destinations_from lib (d.name ∷ seen) ds

-- `validateDestinations`.
abbrev pub validate_destinations : Libraries → List Destination → List Diagnostic
validate_destinations lib ds =
    if is_nil ds then error_at "destinations" else destinations_from lib [] ds

-- `validateTargetConn`.
abbrev pub validate_target_conn : Target → List Diagnostic
validate_target_conn t =
    if t.engine =s= "mongodb"
    then when (not (is_set t.uri)) (error_at "targets.uri")
      ++ when (is_set t.dsn) (error_at "targets.dsn")
    else when (not (is_set t.dsn)) (error_at "targets.dsn")
      ++ when (is_set t.uri) (error_at "targets.uri")

-- `Config.Destination` finds one.
abbrev pub has_destination : Config → String → Bool
has_destination c name = any_of (λ (d : Destination). d.name =s= name) c.destinations

-- `validateTargetDestination`.
abbrev pub validate_target_destination : Config → Target → List Diagnostic
validate_target_destination c t =
    if t.destination =s= ""
    then error_at "targets.destination"
    else when (not (has_destination c t.destination)) (error_at "targets.destination")

-- `Config.VerifyTarget`.
abbrev find_verify_target : String → List VerifyTarget → Option VerifyTarget
find_verify_target name [] = none
find_verify_target name (v ∷ vs) =
    let rest = find_verify_target name vs in if v.name =s= name then some v else rest

-- The `switch` over `into`.
abbrev validate_into : Config → Target → VerifySpec → List Diagnostic
validate_into c t v =
    if v.into =s= ""
    then error_at "targets.verify.into"
    else elim (find_verify_target v.into c.verify_targets) [
      | none ↦ error_at "targets.verify.into"
      | some into ↦ when (not (into.engine =s= t.engine)) (error_at "targets.verify.into")
    ]

-- `validateTargetVerify`.
abbrev validate_verify : Libraries → Config → Target → VerifySpec → List Diagnostic
validate_verify lib c t v =
    when (not (valid v.level ("integrity" ∷ "structural" ∷ "restore" ∷ [])))
      (error_at "targets.verify.level")
    ++ (when (not (v.schedule =s= "") && not (lib.parses_cron v.schedule))
          (error_at "targets.verify.schedule")
        ++ ((if v.level =s= "restore"
              then validate_into c t v
              else when (not (v.into =s= "")) (warn_at "targets.verify.into"))
            ++ (when (not (is_nil v.assertions) && not (v.level =s= "restore"))
                  (warn_at "targets.verify.assertions")
                ++ validate_assertions lib t v.assertions)))

abbrev validate_target_verify : Libraries → Config → Target → List Diagnostic
validate_target_verify lib c t = elim t.verify [ none ↦ [] | some v ↦ validate_verify lib c t v ]

abbrev pub validate_schedule : Libraries → String → List Diagnostic
validate_schedule lib schedule =
    if schedule =s= ""
    then warn_at "targets.schedule"
    else when (not (lib.parses_cron schedule)) (error_at "targets.schedule")

abbrev unknown_notifiers : List String → List String → List Diagnostic
unknown_notifiers declared [] = []
unknown_notifiers declared (n ∷ ns) =
    when (not (valid n declared)) (error_at "targets.notify") ++ unknown_notifiers declared ns

-- `validateEnum`.
abbrev validate_enum : String → String → List String → List Diagnostic
validate_enum field value values = when (not (valid value values)) (error_at field)

-- The last checks of a target.
abbrev validate_rest : Libraries → Config → Target → List Diagnostic
validate_rest lib c t =
    validate_enum "targets.spool" t.spool ("none" ∷ "disk" ∷ [])
    ++ (validate_enum "targets.on_overlap" t.on_overlap ("skip" ∷ "queue" ∷ "fail" ∷ [])
        ++ (validate_enum "targets.row_estimate" t.row_estimate ("exact" ∷ "estimate" ∷ "off" ∷ [])
            ++ (unknown_notifiers (map (λ (n : Notifier). n.name) c.notifiers) (notified t)
                ++ validate_target_verify lib c t)))

-- The body of the loop of `validateTargets`.
abbrev pub validate_target : Libraries → Config → List String → Target → List Diagnostic
validate_target lib c seen t =
    validate_name "targets.name" seen t.name
    ++ (when (not (valid t.engine engines)) (error_at "targets.engine")
        ++ (validate_target_conn t
            ++ (validate_target_destination c t
                ++ (validate_schedule lib t.schedule
                    ++ (when (is_some t.timeout && not (is_positive t.timeout))
                          (error_at "targets.timeout")
                        ++ (validate_options lib t
                            ++ (validate_compression t.compression
                                ++ (validate_encryption lib t.encryption
                                    ++ (validate_retention t.retention
                                        ++ validate_rest lib c t)))))))))

unfoldable pub targets_from : Libraries → Config → List String → List Target → List Diagnostic
targets_from lib c seen [] = []
targets_from lib c seen (t ∷ ts) =
    validate_target lib c seen t ++ targets_from lib c (t.name ∷ seen) ts

-- `validateTargets`.
unfoldable pub validate_targets : Libraries → Config → List Diagnostic
unfolding targets_from
validate_targets lib c =
    if is_nil c.targets then error_at "targets" else targets_from lib c [] c.targets
