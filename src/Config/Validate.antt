-- ===== src/Config/Validate.antt =====
-- internal/config/validate.go: the checks of the verify targets, the notifiers and the server, and `Validate`.
use vaultd.Base.{
  String, Bool, false, not, ◌&&◌, ◌||◌, Option, none, some, List, [], ◌∷◌, ◌++◌, if◌then◌else◌,
  ◌=s=◌, is_nil, any_of,
}
use vaultd.Pipeline.Int.{ℤ}
use vaultd.Config.Names.{ident_matches}
use vaultd.Config.Types.{
  notified, Diagnostic, error_at, warn_at, when, valid, is_set, VerifySpec, Target, VerifyTarget,
  Notifier, Server, Config, Libraries,
}
use vaultd.Config.Stages.{is_negative}
use vaultd.Config.Options.{is_positive}
use vaultd.Config.Targets.{
  engines, validate_version, validate_destinations, validate_targets, destinations_from,
}

-- The `switch` over the name of a verify target or of a notifier.
abbrev validate_unique : String → List String → String → List Diagnostic
validate_unique field seen name = when ((name =s= "") || valid name seen) (error_at field)

abbrev restores_into : String → Option VerifySpec → Bool
restores_into name none = false
restores_into name (some v) = not (v.into =s= "") && (v.into =s= name)

-- The set `used` of `validateVerifyTargets`.
abbrev is_restored_into : List Target → String → Bool
is_restored_into ts name = any_of (λ (t : Target). restores_into name t.verify) ts

-- `VerifyTarget.Conn`.
abbrev conn : VerifyTarget → String
conn v = if v.engine =s= "mongodb" then v.uri else v.dsn

abbrev conn_field : VerifyTarget → String
conn_field v = if v.engine =s= "mongodb" then "verify_targets.uri" else "verify_targets.dsn"

-- The body of the loop of `validateVerifyTargets`.
abbrev validate_verify_target : List Target → List String → VerifyTarget → List Diagnostic
validate_verify_target ts seen v =
    validate_unique "verify_targets.name" seen v.name
    ++ (when (not (valid v.engine engines)) (error_at "verify_targets.engine")
        ++ (when (not (is_set (conn v))) (error_at (conn_field v))
            ++ (when ((v.database_prefix =s= "") || not (ident_matches v.database_prefix))
                  (error_at "verify_targets.database_prefix")
                ++ (when (not (is_positive (some v.max_concurrent)))
                      (error_at "verify_targets.max_concurrent")
                    ++ when (not (is_restored_into ts v.name)) (warn_at "verify_targets")))))

-- `validateVerifyTargets`.
abbrev verify_targets_from : List Target → List String → List VerifyTarget → List Diagnostic
verify_targets_from ts seen [] = []
verify_targets_from ts seen (v ∷ vs) =
    validate_verify_target ts seen v ++ verify_targets_from ts (v.name ∷ seen) vs

abbrev pub events : List String
events =
    "backup.started" ∷ "backup.succeeded" ∷ "backup.failed" ∷ "verify.succeeded" ∷ "verify.failed"
    ∷ "retention.pruned" ∷ "retention.blocked" ∷ "schedule.missed" ∷ "storage.error" ∷ []

abbrev validate_address : String × String → List Diagnostic
validate_address (scheme, host) =
    if host =s= ""
    then error_at "notifiers.url"
    else if not (scheme =s= "https") && not (scheme =s= "http")
    then error_at "notifiers.url"
    else when (scheme =s= "http") (warn_at "notifiers.url")

-- The `switch` over the address.
abbrev validate_url : Libraries → String → List Diagnostic
validate_url lib url =
    if url =s= ""
    then error_at "notifiers.url"
    else elim (lib.parse_url url) [ none ↦ error_at "notifiers.url" | some u ↦ validate_address u ]

abbrev unknown_events : List String → List Diagnostic
unknown_events [] = []
unknown_events (e ∷ es) =
    when (not (valid e events)) (error_at "notifiers.events") ++ unknown_events es

abbrev is_below_zero : Option ℤ → Bool
is_below_zero none = false
is_below_zero (some n) = is_negative n

-- The body of the loop of `validateNotifiers`.
abbrev validate_notifier : Libraries → List Target → List String → Notifier → List Diagnostic
validate_notifier lib ts seen n =
    validate_unique "notifiers.name" seen n.name
    ++ (when (not (valid n.kind ("webhook" ∷ []))) (error_at "notifiers.type")
        ++ (when (not (valid n.template ("generic" ∷ "slack" ∷ "discord" ∷ [])))
              (error_at "notifiers.template")
            ++ (validate_url lib n.url
                ++ (when (not (is_set n.secret)) (warn_at "notifiers.secret")
                    ++ (when (is_nil n.events) (error_at "notifiers.events")
                        ++ (unknown_events n.events
                            ++ (when (is_below_zero n.dedup_window)
                                  (error_at "notifiers.dedup_window")
                                ++ when
                                    (not (any_of (λ (t : Target). valid n.name (notified t)) ts))
                                    (warn_at "notifiers"))))))))

-- `validateNotifiers`.
abbrev notifiers_from : Libraries → List Target → List String → List Notifier → List Diagnostic
notifiers_from lib ts seen [] = []
notifiers_from lib ts seen (n ∷ ns) =
    validate_notifier lib ts seen n ++ notifiers_from lib ts (n.name ∷ seen) ns

abbrev validate_auth : Server → List Diagnostic
validate_auth s =
    if (s.auth_mode =s= "token") && not (is_set s.auth_token)
    then error_at "server.auth.token"
    else when ((s.auth_mode =s= "none") && s.ui) (warn_at "server.auth.mode")

-- `validateServer`.
abbrev validate_server : Libraries → Server → List Diagnostic
validate_server lib s =
    if not s.ui && not s.metrics
    then []
    else when (not (lib.is_host_port s.listen)) (error_at "server.listen")
      ++ (if valid s.auth_mode ("token" ∷ "none" ∷ [])
          then validate_auth s
          else error_at "server.auth.mode")

-- `Validate`.
unfoldable pub validate : Libraries → Config → List Diagnostic
unfolding validate_targets destinations_from
validate lib c =
    validate_version c.version
    ++ (validate_destinations lib c.destinations
        ++ (validate_targets lib c
            ++ (verify_targets_from c.targets [] c.verify_targets
                ++ (notifiers_from lib c.targets [] c.notifiers ++ validate_server lib c.server))))
