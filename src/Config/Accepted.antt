-- ===== src/Config/Accepted.antt =====
-- About internal/config/validate.go with internal/manifest/keys.go: what holds of the targets of an accepted
-- configuration.
use Prim.Native.String.{◌++◌ as join_text}
use vaultd.Base.{
  String, Bool, true, false, not, ◌&&◌, Option, none, some, List, [], ◌∷◌, ◌=s=◌, =s=_iff, is_nil,
  is_some, All, ◌≡◌, ◌≢◌, refl, sym, arith, Bool-cases, inl, inr,
}
use vaultd.Config.Names.{name_matches}
use vaultd.Config.Types.{Encryption, accepted, when, error_at, valid, Target, Config, Libraries}
use vaultd.Config.Stages.{validate_compression, validate_encryption}
use vaultd.Config.Options.{is_positive, validate_options}
use vaultd.Config.Targets.{
  engines, validate_version, validate_destinations, validate_name, validate_target_conn,
  has_destination, validate_target_destination, validate_schedule, validate_target, targets_from,
  validate_targets,
}
use vaultd.Config.Validate.{validate}
use vaultd.Config.Retained.{accepted-append, accepted-when}
use vaultd.Manifest.Layout.{target_prefix}
use vaultd.Manifest.Keys.{target_prefix-apart}

-- A relation of every target with each that follows it.
abbrev pub Pairs : (Target → Target → Type 0) → List Target → Type 0
Pairs P [] = Unit
Pairs P (t ∷ ts) = All (P t) ts × Pairs P ts

-- The target has a name that keys can hold, a declared destination, and says how it is encrypted.
abbrev pub IsSound : Config → Target → Type 0
IsSound c t =
    (name_matches t.name ≡ true)
    × (has_destination c t.destination ≡ true)
    × (is_some t.encryption ≡ true)

-- No key below the `TargetPrefix` of the one target, where its backups are, is below that of the other, under
-- a prefix that they share.
abbrev pub AreApart : Target → Target → Type 0
AreApart t u =
    (prefix r v : String)
    → join_text (target_prefix (record { prefix = prefix; target = t.name })) r
      ≢ join_text (target_prefix (record { prefix = prefix; target = u.name })) v

not-injective : (b : Bool) → not b ≡ false → b ≡ true
not-injective true h = refl
not-injective false h = absurd (ground (arith, h))

accepted-name :
    (field : String) (seen : List String) (name : String)
    → accepted (validate_name field seen name) ≡ true
    → (valid name seen ≡ false) × (name_matches name ≡ true)
accepted-name field seen name h = elim (Bool-cases (name =s= "")) [
  | inl e ↦ absurd (ground (arith, simp e at h))
  | inr e ↦ elim (Bool-cases (valid name seen)) [
    | inl v ↦ absurd (ground (arith, simp (e, v) at h))
    | inr v ↦ (
      v,
      not-injective (name_matches name)
          (accepted-when (not (name_matches name)) field (simp (e, v) at h)),
    )
  ]
]

accepted-destination :
    (c : Config) (t : Target)
    → accepted (validate_target_destination c t) ≡ true
    → has_destination c t.destination ≡ true
accepted-destination c t h = elim (Bool-cases (t.destination =s= "")) [
  | inl e ↦ absurd (ground (arith, simp e at h))
  | inr e ↦
      not-injective (has_destination c t.destination)
        (accepted-when (not (has_destination c t.destination)) "targets.destination" (simp e at h))
]

module _ (lib : Libraries) (c : Config) where
  accepted-encryption :
      (e : Option Encryption) → accepted (validate_encryption lib e) ≡ true → is_some e ≡ true
  accepted-encryption none h = absurd (ground (arith, h))
  accepted-encryption (some e) h = refl

  accepted-target :
      (seen : List String) (t : Target)
      → accepted (validate_target lib c seen t) ≡ true
      → (valid t.name seen ≡ false) × IsSound c t
  accepted-target seen t h =
      let n = accepted-append (validate_name "targets.name" seen t.name) _ h in
      let e =
        accepted-append (when (not (valid t.engine engines)) (error_at "targets.engine")) _ n.1 in
      let k = accepted-append (validate_target_conn t) _ e.1 in
      let d = accepted-append (validate_target_destination c t) _ k.1 in
      let s = accepted-append (validate_schedule lib t.schedule) _ d.1 in
      let o =
        accepted-append
          (when (is_some t.timeout && not (is_positive t.timeout)) (error_at "targets.timeout")) _
          s.1 in
      let p = accepted-append (validate_options lib t) _ o.1 in
      let q = accepted-append (validate_compression t.compression) _ p.1 in
      let r = accepted-append (validate_encryption lib t.encryption) _ q.1 in
      let name = accepted-name "targets.name" seen t.name n.0 in
      (name.0, (name.1, accepted-destination c t d.0, accepted-encryption t.encryption r.0))

  -- A target whose name is not among those before it.
  unseen-cons :
      (name other : String) (seen : List String)
      → valid name (other ∷ seen) ≡ false
      → (other ≢ name) × (valid name seen ≡ false)
  unseen-cons name other seen h = elim (Bool-cases (name =s= other)) [
    | inl e ↦ absurd (ground (arith, simp e at h))
    | inr e ↦ ((λ q. absurd (ground (arith, e, (=s=_iff name other).1 (sym q)))), simp e at h)
  ]

  Unseen : List String → List Target → Type 0
  Unseen seen ts = All (λ (t : Target). valid t.name seen ≡ false) ts

  after_first :
      (seen : List String) (t : Target) (ts : List Target)
      → All (IsSound c) (t ∷ ts)
      → Unseen (t.name ∷ seen) ts
      → All (AreApart t) ts × Unseen seen ts
  unfolding Unseen
  after_first seen t [] sound h = (tt, tt)
  after_first seen t (u ∷ ts) (st, (su, sound)) (hu, h) =
      let q = unseen-cons u.name t.name seen hu in
      let rest = after_first seen t ts (st, sound) h in
      (
        (
          λ prefix r v e. q.0 ((target_prefix-apart prefix t.name u.name r v st.0 su.0).2 e),
          rest.0,
        ),
        (q.1, rest.1),
      )

  targets_from-apart :
      (seen : List String) (ts : List Target)
      → accepted (targets_from lib c seen ts) ≡ true
      → All (IsSound c) ts × Unseen seen ts × Pairs AreApart ts
  unfolding targets_from Unseen
  targets_from-apart seen [] h = (tt, tt, tt)
  targets_from-apart seen (t ∷ ts) h =
      let parts = accepted-append (validate_target lib c seen t) _ h in
      let head = accepted-target seen t parts.0 in
      let tail = targets_from-apart (t.name ∷ seen) ts parts.1 in
      let sound : All (IsSound c) (t ∷ ts) = (head.1, tail.0) in
      let first = after_first seen t ts sound tail.1 in
      (sound, (head.0, first.1), (first.0, tail.2))

  -- If validation finds no error in a configuration, then every target has a name that keys can hold, a
  -- declared destination and a declared encryption, and where two targets are stored under one prefix,
  -- whichever it is, no key at which the one has a backup is a key at which the other has one.
  pub validate-apart :
      accepted (validate lib c) ≡ true → All (IsSound c) c.targets × Pairs AreApart c.targets
  unfolding validate validate_targets
  validate-apart h =
      let v = accepted-append (validate_version c.version) _ h in
      let d = accepted-append (validate_destinations lib c.destinations) _ v.1 in
      let n = accepted-append (validate_targets lib c) _ d.1 in
      elim (Bool-cases (is_nil c.targets)) [
        | inl e ↦ absurd (ground (arith, simp e at n.0))
        | inr e ↦ let q = targets_from-apart [] c.targets (simp e at n.0) in (q.0, q.2)
      ]
