-- ===== src/Pipeline/RoundTrip.antt =====
-- About internal/pipeline/parse.go: what a manifest's words give back.
use vaultd.Base.{
  Bool, true, false, ◌||◌, none, some, ◌≡◌, refl, arith, codes_eq, codes_eq→≡, Text, inr,
  if◌then◌else◌, Bool-cases, subst, inl, ◌∙◌, [],
}
use vaultd.Pipeline.Int.{in_range, itoa, atoi, itoa-starts, atoi-itoa, pos}
use vaultd.Pipeline.Spec.{
  Compression, Encryption, Spec, zstd, gzip, no_stage, age, passphrase_mode, compression_string,
  encryption_string, known_algo, validate, validate_encryption, parse_compression, parse_encryption,
  parse_spec, parse_level, mode_only,
}

-- What a reader needs of the stages: their names, and the level.
abbrev pub recorded_compression : Compression → Compression
recorded_compression c =
    if codes_eq c.algo no_stage || codes_eq c.algo []
    then record { algo = no_stage; level = pos 0; long = false }
    else record { algo = c.algo; level = c.level; long = false }

abbrev pub recorded_encryption : Encryption → Encryption
recorded_encryption e = if codes_eq e.mode [] then mode_only no_stage else mode_only e.mode

parse_level-itoa :
    (c : Compression) → in_range c.level ≡ true → parse_level (itoa c.level) ≡ some c.level
parse_level-itoa c h =
    let s = itoa-starts c.level in
    let e : parse_level (itoa c.level) ≡ atoi (itoa c.level) = rw s.1.1 refl in
    e ∙ atoi-itoa c.level h

parse_compression-string :
    (c : Compression)
    → known_algo c.algo ≡ true
    → in_range c.level ≡ true
    → parse_compression (compression_string c) ≡ inr (recorded_compression c)
unfolding parse_compression compression_string
parse_compression-string c h range = elim (Bool-cases (codes_eq c.algo zstd)) [
  | inl e ↦ rw (codes_eq→≡ c.algo zstd e, parse_level-itoa c range) refl
  | inr n ↦ elim (Bool-cases (codes_eq c.algo gzip)) [
    | inl e ↦ rw (codes_eq→≡ c.algo gzip e, parse_level-itoa c range) refl
    | inr m ↦ elim (Bool-cases (codes_eq c.algo no_stage)) [
      | inl e ↦ rw e refl
      | inr k ↦ rw (codes_eq→≡ c.algo [] (ground (arith, h, n, m, k))) refl
    ]
  ]
]

parse_encryption-string :
    (parses : Text → Bool) (e : Encryption)
    → validate_encryption parses e ≡ none
    → parse_encryption (encryption_string e) ≡ inr (recorded_encryption e)
unfolding parse_encryption encryption_string
parse_encryption-string parses e h = elim (Bool-cases (codes_eq e.mode no_stage)) [
  | inl q ↦ rw (codes_eq→≡ e.mode no_stage q) refl
  | inr n ↦ elim (Bool-cases (codes_eq e.mode [])) [
    | inl q ↦ rw (codes_eq→≡ e.mode [] q) refl
    | inr m ↦ elim (Bool-cases (codes_eq e.mode age)) [
      | inl q ↦ rw (codes_eq→≡ e.mode age q) refl
      | inr k ↦ elim (Bool-cases (codes_eq e.mode passphrase_mode)) [
        | inl q ↦ rw (codes_eq→≡ e.mode passphrase_mode q) refl
        | inr j ↦ absurd (ground (arith, h, n, m, k, j))
      ]
    ]
  ]
]

-- A specification that `Validate` accepts, and whose level is an `int`, is read back from the two words
-- that its `String` methods give a manifest: `ParseSpec` returns the same algorithm with its level and
-- the same mode, an empty one as "none", without recipients or passphrase.
pub parse_spec-strings :
    (parses : Text → Bool) (s : Spec)
    → validate parses s ≡ none
    → in_range s.compression.level ≡ true
    → parse_spec (compression_string s.compression) (encryption_string s.encryption)
      ≡ inr (record {
        compression = recorded_compression s.compression;
        encryption = recorded_encryption s.encryption;
      })
unfolding parse_spec validate
parse_spec-strings parses s h range = elim (Bool-cases (known_algo s.compression.algo)) [
  | inl k ↦
      let e : validate_encryption parses s.encryption ≡ none =
        subst
          (λ b.
            (if b
              then validate_encryption parses s.encryption
              else some "unknown compression algorithm")
            ≡ none)
          k h in
      rw
        (
          parse_compression-string s.compression k range,
          parse_encryption-string parses s.encryption e,
        )
        refl
  | inr k ↦ absurd (ground (arith, h, k))
]
