-- ===== src/Pipeline/Spec.antt =====
-- internal/pipeline/spec.go and parse.go: the stages a backup goes through, their check, and the words that a
-- manifest keeps of them. `age.ParseX25519Recipient` is a parameter. An error is its message, without
-- the values it quotes.
use vaultd.Base.{
  Bool, true, false, ◌&&◌, ◌||◌, Option, none, some, List, [], ◌∷◌, ◌++◌, if◌then◌else◌, ◌==◌,
  codes_eq, is_nil, Text, codes, ◌⊎◌, inl, inr, String,
}
use vaultd.Pipeline.Int.{ℤ, pos, itoa, atoi}

abbrev pub zstd : Text
zstd = codes "zstd"

abbrev pub gzip : Text
gzip = codes "gzip"

-- `AlgoNone`, and `ModeNone`.
abbrev pub no_stage : Text
no_stage = codes "none"

abbrev pub age : Text
age = codes "age"

abbrev pub passphrase_mode : Text
passphrase_mode = codes "passphrase"

pub record Compression : Type 0 where
  pub algo : Text
  pub level : ℤ
  pub long : Bool

pub record Encryption : Type 0 where
  pub mode : Text
  pub recipients : List Text
  pub passphrase : Text

pub record Spec : Type 0 where
  pub compression : Compression
  pub encryption : Encryption

-- `Compression.String`.
unfoldable pub compression_string : Compression → Text
compression_string c =
    if codes_eq c.algo no_stage || codes_eq c.algo []
    then no_stage
    else c.algo ++ (58 ∷ itoa c.level)

-- `Encryption.String`.
unfoldable pub encryption_string : Encryption → Text
encryption_string e =
    if codes_eq e.mode age
    then codes "age:x25519"
    else if codes_eq e.mode passphrase_mode
    then codes "age:scrypt"
    else no_stage

abbrev pub known_algo : Text → Bool
known_algo a = codes_eq a zstd || (codes_eq a gzip || (codes_eq a no_stage || codes_eq a []))

-- The first recipient that does not parse ends `Spec.recipients`.
abbrev all_parse : (Text → Bool) → List Text → Bool
all_parse parses [] = true
all_parse parses (r ∷ rs) = parses r && all_parse parses rs

abbrev pub validate_encryption : (Text → Bool) → Encryption → Option String
validate_encryption parses e =
    if codes_eq e.mode no_stage || codes_eq e.mode []
    then none
    else if codes_eq e.mode age
    then (if is_nil e.recipients
        then some "age encryption needs at least one recipient"
        else if all_parse parses e.recipients
        then none
        else some "invalid age recipient")
    else if codes_eq e.mode passphrase_mode
    then (if is_nil e.passphrase then some "passphrase encryption needs a passphrase" else none)
    else some "unknown encryption mode"

-- `Spec.Validate`.
unfoldable pub validate : (Text → Bool) → Spec → Option String
validate parses s =
    if known_algo s.compression.algo
    then validate_encryption parses s.encryption
    else some "unknown compression algorithm"

-- `strings.Cut` at a colon.
abbrev pub cut : Text → Text × Text
cut [] = ([], [])
cut (c ∷ s) = let rest = cut s in if c == 58 then ([], s) else (c ∷ rest.0, rest.1)

-- The level, when one is recorded.
abbrev pub parse_level : Text → Option ℤ
parse_level [] = some (pos 0)
parse_level (c ∷ s) = atoi (c ∷ s)

abbrev of_level : Text → Option ℤ → String ⊎ Compression
of_level algo none = inl "whose level is not a number"
of_level algo (some level) = inr (record { algo = algo; level = level; long = false })

-- The first half of `ParseSpec`.
unfoldable pub parse_compression : Text → String ⊎ Compression
parse_compression s =
    let algo = (cut s).0 in
    if codes_eq algo zstd || codes_eq algo gzip
    then of_level algo (parse_level (cut s).1)
    else if codes_eq algo no_stage || codes_eq algo []
    then inr (record { algo = no_stage; level = pos 0; long = false })
    else inl "which this build cannot read"

abbrev pub mode_only : Text → Encryption
mode_only m = record { mode = m; recipients = []; passphrase = [] }

-- The second half.
unfoldable pub parse_encryption : Text → String ⊎ Encryption
parse_encryption s =
    if codes_eq s (codes "age:x25519")
    then inr (mode_only age)
    else if codes_eq s (codes "age:scrypt")
    then inr (mode_only passphrase_mode)
    else if codes_eq s no_stage || codes_eq s []
    then inr (mode_only no_stage)
    else inl "which this build cannot read"

abbrev with_encryption : Compression → String ⊎ Encryption → String ⊎ Spec
with_encryption c (inl err) = inl err
with_encryption c (inr e) = inr (record { compression = c; encryption = e })

abbrev with_compression : String ⊎ Compression → String ⊎ Encryption → String ⊎ Spec
with_compression (inl err) e = inl err
with_compression (inr c) e = with_encryption c e

-- `ParseSpec`.
unfoldable pub parse_spec : Text → Text → String ⊎ Spec
unfolding parse_compression parse_encryption
parse_spec compression encryption =
    with_compression (parse_compression compression) (parse_encryption encryption)
