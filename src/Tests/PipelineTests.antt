-- ===== src/Tests/PipelineTests.antt =====
-- Runs and instances of the theorems about internal/pipeline.
use vaultd.Base.{Text, Bool, true, false, Option, none, some, [], ◌∷◌, ◌≡◌, refl, inr, codes}
use vaultd.Pipeline.Int.{pos, negsuc, itoa, atoi}
use vaultd.Pipeline.Spec.{
  Spec, zstd, age, validate, compression_string, encryption_string, parse_spec,
}
use vaultd.Pipeline.RoundTrip.{recorded_compression, recorded_encryption, parse_spec-strings}

itoa_test : itoa (negsuc 11) ≡ codes "-12"
unfolding itoa vaultd.Base.decimal
itoa_test = refl

atoi_test : atoi (codes "9223372036854775808") ≡ none
unfolding atoi
atoi_test = refl

abbrev spec : Spec
spec = record {
  compression = record { algo = zstd; level = pos 19; long = true };
  encryption = record { mode = age; recipients = codes "age1" ∷ []; passphrase = [] };
}

string_test : compression_string spec.compression ≡ codes "zstd:19"
unfolding compression_string itoa vaultd.Base.decimal
string_test = refl

spec_valid : validate (λ t. true) spec ≡ none
unfolding validate
spec_valid = refl

parse_spec-strings_example :
    parse_spec (compression_string spec.compression) (encryption_string spec.encryption)
    ≡ inr (record {
      compression = recorded_compression spec.compression;
      encryption = recorded_encryption spec.encryption;
    })
parse_spec-strings_example = parse_spec-strings (λ t. true) spec spec_valid refl
