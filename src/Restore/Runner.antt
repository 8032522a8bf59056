-- ===== src/Restore/Runner.antt =====
-- internal/restore/restore.go: `Runner.Run`. The decryption and the decompression are a parameter, as in
-- internal/verify, and so is the hash.
use vaultd.Base.{
  String, ℕ, Bool, true, not, ◌&&◌, Option, none, some, List, [], ◌∷◌, ◌++◌, if◌then◌else◌, ◌==◌,
  ◌=s=◌, Text, codes, codes_eq, is_nil, length, ◌⊎◌, inl, inr,
}
use vaultd.Store.Port.{Answer, ok, err, StoreError, Store}
use vaultd.Manifest.Entry.{Manifest}
use vaultd.Pipeline.Spec.{Spec, parse_spec, age, passphrase_mode}
use vaultd.Verify.Types.{Provisioner}

-- What `Spec.Reader` gives over the bytes of an object: no identity matches, the header does not parse, or the
-- plaintext in pieces with the error that ends it. The number is how many bytes of the object were read.
pub data Opened : Type 0 where
  no_match : Opened
  malformed : String → ℕ → Opened
  opened : List Text → Option String → ℕ → Opened

-- `ErrDestinationNotEmpty`, an `age.NoIdentityMatchError`, `ErrChecksumMismatch`, and every other error, with
-- the error of the store by itself.
pub data RunError : Type 0 where
  not_empty : RunError
  wrong_key : RunError
  mismatch : RunError
  store_error : StoreError → RunError
  other : String → RunError

-- `Result`, without its duration and `Matched`, which is whether there is no error.
pub record Restored : Type 0 where
  pub bytes : ℕ
  pub sha256 : String

-- What decrypts: whether there are identities, and the passphrase.
pub record Keys : Type 0 where
  pub has_identity : Bool
  pub passphrase : Text

-- The `switch` over the mode: the key for this backup is there.
abbrev pub can_decrypt : Keys → Text → Bool
can_decrypt keys mode =
    if codes_eq mode age
    then keys.has_identity
    else if codes_eq mode passphrase_mode
    then not (is_nil keys.passphrase)
    else true

abbrev pub with_passphrase : Text → Spec → Spec
with_passphrase secret s = record s { encryption = record s.encryption { passphrase = secret } }

abbrev pub join_pieces : List Text → Text
join_pieces [] = []
join_pieces (p ∷ ps) = p ++ join_pieces ps

-- What the two readers of backups share.
pub record Reader : Type 0 where
  pub keys : Keys
  pub hash : Text → String
  pub open_body : Spec → Text → Opened

module _ {S : Type 0} (store : Store S Text) (rd : Reader) (p : Provisioner S) (box : String) where
  -- The part of `Run` behind `Restore`: the digest is of what the restorer has read.
  abbrev pub compare_sums : Manifest → (Option String × Text) × S → (RunError ⊎ Restored) × S
  compare_sums m ((some e, seen), t) = (inl (other e), t)
  compare_sums m ((none, seen), t) = (
    if (rd.hash seen =s= m.plaintext.sha256) && (length seen == m.plaintext.bytes)
        then inr (record { bytes = length seen; sha256 = rd.hash seen })
        else inl mismatch,
    t,
  )

  abbrev pub pour : Manifest → Opened → S → (RunError ⊎ Restored) × S
  pour m no_match s = (inl wrong_key, s)
  pour m (malformed e n) s = (inl (other e), s)
  pour m (opened ps e n) s = compare_sums m (p.apply box (join_pieces ps) e s)

  abbrev pub fetch_body : Manifest → Spec → Answer Text → S → (RunError ⊎ Restored) × S
  fetch_body m spec (err e) s = (inl (store_error e), s)
  fetch_body m spec (ok body) s = pour m (rd.open_body spec body) s

  abbrev pub with_spec : Manifest → String ⊎ Spec → S → (RunError ⊎ Restored) × S
  with_spec m (inl e) s = (inl (other e), s)
  with_spec m (inr spec) s =
      if can_decrypt rd.keys spec.encryption.mode
      then fetch_body m (with_passphrase rd.keys.passphrase spec) (store.get m.object.key s) s
      else (inl (other "the key for this backup is not here"), s)

  abbrev pub checked_empty : Bool → Manifest → Option Bool → S → (RunError ⊎ Restored) × S
  checked_empty force m none s = (inl (other "the destination could not be read"), s)
  checked_empty force m (some empty) s =
      if not empty && not force
      then (inl not_empty, s)
      else with_spec m (parse_spec (codes m.compression) (codes m.encryption)) s

  -- `Runner.Run`.
  unfoldable pub run : Bool → Manifest → S → (RunError ⊎ Restored) × S
  run force m s = checked_empty force m (p.is_empty box s) s
